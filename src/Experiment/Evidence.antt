-- ===== src/Experiment/Evidence.antt =====
-- The keys of a row or a report that `validate` of scripts/experiment.py looks at: what each test says
-- of an object's fields.
use qwen38_flash_next_sglang.Prelude.{
  ◌≡◌, ◌≢◌, refl, sym, ap, ◌↔◌, inl, inr, Bool, true, false, not, Option, none, some, Text, codes,
  Option-cases,
}
use mathlib.Core.Path.{subst}
use mathlib.Core.Option.{some-injective}
use qwen38_flash_next_sglang.Prelude.Int.{ℤ, ltb_ℤ}
use qwen38_flash_next_sglang.Json.{
  Value, null, bool, num, str, arr, obj, Fields, type_error, Result, ok, err, ◌>>=◌, item, get,
  is_true, whole, as_number, eq_ℤ, equals, exceeds, at_least, find_field,
}
use qwen38_flash_next_sglang.Json.Steps.{ok-inj}
use qwen38_flash_next_sglang.Experiment.Validate.{
  flagged, item_equals, get_positive, get_flagged, zero_value,
}

-- The key is there, and holds `true`.
abbrev pub Flag : Text → Fields → Type 0
Flag k fs = find_field k fs ≡ some (bool true)

-- The key is there, and holds a number with a property.
abbrev pub HasNumber : (ℤ → Bool) → Text → Fields → Type 0
HasNumber p k fs =
    (v : Value) × (n : ℤ) × (find_field k fs ≡ some v) × (as_number v ≡ some n) × (p n ≡ true)

abbrev pub is_positive : ℤ → Bool
is_positive n = ltb_ℤ (whole 0) n

-- 2 or more
abbrev pub is_several : ℤ → Bool
is_several n = not (ltb_ℤ n (whole 2))

abbrev pub is_nought : ℤ → Bool
is_nought n = eq_ℤ n (whole 0)

is_true_iff : (v : Value) → (is_true v ≡ true) ↔ (v ≡ bool true)
unfolding is_true
is_true_iff null = (λ h. cc, λ h. cc)
is_true_iff (bool b) = (λ h. ap bool h, λ h. cc h)
is_true_iff (num n) = (λ h. cc, λ h. cc)
is_true_iff (str t) = (λ h. cc, λ h. cc)
is_true_iff (arr vs) = (λ h. cc, λ h. cc)
is_true_iff (obj fs) = (λ h. cc, λ h. cc)

found-inj : {v w : Value} → some v ≡ some w → v ≡ w
found-inj {v} {w} h = some-injective v w h

pub get_flagged_iff : (k : Text) (fs : Fields) → (get_flagged k (obj fs) ≡ ok true) ↔ Flag k fs
unfolding get is_true
get_flagged_iff k fs = elim (Option-cases (find_field k fs)) [
  | inl e ↦ rw e (λ h. cc, λ h. cc)
  | inr (v, e) ↦ rw e (
    λ h. ap (λ w. some w) ((is_true_iff v).0 (ok-inj h)),
    λ h. ap (λ b. ok b) ((is_true_iff v).1 (found-inj h)),
  )
]

pub flagged_iff : (k : Text) (fs : Fields) → (flagged k (obj fs) ≡ ok true) ↔ Flag k fs
unfolding item is_true
flagged_iff k fs = elim (Option-cases (find_field k fs)) [
  | inl e ↦ rw e (λ h. cc, λ h. cc)
  | inr (v, e) ↦ rw e (
    λ h. ap (λ w. some w) ((is_true_iff v).0 (ok-inj h)),
    λ h. ap (λ b. ok b) ((is_true_iff v).1 (found-inj h)),
  )
]

-- A value that is a number with a property
abbrev IsNumber : (ℤ → Bool) → Value → Type 0
IsNumber p v = (n : ℤ) × (as_number v ≡ some n) × (p n ≡ true)

tested_iff :
    (p : ℤ → Bool) (o : Option ℤ)
    → (elim o [ none ↦ err type_error | some m ↦ ok (p m) ] ≡ ok true)
      ↔ ((n : ℤ) × (o ≡ some n) × (p n ≡ true))
tested_iff p none = (λ h. cc, λ h. cc (h.1))
tested_iff p (some m) = (
  λ h. (m, refl, ok-inj h),
  λ h. ap (λ b. ok b) (subst (λ k. p k ≡ true) (sym (some-injective m h.0 h.1)) h.2),
)

equal_iff :
    (p : ℤ → Bool) (o : Option ℤ)
    → (elim o [ none ↦ false | some m ↦ p m ] ≡ true) ↔ ((n : ℤ) × (o ≡ some n) × (p n ≡ true))
equal_iff p none = (λ h. cc, λ h. cc (h.1))
equal_iff p (some m) =
    (λ h. (m, refl, h), λ h. subst (λ k. p k ≡ true) (sym (some-injective m h.0 h.1)) h.2)

exceeds_iff : (v : Value) → (exceeds v 0 ≡ ok true) ↔ IsNumber is_positive v
unfolding exceeds
exceeds_iff v = tested_iff is_positive (as_number v)

at_least_iff : (v : Value) → (at_least v 2 ≡ ok true) ↔ IsNumber is_several v
unfolding at_least
at_least_iff v = tested_iff is_several (as_number v)

equals_iff : (v : Value) → (ok (equals v 0) ≡ ok true) ↔ IsNumber is_nought v
unfolding equals
equals_iff v = (
  λ h. (equal_iff is_nought (as_number v)).0 (ok-inj h),
  λ h. ap (λ b. ok b) ((equal_iff is_nought (as_number v)).1 h),
)

-- A test of a key's value, with 0 for a key that is not there.
get_number_iff :
    (test : Value → Result Bool) (p : ℤ → Bool) (k : Text) (fs : Fields)
    → ((v : Value) → (test v ≡ ok true) ↔ IsNumber p v)
    → test zero_value ≢ ok true
    → ((do x ← get k zero_value (obj fs); test x) ≡ ok true) ↔ HasNumber p k fs
unfolding get
get_number_iff test p k fs each zero = elim (Option-cases (find_field k fs)) [
  | inl e ↦ rw e (λ h. absurd (zero h), λ h. cc (h.2))
  | inr (v, e) ↦ rw e (
    λ h. let (n, a, b) = (each v).0 h in (v, n, refl, a, b),
    λ h. (each v).1 (subst (IsNumber p) (sym (found-inj h.2)) (h.1, h.3, h.4)),
  )
]

no_positive : exceeds zero_value 0 ≢ ok true
unfolding exceeds
no_positive h = cc

no_several : at_least zero_value 2 ≢ ok true
unfolding at_least
no_several h = cc

pub positive_iff :
    (k : Text) (fs : Fields) → (get_positive k (obj fs) ≡ ok true) ↔ HasNumber is_positive k fs
positive_iff k fs = get_number_iff (λ v. exceeds v 0) is_positive k fs exceeds_iff no_positive

pub several_iff :
    (k : Text) (fs : Fields)
    → ((do n ← get k zero_value (obj fs); at_least n 2) ≡ ok true) ↔ HasNumber is_several k fs
several_iff k fs = get_number_iff (λ v. at_least v 2) is_several k fs at_least_iff no_several

pub none_failed_iff :
    (fs : Fields)
    → (item_equals (codes "failed") 0 (obj fs) ≡ ok true) ↔ HasNumber is_nought (codes "failed") fs
unfolding item
none_failed_iff fs = elim (Option-cases (find_field (codes "failed") fs)) [
  | inl e ↦ rw e (λ h. cc, λ h. cc (h.2))
  | inr (v, e) ↦ rw e (
    λ h. let (n, a, b) = (equals_iff v).0 h in (v, n, refl, a, b),
    λ h. (equals_iff v).1 (subst (IsNumber is_nought) (sym (found-inj h.2)) (h.1, h.3, h.4)),
  )
]
