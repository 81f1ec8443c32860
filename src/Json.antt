-- ===== src/Json.antt =====
-- JSON values as Python holds them after `json.loads`, and the operations that the harness makes on
-- them, each with the exception that it raises on a value of another type. Numbers are exact, in
-- millionths: the reports that are read back were rounded to six digits or fewer.
pub mod Objects
pub mod Steps
use qwen38_flash_next_sglang.Prelude.{
  ℕ, suc, ◌*◌, Bool, true, false, not, Option, none, some, List, [], ◌∷◌, map, length, Text, ◌=ₜ◌,
  ◌==◌, ◌&&◌, if◌then◌else◌,
}
use qwen38_flash_next_sglang.Prelude.Int.{ℤ, pos, negsuc, ltb_ℤ}

mutual
  pub data Value : Type 0 where
    null : Value
    bool : Bool → Value
    num : ℤ → Value
    str : Text → Value
    arr : Items → Value
    obj : Fields → Value

  pub data Items : Type 0 where
    nil : Items
    cons : Value → Items → Items

  pub data Fields : Type 0 where
    end : Fields
    field : Text → Value → Fields → Fields

pub data Error : Type 0 where
  key_error type_error value_error attribute_error runtime_error index_error : Error
  -- `SystemExit`, and what the network or a deadline raises
  system_exit os_error : Error

-- What a piece of the program gives: the exception that it raises, or a value.
infixl 5 ◌>>=◌
pub data Result {ℓ} (A : Type ℓ) : Type ℓ where
  err : Error → Result A
  ok : A → Result A

-- An exception ends the steps after it.
abbrev pub ◌>>=◌ {ℓ κ} : {A : Type ℓ} {B : Type κ} → Result A → (A → Result B) → Result B
err raised >>= next = err raised
ok value >>= next = next value

unfoldable pub list_of : Items → List Value
list_of nil = []
list_of (cons v vs) = v ∷ list_of vs

-- The value of a key, of an object whose keys are distinct.
unfoldable pub find_field : Text → Fields → Option Value
find_field k end = none
find_field k (field j v fs) = if j =ₜ k then some v else find_field k fs

unfoldable pub keys_of : Fields → List Value
keys_of end = []
keys_of (field k v fs) = str k ∷ keys_of fs

unfoldable pub count_fields : Fields → ℕ
count_fields end = 0
count_fields (field k v fs) = suc (count_fields fs)

unfoldable pub values_of : Fields → List Value
values_of end = []
values_of (field k v fs) = v ∷ values_of fs

abbrev pub or_key_error : Option Value → Result Value
or_key_error none = err key_error
or_key_error (some v) = ok v

-- `v[k]`
unfoldable pub item : Text → Value → Result Value
unfolding find_field
item k (obj fs) = or_key_error (find_field k fs)
item k _ = err type_error

abbrev or_default : Value → Option Value → Value
or_default d none = d
or_default d (some v) = v

-- `v.get(k, d)`
unfoldable pub get : Text → Value → Value → Result Value
unfolding find_field
get k d (obj fs) = ok (or_default d (find_field k fs))
get k d _ = err attribute_error

-- `for x in v`
unfoldable pub iterate : Value → Result (List Value)
unfolding list_of keys_of
iterate (arr vs) = ok (list_of vs)
iterate (obj fs) = ok (keys_of fs)
iterate (str t) = ok (map (λ c. str (c ∷ [])) t)
iterate _ = err type_error

-- `v.values()`
unfoldable pub values : Value → Result (List Value)
unfolding values_of
values (obj fs) = ok (values_of fs)
values _ = err attribute_error

unfoldable pub truth : Value → Bool
truth null = false
truth (bool b) = b
truth (num (pos n)) = if n == 0 then false else true
truth (num (negsuc n)) = true
truth (str []) = false
truth (str (c ∷ t)) = true
truth (arr nil) = false
truth (arr (cons v vs)) = true
truth (obj end) = false
truth (obj (field k v fs)) = true

-- `v or d`
abbrev pub or_else : Value → Value → Value
or_else v d = if truth v then v else d

-- `v is None`
unfoldable pub is_none : Value → Bool
is_none null = true
is_none _ = false

-- `len(v)`
unfoldable pub size : Value → Result ℕ
unfolding list_of count_fields
size (arr vs) = ok (length (list_of vs))
size (obj fs) = ok (count_fields fs)
size (str t) = ok (length t)
size _ = err type_error

-- `v is True`
unfoldable pub is_true : Value → Bool
is_true (bool b) = b
is_true _ = false

-- A whole number, in millionths.
abbrev pub whole : ℕ → ℤ
whole n = pos (1000000 * n)

-- A value that compares as a number; `True` is 1.
abbrev pub as_number : Value → Option ℤ
as_number (bool true) = some (whole 1)
as_number (bool false) = some (whole 0)
as_number (num n) = some n
as_number _ = none

abbrev pub eq_ℤ : ℤ → ℤ → Bool
eq_ℤ (pos a) (pos b) = a == b
eq_ℤ (negsuc a) (negsuc b) = a == b
eq_ℤ _ _ = false

-- `v == n`, for a whole number; a value of another type is not equal to it.
unfoldable pub equals : Value → ℕ → Bool
equals v n = elim (as_number v) [ none ↦ false | some m ↦ eq_ℤ m (whole n) ]

-- `v > n`, for a whole number
unfoldable pub exceeds : Value → ℕ → Result Bool
exceeds v n = elim (as_number v) [ none ↦ err type_error | some m ↦ ok (ltb_ℤ (whole n) m) ]

-- `v >= n`, for a whole number
unfoldable pub at_least : Value → ℕ → Result Bool
at_least v n = elim (as_number v) [ none ↦ err type_error | some m ↦ ok (not (ltb_ℤ m (whole n))) ]

-- `a and b`, where `b` is evaluated only if `a` is true
infixr 35 ◌and_then◌
abbrev pub ◌and_then◌ : Result Bool → Result Bool → Result Bool
ok true and_then b = b
ok false and_then b = ok false
err e and_then b = err e

-- `all(p(x) for x in xs)`
unfoldable pub all_of : (Value → Result Bool) → List Value → Result Bool
all_of p [] = ok true
all_of p (x ∷ xs) = p x and_then all_of p xs

-- `v == w`, where 1, 1.0 and `True` are equal, and an object's keys have no order
abbrev eq_number : Option ℤ → Option ℤ → Bool
eq_number (some a) (some b) = eq_ℤ a b
eq_number _ _ = false

abbrev is_null : Value → Bool
is_null null = true
is_null _ = false

abbrev pub is_text : Text → Value → Bool
is_text t (str u) = t =ₜ u
is_text t _ = false

unfoldable mutual
  pub same : Value → Value → Bool
  same null w = is_null w
  same (bool a) w = eq_number (as_number (bool a)) (as_number w)
  same (num n) w = eq_number (some n) (as_number w)
  same (str t) w = is_text t w
  same (arr vs) w = elim w [ arr ws ↦ same_items vs ws | _ ↦ false ]
  same (obj fs) w = elim w [
    | obj gs ↦ (count_fields fs == count_fields gs) && same_fields fs gs
    | _ ↦ false
  ]

  pub same_items : Items → Items → Bool
  same_items nil ws = elim ws [ nil ↦ true | _ ↦ false ]
  same_items (cons v vs) ws = elim ws [ nil ↦ false | cons w rest ↦ same v w && same_items vs rest ]

  pub same_fields : Fields → Fields → Bool
  same_fields end gs = true
  same_fields (field k v fs) gs = elim (find_field k gs) [
    | none ↦ false
    | some w ↦ same v w && same_fields fs gs
  ]
