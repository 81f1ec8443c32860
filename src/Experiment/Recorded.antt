-- ===== src/Experiment/Recorded.antt =====
-- `launch_flags_from_argv` of scripts/experiment.py: the value that a flag has in the record.
use qwen38_flash_next_sglang.Prelude.{
  ◌≡◌, ◌≢◌, refl, sym, ap, ◌∙◌, inl, inr, Bool, true, false, ◌&&◌, Option, none, some, List, [],
  ◌∷◌, ◌++◌, Text, codes, ◌=ₜ◌, =ₜ_iff, mem_text, if◌then◌else◌, Bool-cases, arith,
}
use qwen38_flash_next_sglang.Experiment.Flags.{
  FlagValue, switch, one, many, Flags, safe_flags, set_flag, is_flag, key_of, values_of, flag_value,
  is_safe, launch_flags_from_argv, said_by, launch_flags_from_argv-said_by,
}

-- `flags.get(key)`
abbrev pub recorded : Text → Flags → Option FlagValue
recorded k [] = none
recorded k (e ∷ rest) = let later = recorded k rest in if e.0 =ₜ k then some e.1 else later

-- Arguments of which none is a flag
abbrev pub Values : List Text → Type 0
Values [] = Unit {0}
Values (v ∷ vs) = (is_flag v ≡ false) × Values vs

-- No arguments, or a flag first
abbrev pub StartsAnew : List Text → Type 0
StartsAnew [] = Unit {0}
StartsAnew (a ∷ rest) = is_flag a ≡ true

-- Arguments of which no flag has this key
abbrev pub NotAgain : Text → List Text → Type 0
NotAgain k [] = Unit {0}
NotAgain k (a ∷ rest) = (is_flag a ≡ true → key_of a ≢ k) × NotAgain k rest

-- `True` without values, all of them for the one flag that takes a list, else the first
abbrev pub told : Text → List Text → FlagValue
told k [] = switch
told k (v ∷ vs) = if codes "cuda_graph_bs_decode" =ₜ k then many (v ∷ vs) else one v

flag_value-told : (k : Text) (vals : List Text) → flag_value k vals ≡ told k vals
unfolding flag_value
flag_value-told k [] = refl
flag_value-told k (v ∷ vs) = elim (Bool-cases (codes "cuda_graph_bs_decode" =ₜ k)) [
  | inl p ↦ rw p refl
  | inr p ↦ rw p refl
]

values_of-append :
    (vals after : List Text) → Values vals → StartsAnew after → values_of (vals ++ after) ≡ vals
unfolding values_of
values_of-append [] [] h s = refl
values_of-append [] (a ∷ rest) h s = rw s refl
values_of-append (v ∷ vs) after h s = rw h.0 (ap (λ l. v ∷ l) (values_of-append vs after h.1 s))

recorded-set_flag :
    (k : Text) (v : FlagValue) (flags : Flags) → recorded k (set_flag k v flags) ≡ some v
unfolding set_flag
recorded-set_flag k v [] = rw ((=ₜ_iff k k).1 refl) refl
recorded-set_flag k v (e ∷ rest) = elim (Bool-cases (e.0 =ₜ k)) [
  | inl p ↦ rw p (rw p refl)
  | inr p ↦ rw p (rw p (recorded-set_flag k v rest))
]

recorded_other :
    (k j : Text) (v : FlagValue) (flags : Flags)
    → j ≢ k
    → recorded k (set_flag j v flags) ≡ recorded k flags
unfolding set_flag
recorded_other k j v [] h = elim (Bool-cases (j =ₜ k)) [
  | inl p ↦ absurd (h ((=ₜ_iff j k).0 p))
  | inr p ↦ rw p refl
]
recorded_other k j v (e ∷ rest) h = elim (Bool-cases (e.0 =ₜ j)) [
  | inl p ↦ elim (Bool-cases (e.0 =ₜ k)) [
    | inl q ↦ absurd (h (sym ((=ₜ_iff e.0 j).0 p) ∙ (=ₜ_iff e.0 k).0 q))
    | inr q ↦ rw (p, q) refl
  ]
  | inr p ↦ rw (p, recorded_other k j v rest h) refl
]

said_by_keeps :
    (k : Text) (argv : List Text) (flags : Flags)
    → NotAgain k argv
    → recorded k (said_by argv flags) ≡ recorded k flags
unfolding said_by
said_by_keeps k [] flags h = refl
said_by_keeps k (a ∷ rest) flags h = elim (Bool-cases (is_safe a)) [
  | inl p ↦ rw p (
      said_by_keeps k rest _ h.1 ∙ recorded_other k (key_of a) _ flags (h.0 (left (is_flag a) _ p)))
  | inr p ↦ rw p (said_by_keeps k rest flags h.1)
]
  where
    left : (x y : Bool) → (x && y) ≡ true → x ≡ true
    left x y z = ground arith

NotAgain-Values :
    (k : Text) (vals after : List Text)
    → Values vals
    → NotAgain k after
    → NotAgain k (vals ++ after)
NotAgain-Values k [] after h n = n
NotAgain-Values k (v ∷ vs) after h n = (λ f. cc (h.0, f), NotAgain-Values k vs after h.1 n)

-- What the arguments before have made of the record
said_by_reaches :
    (before rest : List Text) (flags : Flags)
    → (made : Flags) × (said_by (before ++ rest) flags ≡ said_by rest made)
unfolding said_by
said_by_reaches [] rest flags = (flags, refl)
said_by_reaches (a ∷ before) rest flags = said_by_reaches before rest _

both : (x y : Bool) → x ≡ true → y ≡ true → (x && y) ≡ true
both x y p q = ground arith

said_by_safe :
    (a : Text) (rest : List Text) (flags : Flags)
    → is_flag a ≡ true
    → mem_text (key_of a) safe_flags ≡ true
    → said_by (a ∷ rest) flags
      ≡ said_by rest (set_flag (key_of a) (flag_value (key_of a) (values_of rest)) flags)
unfolding said_by
said_by_safe a rest flags f m =
    ap
      (λ b.
        said_by rest
          (if b then set_flag (key_of a) (flag_value (key_of a) (values_of rest)) flags else flags))
      (both (is_flag a) _ f m)

-- A safe flag that is not given again has the value that the arguments up to the next flag tell,
-- whatever stands before it: `True` if there are none, the list of them all for cuda_graph_bs_decode,
-- and the first of them for any other flag.
pub launch_flags_from_argv_records :
    (before : List Text) (flag : Text) (vals after : List Text)
    → is_flag flag ≡ true
    → mem_text (key_of flag) safe_flags ≡ true
    → Values vals
    → StartsAnew after
    → NotAgain (key_of flag) after
    → recorded (key_of flag) (launch_flags_from_argv (before ++ flag ∷ (vals ++ after)))
      ≡ some (told (key_of flag) vals)
launch_flags_from_argv_records before flag vals after f m v s n =
    let (made, e) = said_by_reaches before (flag ∷ (vals ++ after)) [] in
    ap (recorded (key_of flag))
      (launch_flags_from_argv-said_by (before ++ flag ∷ (vals ++ after)) ∙ e)
    ∙ ap (recorded (key_of flag)) (said_by_safe flag (vals ++ after) made f m)
    ∙ (said_by_keeps (key_of flag) (vals ++ after) _ (NotAgain-Values (key_of flag) vals after v n)
        ∙ recorded-set_flag (key_of flag) _ made
        ∙ ap (λ l. some (flag_value (key_of flag) l)) (values_of-append vals after v s)
        ∙ ap (λ w. some w) (flag_value-told (key_of flag) vals))
