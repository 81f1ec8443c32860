-- ===== src/Patches/KeyFilter.antt =====
-- `_files_with_matching_keys`, which patches/draft_mtp_files.py inserts into the loader: the weight
-- files that the draft model reads.
use mathlib.Core.List.{Memᴰ}
use mathlib.Core.Path.{subst}
use qwen38_flash_next_sglang.Prelude.{
  ◌≡◌, refl, sym, inl, inr, Bool, true, false, not, ◌||◌, Option, none, some, List, [], ◌∷◌, Text,
  codes, ◌=ₜ◌, =ₜ_iff, =ₜ_refl, mem_text, split_on, strip, if◌then◌else◌, Bool-cases, arith,
}

abbrev last_or : Text → List Text → Text
last_or d [] = d
last_or d (t ∷ ts) = last_or t ts

-- `os.path.basename`: what follows the last slash
unfoldable pub basename : Text → Text
unfolding split_on
basename path = last_or [] (split_on 47 path)

-- `weight_map` of the index: a key and the file that holds it
abbrev pub WeightMap : Type 0
WeightMap = List (Text × Text)

unfoldable pub passing_files : (Text → Bool) → WeightMap → List Text
passing_files key_filter [] = []
passing_files key_filter (e ∷ es) =
    let later = passing_files key_filter es in
    if key_filter e.0 then basename e.1 ∷ later else later

unfoldable pub keep : List Text → List Text → List Text → List Text
keep matching indexed [] = []
keep matching indexed (f ∷ fs) =
    let later = keep matching indexed fs in
    if mem_text (basename f) matching || not (mem_text (basename f) indexed)
    then f ∷ later
    else later

abbrev pub keep_matching : List Text → WeightMap → List Text → List Text
keep_matching [] weight_map files = files
keep_matching (m ∷ matching) weight_map files =
    keep (m ∷ matching) (passing_files (λ _. true) weight_map) files

-- The setting turns the filter off.
abbrev pub is_off : Option Text → Bool
is_off none = false
is_off (some t) = strip t =ₜ codes "0"

-- `setting` is SGLANG_CHECKPOINT_KEY_FILTER, and `weight_map` is `none` where the index cannot be read.
unfoldable pub files_with_matching_keys :
    Option Text → Option WeightMap → List Text → (Text → Bool) → List Text
unfolding passing_files keep strip
files_with_matching_keys setting none files key_filter = files
files_with_matching_keys setting (some weight_map) files key_filter =
    if is_off setting
    then files
    else keep_matching (passing_files key_filter weight_map) weight_map files

passing_files-mem :
    (key_filter : Text → Bool) (k v : Text) (es : WeightMap)
    → Memᴰ (k, v) es
    → key_filter k ≡ true
    → mem_text (basename v) (passing_files key_filter es) ≡ true
unfolding passing_files
passing_files-mem key_filter k v [] m h = elim m [ ]
passing_files-mem key_filter k v (e ∷ es) (Memᴰ.head p) h =
    subst (λ x. mem_text (basename x.1) (passing_files key_filter (e ∷ es)) ≡ true) (sym p)
      (rw (subst (λ x. key_filter x.0 ≡ true) p h, =ₜ_refl (basename e.1)) refl)
passing_files-mem key_filter k v (e ∷ es) (Memᴰ.tail m) h = elim (Bool-cases (key_filter e.0)) [
  | inl p ↦ rw p (rw (passing_files-mem key_filter k v es m h) (ground arith))
  | inr p ↦ rw p (passing_files-mem key_filter k v es m h)
]

or_false : {a b : Bool} → a ≡ false → (a || b) ≡ true → b ≡ true
or_false p h = ground arith

keep-mem :
    (matching indexed files : List Text) (f : Text)
    → mem_text f files ≡ true
    → mem_text (basename f) matching ≡ true
    → mem_text f (keep matching indexed files) ≡ true
unfolding keep
keep-mem matching indexed [] f m h = m
keep-mem matching indexed (x ∷ xs) f m h = elim (Bool-cases (x =ₜ f)) [
  | inl p ↦
      rw (subst (λ t. mem_text (basename t) matching ≡ true) (sym ((=ₜ_iff x f).0 p)) h, p) refl
  | inr p ↦
      (let later = keep-mem matching indexed xs f (or_false p m) h in
        elim (Bool-cases (mem_text (basename x) matching || not (mem_text (basename x) indexed))) [
          | inl q ↦ rw (q, p) later
          | inr q ↦ rw q later
        ])
]

-- Whatever the setting and the index, a file stays if the index maps a key that passes the filter to
-- a file of its name.
files_with_matching_keys-mem :
    (setting : Option Text) (weight_map : WeightMap) (files : List Text) (key_filter : Text → Bool)
    (k v f : Text)
    → Memᴰ (k, v) weight_map
    → key_filter k ≡ true
    → basename v ≡ basename f
    → mem_text f files ≡ true
    → mem_text f (files_with_matching_keys setting (some weight_map) files key_filter) ≡ true
unfolding files_with_matching_keys
files_with_matching_keys-mem setting weight_map files key_filter k v f e h n m =
    elim (Bool-cases (is_off setting)) [
      | inl q ↦ rw q m
      | inr q ↦ rw q (
          matched (passing_files key_filter weight_map) (
            subst (λ t. mem_text t (passing_files key_filter weight_map) ≡ true) n
              (passing_files-mem key_filter k v weight_map e h)))
    ]
  where
    matched :
        (matching : List Text)
        → mem_text (basename f) matching ≡ true
        → mem_text f (keep_matching matching weight_map files) ≡ true
    matched [] p = m
    matched (x ∷ matching) p = keep-mem (x ∷ matching) _ files f m p
