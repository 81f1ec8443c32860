-- ===== src/Patches/Splice.antt =====
-- What one replacement makes of a text.
use qwen38_flash_next_sglang.Prelude.{
  ℕ, ◌≡◌, ◌≢◌, refl, ap, inl, inr, Bool, true, false, ◌&&◌, Option, none, some, [], ◌∷◌, ◌++◌,
  length, drop, Text, starts_with, ◌==◌, ==_iff, if◌then◌else◌, Bool-cases, arith,
}
use mathlib.Core.Option.{some-injective}
use mathlib.Core.Path.{subst}
use qwen38_flash_next_sglang.Patches.{
  count_from, count, replace_first, Edit, Outcome, patched, refused, already_patched, replace_once,
  written_or_refused,
}
use qwen38_flash_next_sglang.Patches.Scripts.{
  file_compat_main, trtllm_main, drop_sdpa_main, clamp_main, mtp_main, file_compat_edit,
  trtllm_edit, drop_sdpa_edit, clamp_edit, mtp_edit,
}

-- `out` is `src` with one occurrence of the old text replaced.
pub record Spliced (e : Edit) (src out : Text) : Type 0 where
  pub before : Text
  pub after : Text
  pub from : src ≡ before ++ (e.old ++ after)
  pub to : out ≡ before ++ (e.new ++ after)

starts_with-split : (t p : Text) → starts_with t p ≡ true → t ≡ p ++ drop (length p) t
starts_with-split t [] h = refl
starts_with-split [] (p ∷ ps) h = cc
starts_with-split (x ∷ xs) (p ∷ ps) h =
    let parts = split_and (x == p) (starts_with xs ps) h in
    cons_eq ((==_iff x p).0 parts.0) (starts_with-split xs ps parts.1)
  where
    split_and : (a b : Bool) → (a && b) ≡ true → (a ≡ true) × (b ≡ true)
    split_and a b h = ground arith

    cons_eq : {x p : ℕ} {xs ys : Text} → x ≡ p → xs ≡ ys → (x ∷ xs) ≡ (p ∷ ys)
    cons_eq e f = cc

replace_first-Spliced :
    (old new src : Text)
    → count old src ≢ 0
    → Spliced (record { old = old; new = new }) src (replace_first old new src)
unfolding count_from replace_first
replace_first-Spliced old new [] h = absurd (h refl)
replace_first-Spliced old new (x ∷ xs) h = elim (Bool-cases (starts_with (x ∷ xs) old)) [
  | inl p ↦ record {
    before = [];
    after = drop (length old) (x ∷ xs);
    from = starts_with-split (x ∷ xs) old p;
    to = rw p refl;
  }
  | inr p ↦
      (let ih = replace_first-Spliced old new xs (λ z. h (rw p z)) in
        record {
          before = x ∷ ih.before;
          after = ih.after;
          from = ap (◌∷◌ x) ih.from;
          to = rw p (ap (◌∷◌ x) ih.to);
        })
]

once-cases :
    (b : Bool) (t out : Text) → (if b then some t else none) ≡ some out → (b ≡ true) × (t ≡ out)
once-cases true t out h = (refl, some-injective t out h)
once-cases false t out h = cc

pub replace_once-Spliced :
    (e : Edit) (src out : Text) → replace_once e src ≡ some out → Spliced e src out
replace_once-Spliced e src out h =
    let c = once-cases (count e.old src == 1) _ out h in
    let one = (==_iff (count e.old src) 1).0 c.0 in
    subst (Spliced e src) c.1
      (replace_first-Spliced e.old e.new src (λ z. absurd (omega (arith, one, z))))

pub patched-inj : (o : Option Text) (out : Text) → written_or_refused o ≡ patched out → o ≡ some out
patched-inj none out h = cc
patched-inj (some t) out h = cc

-- The scripts that make one edit.
pub data Single : Type 0 where
  file_compat trtllm drop_sdpa clamp mtp : Single

abbrev pub main : Single → Text → Outcome
main file_compat = file_compat_main
main trtllm = trtllm_main
main drop_sdpa = drop_sdpa_main
main clamp = clamp_main
main mtp = mtp_main

abbrev pub edit_of : Single → Edit
edit_of file_compat = file_compat_edit
edit_of trtllm = trtllm_edit
edit_of drop_sdpa = drop_sdpa_edit
edit_of clamp = clamp_edit
edit_of mtp = mtp_edit

pub else-patched :
    (b : Bool) (o : Outcome) (out : Text)
    → (if b then already_patched else o) ≡ patched out
    → o ≡ patched out
else-patched true o out h = cc
else-patched false o out h = h

pub then-patched :
    (b : Bool) (o : Outcome) (out : Text)
    → (if b then o else refused) ≡ patched out
    → o ≡ patched out
then-patched true o out h = h
then-patched false o out h = cc

-- What a script with one edit writes is the file with one occurrence of the old text replaced by the
-- new one, and the rest as it was.
pub main-Spliced :
    (s : Single) (src out : Text) → main s src ≡ patched out → Spliced (edit_of s) src out
unfolding file_compat_main trtllm_main drop_sdpa_main clamp_main mtp_main
main-Spliced file_compat src out h =
    replace_once-Spliced file_compat_edit src out
      (patched-inj _ out (then-patched _ _ out (else-patched _ _ out h)))
main-Spliced trtllm src out h =
    replace_once-Spliced trtllm_edit src out (patched-inj _ out (else-patched _ _ out h))
main-Spliced drop_sdpa src out h =
    replace_once-Spliced drop_sdpa_edit src out (patched-inj _ out (else-patched _ _ out h))
main-Spliced clamp src out h =
    replace_once-Spliced clamp_edit src out (patched-inj _ out (else-patched _ _ out h))
main-Spliced mtp src out h =
    replace_once-Spliced mtp_edit src out (patched-inj _ out (else-patched _ _ out h))
