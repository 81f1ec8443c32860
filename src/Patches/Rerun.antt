-- ===== src/Patches/Rerun.antt =====
-- The scripts run again on what they wrote.
use qwen38_flash_next_sglang.Prelude.{
  ◌≡◌, refl, sym, true, Option, none, some, List, [], ◌∷◌, Text, codes, has_sub,
}
use mathlib.Core.Path.{subst}
use mathlib.Core.Option.{some-injective}
use qwen38_flash_next_sglang.Prelude.Subs.{has_sub-empty, has_sub-append, has_sub-prepend}
use qwen38_flash_next_sglang.Patches.{
  Edit, Outcome, already_patched, patched, replace_once, replace_all_once, with_text,
  written_or_refused,
}
use qwen38_flash_next_sglang.Patches.Splice.{
  Spliced, replace_once-Spliced, patched-inj, else-patched, then-patched,
}
use qwen38_flash_next_sglang.Patches.Scripts.{
  file_compat_main, trtllm_main, pread_main, presharded_main, mtp_main, file_compat_edit,
  trtllm_edit, pread_edits, presharded_edits, mtp_edit,
}

-- A text with a marker is still in the file after the replacement that brings it.
Spliced-marker :
    (m : Text) (e : Edit) (src out : Text)
    → has_sub m e.new ≡ true
    → Spliced e src out
    → has_sub m out ≡ true
Spliced-marker m e src out h s =
    subst (λ t. has_sub m t ≡ true) (sym s.to)
      (has_sub-prepend m s.before _ (has_sub-append m e.new s.after h))

-- The last edit of a script.
abbrev last_new : Edit → List Edit → Text
last_new e [] = e.new
last_new e (f ∷ es) = last_new f es

with_text-inv :
    (o : Option Text) (f : Text → Option Text) (out : Text)
    → with_text o f ≡ some out
    → (t : Text) × (o ≡ some t) × (f t ≡ some out)
with_text-inv none f out h = cc
with_text-inv (some t) f out h = (t, refl, h)

replace_all_once-marker :
    (m : Text) (e : Edit) (es : List Edit) (src out : Text)
    → has_sub m (last_new e es) ≡ true
    → replace_all_once (e ∷ es) src ≡ some out
    → has_sub m out ≡ true
unfolding replace_all_once
replace_all_once-marker m e [] src out h r =
    let s = with_text-inv (replace_once e src) _ out r in
    let done = replace_once-Spliced e src s.0 s.1 in
    subst (λ t. has_sub m t ≡ true) (some-injective s.0 out s.2) (Spliced-marker m e src s.0 h done)
replace_all_once-marker m e (f ∷ es) src out h r =
    let s = with_text-inv (replace_once e src) _ out r in
    replace_all_once-marker m f es s.0 out h s.2

abbrev last_of : List Edit → Text
last_of [] = []
last_of (e ∷ es) = last_new e es

edits-marker :
    (m : Text) (es : List Edit) (src out : Text)
    → has_sub m (last_of es) ≡ true
    → replace_all_once es src ≡ some out
    → has_sub m out ≡ true
edits-marker m [] src out h r = has_sub-empty m out h
edits-marker m (e ∷ es) src out h r = replace_all_once-marker m e es src out h r

-- The scripts that know their edit by a text it brings.
pub data Marked : Type 0 where
  file_compat trtllm pread presharded mtp : Marked

abbrev pub main : Marked → Text → Outcome
main file_compat = file_compat_main
main trtllm = trtllm_main
main pread = pread_main
main presharded = presharded_main
main mtp = mtp_main

once-marker :
    (m : Text) (e : Edit) (src out : Text)
    → has_sub m e.new ≡ true
    → written_or_refused (replace_once e src) ≡ patched out
    → has_sub m out ≡ true
once-marker m e src out h p =
    Spliced-marker m e src out h (replace_once-Spliced e src out (patched-inj _ out p))

-- Each of the five scripts that know their edit by a text it brings (file_compat, trtllm, pread,
-- presharded and mtp), run again on the file that it wrote, finds its edit and leaves the file alone.
pub main_again :
    (s : Marked) (src out : Text) → main s src ≡ patched out → main s out ≡ already_patched
unfolding file_compat_main trtllm_main pread_main presharded_main mtp_main
main_again file_compat src out h =
    let p = then-patched _ _ out (else-patched _ _ out h) in
    rw (once-marker (codes "reusing recipe backing file") file_compat_edit src out refl p) refl
main_again trtllm src out h =
    let p = else-patched _ _ out h in
    rw
      (
        once-marker (codes "is_sm120_supported()") trtllm_edit src out refl p,
        once-marker (codes "consumer Blackwell") trtllm_edit src out refl p,
      )
      refl
main_again pread src out h =
    let p = else-patched _ _ out h in
    rw (edits-marker (codes "_read_pages") pread_edits src out refl (patched-inj _ out p)) refl
main_again presharded src out h =
    let p = else-patched _ _ out h in
    rw
      (edits-marker (codes "_is_ple_table_key") presharded_edits src out refl (patched-inj _ out p))
      refl
main_again mtp src out h =
    let p = else-patched _ _ out h in
    rw (once-marker (codes "checkpoint_key_filter") mtp_edit src out refl p) refl
