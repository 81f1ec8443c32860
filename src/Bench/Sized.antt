-- ===== src/Bench/Sized.antt =====
-- The prompts that `real_prompt` of bench/prefill.py draws and sizes.
use qwen38_flash_next_sglang.Prelude.{
  ℕ, suc, ◌+◌, ◌-◌, ◌*◌, ◌/◌, ◌≤◌, ◌≡◌, refl, sym, ap, ◌∙◌, inl, inr, true, Option, none, some,
  List, [], ◌∷◌, ◌++◌, length, length-append, take, Text, codes, ltb, min, Bool-cases, arith,
  has_sub,
}
use mathlib.Core.Path.{subst}
use qwen38_flash_next_sglang.Prelude.Subs.{has_sub-append, has_sub-prepend}
use qwen38_flash_next_sglang.Json.{Result, ok}
use qwen38_flash_next_sglang.Json.Steps.{bind_ok, ok-inj}
use qwen38_flash_next_sglang.Bench.Haystack.{joined}
use qwen38_flash_next_sglang.Bench.Prompt.{
  draw, docs_or, next_docs, fact, question, build, bisect, or_raise, real_prompt,
}
use qwen38_flash_next_sglang.Bench.Bisect.{Found, halved, Range, bisect-Found}

joined-cons :
    (sep t : Text) (ts : List Text)
    → length t + length (joined sep ts) ≤ length (joined sep (t ∷ ts))
unfolding joined
joined-cons sep t [] = omega arith
joined-cons sep t (u ∷ us) =
    omega
      (arith, length-append t (sep ++ joined sep (u ∷ us)), length-append sep (joined sep (u ∷ us)))

draw-long :
    (sep : Text) (chars n : ℕ) (docs : List Text) (r : List Text × List Text)
    → draw chars n docs ≡ ok r
    → chars ≤ n + length (joined sep r.0)
unfolding draw joined
draw-long sep chars n [] r = elim (Bool-cases (ltb n chars)) [
  | inl p ↦ rw p (λ h. cc)
  | inr p ↦ rw p (λ h. ground arith)
]
draw-long sep chars n (doc ∷ docs) r = elim (Bool-cases (ltb n chars)) [
  | inl p ↦ rw p (λ h.
      let (rest, later, e) = bind_ok (draw chars (n + length (take (chars - n) doc)) docs) _ h in
      subst (λ s. chars ≤ n + length (joined sep s.0)) (ok-inj e)
        (omega (
          arith,
          draw-long sep chars (n + length (take (chars - n) doc)) docs rest later,
          joined-cons sep (take (chars - n) doc) rest.0,
        )))
  | inr p ↦ rw p (λ h. ground arith)
]

next_docs-long :
    (loaded : List Text) (chars : ℕ) (docs : List Text) (r : Text × List Text)
    → next_docs loaded chars docs ≡ ok r
    → chars ≤ length r.0
unfolding next_docs
next_docs-long loaded chars docs r h =
    let (drawn, there, e) = bind_ok (draw chars 0 (docs_or loaded docs)) _ h in
    subst (λ s. chars ≤ length s.0) (ok-inj e)
      (omega (arith, draw-long (codes "\n\n") chars 0 (docs_or loaded docs) drawn there))

fact_has : has_sub (codes "7K-QUARTZ-19") fact ≡ true
fact_has = refl

build-has :
    (salt first second : Text) (chars : ℕ)
    → has_sub (codes "7K-QUARTZ-19") (build salt first second chars) ≡ true
unfolding build
build-has salt first second chars =
    let last = take (chars - chars / 2) second ++ question in
    has_sub-prepend (codes "7K-QUARTZ-19") (codes "Session marker " ++ (salt ++ codes ".\n\n"))
      (take (chars / 2) first ++ (fact ++ last))
      (has_sub-prepend (codes "7K-QUARTZ-19") (take (chars / 2) first) (fact ++ last)
        (has_sub-append (codes "7K-QUARTZ-19") fact last fact_has))

or_raise-ok :
    (count : Text → Result ℕ) (best : Option Text) (docs : List Text) (made : Text × List Text)
    → or_raise count best docs ≡ ok made
    → (best ≡ some made.0) × (docs ≡ made.1)
or_raise-ok count none docs made h = cc
or_raise-ok count (some content) docs made h =
    (ap some (ap (λ m. m.0) (ok-inj h)), ap (λ m. m.1) (ok-inj h))

-- Of the texts cut from two draws of documents, the prompt that the bisection found.
pub record Sized (count : Text → Result ℕ) (loaded : List Text) (target : ℕ) (salt : Text)
    (docs : List Text) (made : Text × List Text) : Type 0 where
  pub first : Text × List Text
  pub second : Text × List Text
  pub drawn : next_docs loaded ((target - 120) * 3) docs ≡ ok first
  pub drawn_after : next_docs loaded ((target - 120) * 3) first.1 ≡ ok second
  pub left : second.1 ≡ made.1
  pub found :
      Found count
        (build salt first.0 second.0)
        (target - 120)
        (min (length first.0) (length second.0) * 2)
        ((min (length first.0) (length second.0) * 2 - 999) / 16384 + 1)
        made.0
  pub has_fact : has_sub (codes "7K-QUARTZ-19") made.0 ≡ true

-- A prompt that bench/prefill.py makes of real documents, for a target of 1000 tokens or more, is one of
-- the texts that are cut from the two draws of documents, and holds the code. It is counted at no more
-- than the target less 120 tokens, and at no less than 98 % of that, or is, up to one part in 16384 of
-- the range of lengths and one character, as long as the next text that is counted at more or as the
-- longest text there is. The documents that are left are those that the second draw left.
pub real_prompt-Sized :
    (count : Text → Result ℕ) (loaded : List Text) (target : ℕ) (salt : Text) (docs : List Text)
    (made : Text × List Text)
    → 1000 ≤ target
    → real_prompt count loaded target salt docs ≡ ok made
    → Sized count loaded target salt docs made
unfolding real_prompt
real_prompt-Sized count loaded target salt docs made large h =
    let (first, e1, h1) = bind_ok (next_docs loaded ((target - 120) * 3) docs) _ h in
    let (second, e2, h2) = bind_ok (next_docs loaded ((target - 120) * 3) first.1) _ h1 in
    let top = min (length first.0) (length second.0) * 2 in
    let (best, e3, h3) =
      bind_ok
        (bisect count (build salt first.0 second.0) (target - 120) 14 1000
          (min (length first.0) (length second.0) * 2) none)
        _ h2 in
    let (same, left) = or_raise-ok count best second.1 made h3 in
    let long = next_docs-long loaded ((target - 120) * 3) docs first e1 in
    let long_after = next_docs-long loaded ((target - 120) * 3) first.1 second e2 in
    let range : Range count (build salt first.0 second.0) (target - 120)
        (min (length first.0) (length second.0) * 2) 1000
        (min (length first.0) (length second.0) * 2) none =
      record {
        over = inl refl;
        fitting = λ content e. cc;
        ordered = inl (omega (arith, large, long, long_after));
        positive = omega arith;
      } in
    let found =
      bisect-Found count (build salt first.0 second.0) (target - 120)
        (min (length first.0) (length second.0) * 2) 14 1000
        (min (length first.0) (length second.0) * 2) none made.0 range (e3 ∙ ap ok same) in
    let gap : halved 14 (suc (min (length first.0) (length second.0) * 2) - 1000)
        ≡ (min (length first.0) (length second.0) * 2 - 999) / 16384 =
      omega arith in
    record {
      first = first;
      second = second;
      drawn = e1;
      drawn_after = e2;
      left = left;
      found =
          subst
            (λ g.
              Found count (build salt first.0 second.0) (target - 120)
                (min (length first.0) (length second.0) * 2) (g + 1) made.0)
            gap found;
      has_fact =
          subst (λ t. has_sub (codes "7K-QUARTZ-19") t ≡ true) (sym found.made)
            (build-has salt first.0 second.0 found.chars);
    }
