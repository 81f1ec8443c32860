-- ===== src/Bench/Diverges.antt =====
-- What `first_divergence` of bench/effort_probe.py finds, and what `validate` makes of its report.
use qwen38_flash_next_sglang.Prelude.{
  ℕ, zero, suc, ◌+◌, ◌<◌, ◌≡◌, ◌≢◌, ◌↔◌, refl, sym, ap, ◌∙◌, inl, inr, Bool, true, Option, none,
  some, List, [], ◌∷◌, length, take, get_elem?, Text, ◌==◌, Bool-cases, arith,
}
use mathlib.Core.Path.{subst}
use mathlib.Core.Option.{some-injective}
use qwen38_flash_next_sglang.Prelude.Int.{ℤ}
use qwen38_flash_next_sglang.Json.{
  Value, Result, ok, item, get, find_field, exceeds, equals, or_else,
}
use qwen38_flash_next_sglang.Json.Steps.{bind_ok, ok-inj}
use qwen38_flash_next_sglang.Client.Calls.{ChatReply}
use qwen38_flash_next_sglang.Client.Events.{empty_text}
use qwen38_flash_next_sglang.Bench.Quality.{text_of}
use qwen38_flash_next_sglang.Experiment.{Suite}
use qwen38_flash_next_sglang.Experiment.Validate.{probe_passes, validate}
use qwen38_flash_next_sglang.Bench.Soaked.{size_items}
use qwen38_flash_next_sglang.Bench.Effort.{
  Row, differing, or_length, first_divergence, row_value, repeats, effort_report, effort_main,
}

-- The lists agree up to an index, and have not the same there.
pub record Diverges (a b : List ℕ) (i : ℕ) : Type 0 where
  pub agree : take i a ≡ take i b
  pub differ : get_elem? a i ≢ get_elem? b i

Diverges-cons :
    (x y : ℕ) (a b : List ℕ) (i : ℕ) → x ≡ y → Diverges a b i → Diverges (x ∷ a) (y ∷ b) (suc i)
Diverges-cons x y a b i e d = record {
  agree = ap (λ z. z ∷ take i a) e ∙ ap (λ t. y ∷ t) d.agree;
  differ = d.differ;
}

-- What an answer tells of two lists whose elements are counted from `n`
abbrev TellsFrom : ℕ → List ℕ → List ℕ → Option ℕ → Type 0
TellsFrom n a b none = a ≡ b
TellsFrom n a b (some k) = (i : ℕ) × (k ≡ n + i) × Diverges a b i

TellsFrom-cons :
    (n x y : ℕ) (a b : List ℕ) (r : Option ℕ)
    → x ≡ y
    → TellsFrom (suc n) a b r
    → TellsFrom n (x ∷ a) (y ∷ b) r
TellsFrom-cons n x y a b none e t = ap (λ z. z ∷ a) e ∙ ap (λ l. y ∷ l) t
TellsFrom-cons n x y a b (some k) e t =
    let (i, f, d) = t in (suc i, omega (arith, f), Diverges-cons x y a b i e d)

divergence_from :
    (a b : List ℕ) (n p q : ℕ)
    → p ≡ n + length a
    → q ≡ n + length b
    → TellsFrom n a b (or_length (differing n a b) p q)
divergence_from [] [] n p q e f = elim (Bool-cases (p == q)) [
  | inl h ↦ rw h refl
  | inr h ↦ absurd (ground (arith, h, e, f))
]
divergence_from [] (y ∷ b) n p q e f = elim (Bool-cases (p == q)) [
  | inl h ↦ absurd (ground (arith, h, e, f))
  | inr h ↦ rw h (0, omega (arith, e, f), record { agree = refl; differ = λ g. cc })
]
divergence_from (x ∷ a) [] n p q e f = elim (Bool-cases (p == q)) [
  | inl h ↦ absurd (ground (arith, h, e, f))
  | inr h ↦ rw h (0, omega (arith, e, f), record { agree = refl; differ = λ g. cc })
]
divergence_from (x ∷ a) (y ∷ b) n p q e f = elim (Bool-cases (x == y)) [
  | inl h ↦ rw h (
      TellsFrom-cons n x y a b (or_length (differing (suc n) a b) p q) (ground arith)
        (divergence_from a b (suc n) p q (omega (arith, e)) (omega (arith, f))))
  | inr h ↦ rw h (
    0,
    omega arith,
    record { agree = refl; differ = λ g. absurd (ground (arith, h, some-injective x y g)) },
  )
]

abbrev pub Tells : List ℕ → List ℕ → Option ℕ → Type 0
Tells a b none = a ≡ b
Tells a b (some i) = Diverges a b i

told : (a b : List ℕ) (r : Option ℕ) → TellsFrom 0 a b r → Tells a b r
told a b none t = t
told a b (some k) t = let (i, e, d) = t in subst (Diverges a b) (omega (arith, e)) d

-- `first_divergence` of bench/effort_probe.py gives none only if the two lists are the same, and
-- otherwise an index up to which they agree and where they do not have the same.
pub first_divergence-Tells : (a b : List ℕ) → Tells a b (first_divergence a b)
unfolding first_divergence
first_divergence-Tells a b =
    told a b (first_divergence a b)
      (divergence_from a b 0 (length a) (length b) (omega arith) (omega arith))

length-repeats :
    (ask : ℕ → Result ChatReply) (thinking : Bool) (left i : ℕ) (rows : List Row)
    → repeats ask thinking left i ≡ ok rows
    → length rows ≡ left
unfolding repeats
length-repeats ask thinking zero i rows h = ap length (sym (ok-inj h))
length-repeats ask thinking (suc left) i rows h =
    let (r, _r, h1) = bind_ok (ask i) _ h in
    let (content, _c, h2) = bind_ok (text_of (or_else r.content empty_text)) _ h1 in
    let (rest, e, h3) = bind_ok (repeats ask thinking left (suc i)) _ h2 in
    ap length (sym (ok-inj h3)) ∙ ap suc (length-repeats ask thinking left (suc i) rest e)

report_iff :
    (ask : ℕ → Result ChatReply) (thinking : Bool) (n : ℕ) (rows : List Row)
    (float_text : Text → Option ℤ)
    → length rows ≡ n
    → (validate float_text Suite.effort_probe (effort_report ask thinking n rows) ≡ ok true)
      ↔ (0 < n)
unfolding validate probe_passes effort_report get find_field item exceeds equals
report_iff ask thinking n rows float_text e =
    rw (size_items row_value rows) (rw e (λ k. ground (arith, k), λ k. ground (arith, k)))

-- If `main` of bench/effort_probe.py, without cache modes, comes to its end, its exit code is 0, and
-- `validate` accepts the report that it wrote exactly if there was a repeat: no wrong answer fails it.
effort_main-Accepted :
    (ask : ℕ → Result ChatReply) (thinking : Bool) (n : ℕ) (made : Value × ℕ)
    (float_text : Text → Option ℤ)
    → effort_main ask thinking n ≡ ok made
    → ((validate float_text Suite.effort_probe made.0 ≡ ok true) ↔ (0 < n)) × (made.1 ≡ 0)
unfolding effort_main
effort_main-Accepted ask thinking n made float_text h =
    let (rows, e, h1) = bind_ok (repeats ask thinking n 0) _ h in
    subst (λ m. ((validate float_text Suite.effort_probe m.0 ≡ ok true) ↔ (0 < n)) × (m.1 ≡ 0))
      (ok-inj h1)
      (report_iff ask thinking n rows float_text (length-repeats ask thinking n 0 rows e), refl)
