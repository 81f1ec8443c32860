-- ===== src/Bench/Mixed.antt =====
-- The prompts that bench/mixedload.py sizes, and what `validate` of scripts/experiment.py makes of its
-- report.
use qwen38_flash_next_sglang.Prelude.{
  ℕ, zero, suc, ◌+◌, ◌<◌, ◌≤◌, ◌≡◌, ◌↔◌, refl, sym, ap, ◌∙◌, inl, inr, Bool, true, false, ◌&&◌,
  ◌||◌, Option, some, List, all, length, Text, codes, leb, ltb, Bool-cases, arith, has_sub,
}
use mathlib.Core.Path.{subst}
use qwen38_flash_next_sglang.Prelude.Subs.{has_sub-append}
use qwen38_flash_next_sglang.Json.{
  Value, end, Result, ok, get, find_field, exceeds, at_least, is_true,
}
use qwen38_flash_next_sglang.Prelude.Int.{ℤ}
use qwen38_flash_next_sglang.Json.Steps.{bind_ok, ok-inj}
use qwen38_flash_next_sglang.Client.Calls.{StreamReply}
use qwen38_flash_next_sglang.Experiment.{Suite}
use qwen38_flash_next_sglang.Experiment.Validate.{mixedload_row, validate}
use qwen38_flash_next_sglang.Bench.Accepted.{suite_iff}
use qwen38_flash_next_sglang.Bench.Prefilled.{written}
use qwen38_flash_next_sglang.Bench.Prompt.{question}
use qwen38_flash_next_sglang.Bench.Haystack.{prefill_haystack}
use qwen38_flash_next_sglang.Bench.Grown.{prefill_haystack_has_code}
use qwen38_flash_next_sglang.Bench.Mixedload.{
  Row, given_up, measured, Stream, row_ok, row_value, row_grading, apart, prompt_of, next_estimate,
  close_or, sized, run_one, runs, need_passed, all_runs, mixedload_main,
}

-- A text that is counted at the target, give or take 128 tokens
pub record Near (count : Text → Result ℕ) (target : ℕ) (content : Text) : Type 0 where
  pub tokens : ℕ
  pub counted : count content ≡ ok tokens
  pub above : target ≤ tokens + 128
  pub below : tokens ≤ target + 128
  pub has_fact : has_sub (codes "7K-QUARTZ-19") content ≡ true

module _ (count : Text → Result ℕ) (rescale : ℕ → ℕ → ℕ) (target : ℕ) (salt : Text) where
  close_or-Near :
      (estimate n : ℕ) (later : Result Text) (content : Text)
      → count (prompt_of count rescale target salt estimate) ≡ ok n
      → (later ≡ ok content → Near count target content)
      → close_or count rescale target salt n (prompt_of count rescale target salt estimate) later
        ≡ ok content
      → Near count target content
  close_or-Near estimate n later content e law = elim (Bool-cases (leb (apart n target) 128)) [
    | inl p ↦ rw p (λ h. subst (Near count target) (ok-inj h) (record {
      tokens = n;
      counted = e;
      above = ground arith;
      below = ground arith;
      has_fact =
          has_sub-append (codes "7K-QUARTZ-19") (prefill_haystack estimate salt) question
            (prefill_haystack_has_code estimate salt);
    }))
    | inr p ↦ rw p law
  ]

  sized-Near :
      (rounds estimate : ℕ) (content : Text)
      → sized count rescale target salt rounds estimate ≡ ok content
      → Near count target content
  unfolding sized
  sized-Near zero estimate content h = cc
  sized-Near (suc rounds) estimate content h =
      let (n, e, h1) = bind_ok (count (prompt_of count rescale target salt estimate)) _ h in
      close_or-Near estimate n _ content e
        (λ later.
          let (f, _f, h2) = bind_ok (next_estimate count rescale target salt estimate n) _ later in
          sized-Near rounds f content h2)
        h1

-- A row that was not given up has a time to the first token, as rounded, and beside it ran two streams
-- or more.
abbrev pub is_mixed : (ℕ → ℕ) → ℕ → Row → Bool
is_mixed round3 number (given_up i e) = true
is_mixed round3 number (measured i r needle streams gaps) = ltb 0 (round3 r.ttft_s) && leb 2 number

good_iff :
    (round3 : ℕ → ℕ) (number : ℕ) (r : Row)
    → (mixedload_row (row_value round3 number r) ≡ ok true)
      ↔ (row_ok r && is_mixed round3 number r ≡ true)
unfolding mixedload_row row_value row_ok get find_field exceeds at_least is_true
good_iff round3 number (given_up i e) = (λ h. ground (arith, h), λ h. ground (arith, h))
good_iff round3 number (measured i r needle streams gaps) =
    (λ h. ground (arith, h), λ h. ground (arith, h))

abbrev pub all_mixed : (ℕ → ℕ) → ℕ → List Row → Bool
all_mixed round3 number rows = all (is_mixed round3 number) rows

-- A prompt that bench/mixedload.py sizes is counted at the target, give or take 128 tokens, and holds
-- the code; no more than six are tried.
pub sized-Close :
    (count : Text → Result ℕ) (rescale : ℕ → ℕ → ℕ) (target : ℕ) (salt content : Text)
    → sized count rescale target salt 6 target ≡ ok content
    → Near count target content
sized-Close count rescale target salt content h =
    sized-Near count rescale target salt 6 target content h

length-runs :
    (count : Text → Result ℕ) (rescale : ℕ → ℕ → ℕ) (target : ℕ) (salt : ℕ → Text)
    (streams : ℕ → Text → List Stream) (ask : ℕ → Text → Result StreamReply) (start : ℕ → ℕ)
    (left i : ℕ) (rows : List Row)
    → runs count rescale target salt streams ask start left i ≡ ok rows
    → length rows ≡ left
unfolding runs
length-runs count rescale target salt streams ask start zero i rows h = ap length (sym (ok-inj h))
length-runs count rescale target salt streams ask start (suc left) i rows h =
    let (r, _r, h1) = bind_ok (run_one count rescale target salt streams ask start i) _ h in
    let (rest, e, h2) =
      bind_ok (runs count rescale target salt streams ask start left (suc i)) _ h1 in
    ap length (sym (ok-inj h2))
    ∙ ap suc (length-runs count rescale target salt streams ask start left (suc i) rest e)

need_passed-ok :
    (count : Text → Result ℕ) (rescale : ℕ → ℕ → ℕ) (target : ℕ) (salt : ℕ → Text)
    (streams : ℕ → Text → List Stream) (ask : ℕ → Text → Result StreamReply) (start : ℕ → ℕ)
    (passed b : Bool)
    → need_passed count rescale target salt streams ask start passed ≡ ok b
    → passed ≡ true
need_passed-ok count rescale target salt streams ask start true b h = refl
need_passed-ok count rescale target salt streams ask start false b h = cc

-- A run that wrote a report: the warm-up passed, and when the report of the runs after it is accepted.
pub record Written (count : Text → Result ℕ) (rescale : ℕ → ℕ → ℕ) (target : ℕ) (salt : ℕ → Text)
    (streams : ℕ → Text → List Stream) (ask : ℕ → Text → Result StreamReply) (start : ℕ → ℕ)
    (round3 : ℕ → ℕ) (number repeats : ℕ) (report : Value) (code : ℕ) (float_text : Text → Option ℤ)
    : Type 0 where
  pub warm : Row
  pub warmed : run_one count rescale target salt streams ask start 0 ≡ ok warm
  pub warm_ok : row_ok warm ≡ true
  pub rows : List Row
  pub ran : runs count rescale target salt streams ask start repeats 1 ≡ ok rows
  pub accepted :
      (validate float_text Suite.mixedload report ≡ ok true)
      ↔ ((code ≡ 0) × (0 < repeats) × (all_mixed round3 number rows ≡ true))

all_runs-Written :
    (count : Text → Result ℕ) (rescale : ℕ → ℕ → ℕ) (target : ℕ) (salt : ℕ → Text)
    (streams : ℕ → Text → List Stream) (ask : ℕ → Text → Result StreamReply) (start : ℕ → ℕ)
    (round3 : ℕ → ℕ) (number repeats : ℕ) (report : Value) (code : ℕ) (float_text : Text → Option ℤ)
    → all_runs count rescale target salt streams ask start round3 number repeats
      ≡ ok (some report, code)
    → Written count rescale target salt streams ask start round3 number repeats report code
        float_text
all_runs-Written count rescale target salt streams ask start round3 number repeats report code
      float_text h =
    let (warm, e, h1) = bind_ok (run_one count rescale target salt streams ask start 0) _ h in
    let (passed, f, h2) =
      bind_ok (need_passed count rescale target salt streams ask start (row_ok warm)) _ h1 in
    let (rows, g, h3) = bind_ok (runs count rescale target salt streams ask start repeats 1) _ h2 in
    let size = length-runs count rescale target salt streams ask start repeats 1 rows g in
    let both =
      suite_iff (row_grading round3 number) mixedload_row (is_mixed round3 number)
        (good_iff round3 number) Suite.mixedload float_text refl rows end in
    record {
      warm = warm;
      warmed = e;
      warm_ok = need_passed-ok count rescale target salt streams ask start (row_ok warm) passed f;
      rows = rows;
      ran = g;
      accepted =
          subst
            (λ made.
              (validate float_text Suite.mixedload made.0 ≡ ok true)
              ↔ ((made.1 ≡ 0) × (0 < repeats) × (all_mixed round3 number rows ≡ true)))
            (ap written (ok-inj h3))
            (λ a. ground (arith, both.0 a, size), λ b. both.1 (ground (arith, b, size)));
    }

-- If `main` of bench/mixedload.py comes to its end and writes a report, then its warm-up passed.
-- `validate` accepts the report exactly if the exit code is 0, there was a repeat, and each repeat that
-- was not given up has a time to the first token above 0, as rounded, with two streams or more beside it.
pub mixedload_main-Accepted :
    (count : Text → Result ℕ) (rescale : ℕ → ℕ → ℕ) (target : ℕ) (salt : ℕ → Text)
    (streams : ℕ → Text → List Stream) (ask : ℕ → Text → Result StreamReply) (start : ℕ → ℕ)
    (round3 : ℕ → ℕ) (number repeats : ℕ) (report : Value) (code : ℕ) (float_text : Text → Option ℤ)
    → mixedload_main count rescale target salt streams ask start round3 number repeats
      ≡ ok (some report, code)
    → Written count rescale target salt streams ask start round3 number repeats report code
        float_text
unfolding mixedload_main
mixedload_main-Accepted count rescale target salt streams ask start round3 number repeats report
      code float_text =
    elim (Bool-cases (ltb number 1 || ltb target 1000)) [
      | inl p ↦ rw p (λ h. cc (ap (λ m. m.0) (ok-inj h)))
      | inr p ↦ rw p (
          all_runs-Written count rescale target salt streams ask start round3 number repeats report
            code float_text)
    ]
