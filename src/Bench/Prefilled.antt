-- ===== src/Bench/Prefilled.antt =====
-- What a run of bench/prefill.py has done once it comes to its end, and what `validate` of
-- scripts/experiment.py makes of its report.
use qwen38_flash_next_sglang.Prelude.{
  ℕ, zero, suc, ◌+◌, ◌*◌, ◌<◌, ◌≡◌, ◌↔◌, refl, sym, ap, Bool, true, not, ◌&&◌, Option, none, some,
  split_on, List, [], map, all, length, Text, codes, ◌==◌, ltb, arith,
}
use mathlib.Core.Path.{subst}
use qwen38_flash_next_sglang.Prelude.Int.{ℤ, ltb_ℤ}
use qwen38_flash_next_sglang.Json.{
  Value, arr, end, field, Result, ok, get, find_field, exceeds, is_true, null, whole,
}
use qwen38_flash_next_sglang.Json.Objects.{items}
use qwen38_flash_next_sglang.Json.Steps.{bind_ok, ok-inj}
use qwen38_flash_next_sglang.Client.Calls.{StreamReply}
use qwen38_flash_next_sglang.Experiment.{Suite}
use qwen38_flash_next_sglang.Experiment.Validate.{prefill_row, validate}
use qwen38_flash_next_sglang.Bench.{failures, code_of, report_with, graded}
use qwen38_flash_next_sglang.Bench.Accepted.{suite_iff}
use qwen38_flash_next_sglang.Bench.Sizes.{parts_of}
use qwen38_flash_next_sglang.Bench.Prefill.{
  Row, Group, Numbers, row_value, row_grading, group_value, sizes_of, all_rows, all_failed,
  groups_of, report_of, run_if, prefill_main,
}
use qwen38_flash_next_sglang.Bench.Groups.{length-sizes_of, groups_of-Counted}

-- A row with a time and tokens
abbrev pub is_timed : Numbers → Row → Bool
is_timed n r = ltb 0 (n.round3 r.reply.ttft_s) && ltb_ℤ (whole 0) r.reply.prompt_tokens

abbrev pub all_timed : Numbers → List Row → Bool
all_timed n rows = all (is_timed n) rows

-- The report and the exit code that were returned
abbrev pub value_or_null : Option Value → Value
value_or_null none = null
value_or_null (some v) = v

abbrev pub written : Option Value × ℕ → Value × ℕ
written m = (value_or_null m.0, m.1)

some_rows : (n k rows : ℕ) → rows ≡ n * (k + 1) → ((0 < rows) → 0 < n) × ((0 < n) → 0 < rows)
some_rows zero k rows h = (λ a. omega (arith, a, h), λ a. omega (arith, a))
some_rows (suc n) k rows h = (λ a. omega arith, λ a. omega (arith, h))

good_iff :
    (n : Numbers) (r : Row)
    → (prefill_row (row_value n r) ≡ ok true) ↔ (r.needle_pass && is_timed n r ≡ true)
unfolding prefill_row row_value get find_field exceeds is_true
good_iff n r = (λ h. ground (arith, h), λ h. ground (arith, h))

module _ (ask : ℕ → Value → Result StreamReply) (count : Text → Result ℕ) (loaded : List Text)
    (numbers : Numbers) (pid repeats : ℕ) (real : Bool) where
  pub report_iff :
      (groups : List Group) (float_text : Text → Option ℤ)
      → all_failed groups ≡ failures (λ x. x.needle_pass) (all_rows groups)
      → (validate float_text Suite.prefill
            (report_of ask count loaded numbers pid repeats real groups).0
          ≡ ok true)
        ↔ (((report_of ask count loaded numbers pid repeats real groups).1 == 0)
              && (not (length (all_rows groups) == 0) && all (is_timed numbers) (all_rows groups))
            ≡ true)
  unfolding report_of graded
  report_iff groups float_text e =
      let more = field (codes "groups") (arr (items (map (group_value numbers) groups))) end in
      subst
        (λ n.
          (validate float_text Suite.prefill
              (report_with (map (row_value numbers) (all_rows groups)) n more)
            ≡ ok true)
          ↔ ((code_of n == 0)
                && (not (length (all_rows groups) == 0) && all (is_timed numbers) (all_rows groups))
              ≡ true))
        (sym e)
        (suite_iff (row_grading numbers) prefill_row (is_timed numbers) (good_iff numbers)
          Suite.prefill float_text refl (all_rows groups) more)

  -- A run that wrote a report: its sizes, their groups, and when the report is accepted
  pub record Written (found : Option (List (Text × ℕ))) (docs : List Text) (n : ℕ) (report : Value)
      (code : ℕ) (float_text : Text → Option ℤ) : Type 0 where
    pub sizes : List (Text × ℕ)
    pub known : found ≡ some sizes
    pub groups : List Group
    pub ran : groups_of ask count loaded numbers pid repeats real 0 sizes docs ≡ ok groups
    pub rowed : length (all_rows groups) ≡ n * (repeats + 1)
    pub accepted :
        (validate float_text Suite.prefill report ≡ ok true)
        ↔ ((code ≡ 0) × (0 < n) × (all_timed numbers (all_rows groups) ≡ true))

  run_if-Written :
      (found : Option (List (Text × ℕ))) (docs : List Text) (report : Value) (code n : ℕ)
      (float_text : Text → Option ℤ)
      → ((sizes : List (Text × ℕ)) → found ≡ some sizes → length sizes ≡ n)
      → run_if ask count loaded numbers pid repeats real found docs ≡ ok (some report, code)
      → Written found docs n report code float_text
  run_if-Written none docs report code n float_text size h = cc (ap (λ m. m.0) (ok-inj h))
  run_if-Written (some sizes) docs report code n float_text size h =
      let (groups, e, h1) =
        bind_ok (groups_of ask count loaded numbers pid repeats real 0 sizes docs) _ h in
      let (rowed, counted) =
        groups_of-Counted ask count loaded numbers pid repeats real 0 sizes docs groups e in
      let both = report_iff groups float_text counted in
      let times =
        subst (λ k. length (all_rows groups) ≡ k * (repeats + 1)) (size sizes refl) rowed in
      let filled = some_rows n repeats (length (all_rows groups)) times in
      record {
        sizes = sizes;
        known = refl;
        groups = groups;
        ran = e;
        rowed = times;
        accepted =
            subst
              (λ made.
                (validate float_text Suite.prefill made.0 ≡ ok true)
                ↔ ((made.1 ≡ 0) × (0 < n) × (all_timed numbers (all_rows groups) ≡ true)))
              (ap written (ok-inj h1))
              (λ a. ground (arith, both.0 a, filled.0), λ b. both.1 (ground (arith, b, filled.1)));
      }

-- If `main` of bench/prefill.py comes to its end and writes a report, then every size of `SIZES` is
-- known, and its groups have one row for each repeat and one more for each size. `validate` accepts the
-- report exactly if the exit code is 0, `SIZES` names a size, and each of the rows has a time to the
-- first token, as rounded, and prompt tokens above 0.
pub prefill_main-Accepted :
    (ask : ℕ → Value → Result StreamReply) (count : Text → Result ℕ) (loaded : List Text)
    (numbers : Numbers) (pid repeats : ℕ) (real : Bool) (sizes : Text) (report : Value) (code : ℕ)
    (float_text : Text → Option ℤ)
    → prefill_main ask count loaded numbers pid repeats real sizes ≡ ok (some report, code)
    → Written ask count loaded numbers pid repeats real
        (sizes_of (parts_of (split_on 44 sizes)))
        []
        (length (parts_of (split_on 44 sizes)))
        report
        code
        float_text
unfolding prefill_main
prefill_main-Accepted ask count loaded numbers pid repeats real sizes report code float_text h =
    run_if-Written ask count loaded numbers pid repeats real
      (sizes_of (parts_of (split_on 44 sizes))) [] report code
      (length (parts_of (split_on 44 sizes))) float_text
      (λ found e. length-sizes_of (parts_of (split_on 44 sizes)) found e) h
