-- ===== src/Bench/Longctx.antt =====
-- bench/longctx.py. `ask n content` is the reply of `chat` to the request `n` of the run, of one user's
-- message; the options of the requests are fixed.
use qwen38_flash_next_sglang.Prelude.{
  ℕ, suc, ◌+◌, Bool, Option, none, some, split_on, List, [], ◌∷◌, ◌++◌, Text, codes, ◌==◌,
  if◌then◌else◌,
}
use qwen38_flash_next_sglang.Prelude.Int.{ℤ, pos}
use qwen38_flash_next_sglang.Json.{Value, bool, num, str, obj, end, field, Result, ok, ◌>>=◌}
use qwen38_flash_next_sglang.Json.Objects.{int}
use qwen38_flash_next_sglang.Client.Calls.{ChatReply}
use qwen38_flash_next_sglang.Bench.{Grading, graded, has_code}
use qwen38_flash_next_sglang.Bench.Quality.{both_of}
use qwen38_flash_next_sglang.Bench.Haystack.{longctx_haystack}
use qwen38_flash_next_sglang.Bench.Sizes.{parts_of, tokens_of}

pub record Row : Type 0 where
  pub size : Text
  pub target_tokens : ℕ
  pub needle_pass : Bool
  pub first_s : ℕ
  pub second_s : ℕ
  pub speedup : ℤ
  pub prompt_tokens : Value
  pub answer : Value

unfoldable pub row_value : Row → Value
row_value r = obj (
    field (codes "size") (str r.size) (
      field (codes "target_tokens") (int r.target_tokens) (
        field (codes "needle_pass") (bool r.needle_pass) (
          field (codes "first_s") (num (pos r.first_s)) (
            field (codes "second_s") (num (pos r.second_s)) (
              field (codes "speedup") (num r.speedup) (
                field (codes "prompt_tokens") r.prompt_tokens
                  (field (codes "answer") r.answer end))))))))

abbrev pub row_grading : Grading Row
row_grading = record { value = row_value; passed = λ r. r.needle_pass }

abbrev pub question : Text
question = codes "\n\nQuestion: What is the NIGHTINGALE access code? Reply with the code only."

-- `ratio a b` is `round(a / b, 2)`.
module _ (ask : ℕ → Text → Result ChatReply) (ratio : ℕ → ℕ → ℤ) where
  abbrev pub speedup_of : ℕ → ℕ → ℤ
  speedup_of first second = if second == 0 then pos 0 else ratio first second

  unfoldable pub needle_and_cache : ℕ → Text → ℕ → Result Row
  unfolding longctx_haystack has_code
  needle_and_cache n label tokens = do
    r1 ← ask n (longctx_haystack tokens ++ question)
    text ← both_of r1
    r2 ← ask (suc n) (longctx_haystack tokens ++ question)
    ok (record {
      size = label;
      target_tokens = tokens;
      needle_pass = has_code text;
      first_s = r1.seconds;
      second_s = r2.seconds;
      speedup = speedup_of r1.seconds r2.seconds;
      prompt_tokens = r1.prompt_tokens;
      answer = r1.content;
    })

  abbrev pub with_row : Row → Option (List Row) → Option (List Row)
  with_row r none = none
  with_row r (some rows) = some (r ∷ rows)

  abbrev pub row_or_stop :
      ℕ → Text → Option ℕ → Result (Option (List Row)) → Result (Option (List Row))
  row_or_stop n part none later = ok none
  row_or_stop n part (some tokens) later = do
    r ← needle_and_cache n part tokens
    rest ← later
    ok (with_row r rest)

  -- The rows of the parts, or `none` from an unknown size on
  unfoldable pub rows_of : ℕ → List Text → Result (Option (List Row))
  unfolding needle_and_cache tokens_of
  rows_of n [] = ok (some [])
  rows_of n (part ∷ parts) = row_or_stop n part (tokens_of part) (rows_of (n + 2) parts)

  -- The report, if one is written, and the exit code
  abbrev pub report_or_stop : Option (List Row) → Option Value × ℕ
  report_or_stop none = (none, 1)
  report_or_stop (some rows) = let made = graded row_grading rows end in (some made.0, made.1)

  unfoldable pub longctx_main : Text → Result (Option Value × ℕ)
  unfolding rows_of split_on parts_of graded
  longctx_main sizes = do rows ← rows_of 0 (parts_of (split_on 44 sizes)); ok (report_or_stop rows)
