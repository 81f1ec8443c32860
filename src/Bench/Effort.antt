-- ===== src/Bench/Effort.antt =====
-- `main` of bench/effort_probe.py without cache modes, and `first_divergence`. `ask i` is the reply of
-- `chat` to the request `i`.
use qwen38_flash_next_sglang.Prelude.{
  ℕ, zero, suc, ◌+◌, ◌-◌, Bool, Option, none, some, List, [], ◌∷◌, map, length, take, min, Text,
  codes, has_sub, strip, ◌==◌, ◌=ₜ◌, if◌then◌else◌,
}
use qwen38_flash_next_sglang.Prelude.Int.{pos}
use qwen38_flash_next_sglang.Json.{
  Value, bool, num, str, arr, obj, Fields, end, field, Result, ok, ◌>>=◌, or_else,
}
use qwen38_flash_next_sglang.Json.Objects.{int, items}
use qwen38_flash_next_sglang.Client.Events.{empty_text}
use qwen38_flash_next_sglang.Client.Calls.{ChatReply}
use qwen38_flash_next_sglang.Bench.Quality.{text_of}

-- The loop over the pairs, at the index `i`; `none` if none differ.
abbrev pub differing : ℕ → List ℕ → List ℕ → Option ℕ
differing i [] b = none
differing i (x ∷ a) [] = none
differing i (x ∷ a) (y ∷ b) = let later = differing (suc i) a b in if x == y then later else some i

abbrev pub or_length : Option ℕ → ℕ → ℕ → Option ℕ
or_length (some i) m n = some i
or_length none m n = if m == n then none else some (min m n)

unfoldable pub first_divergence : List ℕ → List ℕ → Option ℕ
first_divergence a b = or_length (differing 0 a b) (length a) (length b)

pub record Row : Type 0 where
  pub number : ℕ
  pub passed : Bool
  pub answer : Text
  pub completion_tokens : Value
  pub seconds : ℕ

unfoldable pub row_value : Row → Value
row_value r = obj (
    field (codes "i") (int r.number) (
      field (codes "pass") (bool r.passed) (
        field (codes "answer") (str r.answer) (
          field (codes "completion_tokens") r.completion_tokens
            (field (codes "seconds") (num (pos r.seconds)) end)))))

-- `collections.Counter`: an answer counts for its key, which is last if it is new
unfoldable pub count_answer : Text → List (Text × ℕ) → List (Text × ℕ)
count_answer t [] = (t, 1) ∷ []
count_answer t (c ∷ counts) =
    let later = count_answer t counts in if c.0 =ₜ t then (c.0, suc c.1) ∷ counts else c ∷ later

unfoldable pub answer_counts : List Row → List (Text × ℕ) → List (Text × ℕ)
unfolding count_answer
answer_counts [] counts = counts
answer_counts (r ∷ rs) counts = answer_counts rs (count_answer r.answer counts)

unfoldable pub count_fields : List (Text × ℕ) → Fields
count_fields [] = end
count_fields (c ∷ counts) = field c.0 (int c.1) (count_fields counts)

unfoldable pub passes : List Row → ℕ
passes [] = 0
passes (r ∷ rs) = (if r.passed then 1 else 0) + passes rs

module _ (ask : ℕ → Result ChatReply) (thinking : Bool) where
  -- The repeats from `i` on
  unfoldable pub repeats : ℕ → ℕ → Result (List Row)
  unfolding strip
  repeats zero i = ok []
  repeats (suc left) i = do
    r ← ask i
    content ← text_of (or_else r.content empty_text)
    rest ← repeats left (suc i)
    ok (
        record {
          number = i;
          passed = has_sub (codes "24") (strip content);
          answer = take 40 (strip content);
          completion_tokens = r.completion_tokens;
          seconds = r.seconds;
        }
        ∷ rest)

  unfoldable pub effort_report : ℕ → List Row → Value
  unfolding row_value passes answer_counts count_fields items
  effort_report n rows = obj (
      field (codes "results") (arr (items (map row_value rows))) (
        field (codes "summary")
          (obj (
            field (codes "n") (int n) (
              field (codes "thinking") (str (if thinking then codes "on" else codes "off")) (
                field (codes "expected") (str (codes "24")) (
                  field (codes "passed") (int (passes rows)) (
                    field (codes "answer_counts") (obj (count_fields (answer_counts rows [])))
                      end))))))
          (field (codes "failed") (int (n - passes rows)) end)))

  -- The report, and the exit code
  unfoldable pub effort_main : ℕ → Result (Value × ℕ)
  unfolding repeats effort_report
  effort_main n = do rows ← repeats n 0; ok (effort_report n rows, 0)
