-- ===== src/Bench/Mixedload.antt =====
-- `run_one`, `tokens_per_chunk` and `main` of bench/mixedload.py. What the threads of the decode streams
-- come to is data; the rows of the streams, the medians and the rates are left out of the report.
use qwen38_flash_next_sglang.Prelude.{
  ℕ, zero, suc, ◌+◌, ◌-◌, Bool, false, not, ◌&&◌, ◌||◌, Option, none, some, List, [], ◌∷◌, ◌++◌,
  length, any, all, Text, codes, ◌==◌, leb, ltb, if◌then◌else◌,
}
use qwen38_flash_next_sglang.Prelude.Int.{ℤ, pos, ltb_ℤ}
use qwen38_flash_next_sglang.Json.{
  Value, null, bool, num, str, obj, end, field, Result, ok, err, value_error, runtime_error, ◌>>=◌,
  whole,
}
use qwen38_flash_next_sglang.Json.Objects.{int}
use qwen38_flash_next_sglang.Client.Calls.{StreamReply}
use qwen38_flash_next_sglang.Bench.{Grading, graded}
use qwen38_flash_next_sglang.Bench.Haystack.{prefill_haystack}
use qwen38_flash_next_sglang.Bench.Prompt.{question}
use qwen38_flash_next_sglang.Bench.Prefill.{hit_of}
use qwen38_flash_next_sglang.Bench.Times.{percentile, gaps_in_window}

-- A decode stream: whether its first event came in time, the error and whether it was done by then,
-- and what it came to in the end.
pub record Stream : Type 0 where
  pub first_in_time : Bool
  pub first_error : Option Text
  pub done_early : Bool
  pub chunks : List ℕ
  pub result : Option StreamReply
  pub error : Option Text

-- A row: of a run that was given up, or of one with its prefill. Both have the number of the run, where
-- the warm-up is 0 and the repeat `i` is `i + 1`.
pub data Row : Type 0 where
  given_up : ℕ → Text → Row
  measured : ℕ → StreamReply → Bool → List Stream → List ℕ → Row

-- `ct / n_chunks`, as a quotient
abbrev quotient : ℤ → ℕ → Option (ℤ × ℕ)
quotient ct n = if (n == 0) || not (ltb_ℤ (whole 0) ct) then none else some (ct, n)

unfoldable pub tokens_per_chunk : Option StreamReply → Option (ℤ × ℕ)
tokens_per_chunk none = none
tokens_per_chunk (some r) = quotient r.completion_tokens (length r.chunks)

-- No error, and a result with tokens
abbrev pub has_decoded : Option Text → Option StreamReply → Bool
has_decoded none (some r) = ltb_ℤ (whole 0) r.completion_tokens
has_decoded error result = false

unfoldable pub decode_ok : List Stream → Bool
decode_ok streams = all (λ s. has_decoded s.error s.result) streams

-- The error that the first waits give, in the order of the streams
abbrev pub wait_error : Stream → Option Text → Option Text
wait_error s later =
    if s.first_in_time
    then elim s.first_error [ none ↦ later | some e ↦ some e ]
    else some (codes "decode TTFT timeout")

unfoldable pub waits : List Stream → Option Text
waits [] = none
waits (s ∷ streams) = wait_error s (waits streams)

unfoldable pub all_gaps : List Stream → ℕ → ℕ → List ℕ
unfolding gaps_in_window
all_gaps [] start until = []
all_gaps (s ∷ streams) start until =
    gaps_in_window s.chunks start until ++ all_gaps streams start until

-- `row["ok"]`, and `row.get("ok")`
unfoldable pub row_ok : Row → Bool
unfolding decode_ok
row_ok (given_up i error) = false
row_ok (measured i r needle streams gaps) =
    needle && (decode_ok streams && (ltb 0 r.ttft_s && ltb_ℤ (whole 0) r.prompt_tokens))

abbrev pub time_or_null : Option ℕ → Value
time_or_null none = null
time_or_null (some t) = num (pos t)

abbrev pub apart : ℕ → ℕ → ℕ
apart a b = (a - b) + (b - a)

-- `round3 n` is `round(n, 3)`, of seconds in nanoseconds, which gives millionths, and `number` is
-- `DECODE_STREAMS`.
module _ (round3 : ℕ → ℕ) (number : ℕ) where
  unfoldable pub row_value : Row → Value
  unfolding percentile row_ok
  row_value (given_up i e) = obj (
      field (codes "i") (int (i - 1))
        (field (codes "ok") (bool false) (field (codes "error") (str e) end)))
  row_value (measured i r needle streams gaps) = obj (
      field (codes "i") (int (i - 1)) (
        field (codes "prefill_prompt_tokens") (num r.prompt_tokens) (
          field (codes "prefill_ttft_s") (num (pos (round3 r.ttft_s))) (
            field (codes "prefill_seconds") (num (pos (round3 r.seconds))) (
              field (codes "prefill_needle_pass") (bool needle) (
                field (codes "decode_streams") (int number) (
                  field (codes "n_chunk_gaps") (int (length gaps)) (
                    field (codes "chunk_gap_s")
                      (obj (
                        field (codes "p50") (time_or_null (percentile gaps 50)) (
                          field (codes "p95") (time_or_null (percentile gaps 95))
                            (field (codes "p99") (time_or_null (percentile gaps 99)) end))))
                      (field (codes "ok") (bool (row_ok (measured i r needle streams gaps)))
                        end)))))))))

  abbrev pub row_grading : Grading Row
  row_grading = record { value = row_value; passed = row_ok }

-- `count` is the tokenizer of the server, and `rescale estimate n` is `round(estimate * target / n)`.
module _ (count : Text → Result ℕ) (rescale : ℕ → ℕ → ℕ) (target : ℕ) (salt : Text) where
  abbrev pub prompt_of : ℕ → Text
  prompt_of estimate = prefill_haystack estimate salt ++ question

  -- `ZeroDivisionError` is kept as an error of the same kind as a wrong value.
  abbrev pub next_estimate : ℕ → ℕ → Result ℕ
  next_estimate estimate n = if n == 0 then err value_error else ok (rescale estimate n)

  abbrev pub close_or : ℕ → Text → Result Text → Result Text
  close_or n content later = if leb (apart n target) 128 then ok content else later

  -- The rounds that are left
  unfoldable pub sized : ℕ → ℕ → Result Text
  unfolding prefill_haystack
  sized zero estimate = err runtime_error
  sized (suc rounds) estimate = do
    n ← count (prompt_of estimate)
    close_or n (prompt_of estimate) (do e ← next_estimate estimate n; sized rounds e)

-- `streams content` are the decode streams that run beside a prompt, `ask content` what `chat_stream`
-- gives for it, and `start` when it is sent.
module _ (count : Text → Result ℕ) (rescale : ℕ → ℕ → ℕ) (target : ℕ) (salt : ℕ → Text)
    (streams : ℕ → Text → List Stream) (ask : ℕ → Text → Result StreamReply) (start : ℕ → ℕ) where
  abbrev pub measure : ℕ → Text → List Stream → Result Row
  measure i content ss = do
    r ← ask i content
    ok (measured i r (hit_of r) ss (all_gaps ss (start i) (start i + r.ttft_s)))

  abbrev pub row_or_wait : ℕ → Text → List Stream → Option Text → Result Row
  row_or_wait i content ss (some e) = ok (given_up i e)
  row_or_wait i content ss none =
      if any (λ s. s.done_early) ss then err runtime_error else measure i content ss

  -- The run `i`, where 0 is the warm-up
  unfoldable pub run_one : ℕ → Result Row
  unfolding sized waits hit_of all_gaps
  run_one i = do
    content ← sized count rescale target (salt i) 6 target
    row_or_wait i content (streams i content) (waits (streams i content))

  unfoldable pub runs : ℕ → ℕ → Result (List Row)
  unfolding run_one
  runs zero i = ok []
  runs (suc left) i = do r ← run_one i; rest ← runs left (suc i); ok (r ∷ rest)

  abbrev pub need_passed : Bool → Result Bool
  need_passed passed = if passed then ok passed else err runtime_error

  abbrev pub measured_report : (ℕ → ℕ) → ℕ → List Row → Option Value × ℕ
  measured_report round3 number rows =
      let made = graded (row_grading round3 number) rows end in (some made.0, made.1)

  abbrev pub all_runs : (ℕ → ℕ) → ℕ → ℕ → Result (Option Value × ℕ)
  all_runs round3 number repeats = do
    warm ← run_one 0
    _passed ← need_passed (row_ok warm)
    rows ← runs repeats 1
    ok (measured_report round3 number rows)

  -- `number` is `DECODE_STREAMS`, and `repeats` is `N`.
  unfoldable pub mixedload_main : (ℕ → ℕ) → ℕ → ℕ → Result (Option Value × ℕ)
  unfolding runs graded row_value row_ok
  mixedload_main round3 number repeats =
      if ltb number 1 || ltb target 1000 then ok (none, 1) else all_runs round3 number repeats
