-- ===== src/Experiment/Validate.antt =====
-- `validate`: whether the report that a suite wrote shows a pass.
use qwen38_flash_next_sglang.Prelude.{
  ℕ, ◌+◌, ◌*◌, ◌-◌, Bool, true, false, not, ◌&&◌, ◌||◌, Option, none, some, List, [], ◌∷◌, Text,
  codes, ◌==◌, if◌then◌else◌, any, all, has_sub,
}
use qwen38_flash_next_sglang.Prelude.Int.{ℤ, pos, negsuc, ltb_ℤ}
use qwen38_flash_next_sglang.Json.{
  Value, null, bool, num, str, arr, obj, Items, type_error, value_error, Result, ok, err, ◌>>=◌,
  list_of, item, get, iterate, values, truth, is_true, whole, equals, exceeds, at_least, size,
  or_else, ◌and_then◌, all_of, is_text, same,
}
use qwen38_flash_next_sglang.Experiment.{Suite}

abbrev pub zero_value : Value
zero_value = num (pos 0)

abbrev pub one_value : Value
one_value = num (whole 1)

-- `v[k] is True`
abbrev pub flagged : Text → Value → Result Bool
flagged k v = do f ← item k v; ok (is_true f)

-- `v[k] > 0`
abbrev pub item_positive : Text → Value → Result Bool
item_positive k v = do x ← item k v; exceeds x 0

-- `v.get(k, 0) > 0`
abbrev pub get_positive : Text → Value → Result Bool
get_positive k v = do x ← get k zero_value v; exceeds x 0

-- `v.get(k) is True`
abbrev pub get_flagged : Text → Value → Result Bool
get_flagged k v = do x ← get k null v; ok (is_true x)

-- `v[k] == n`, for a whole number
abbrev pub item_equals : Text → ℕ → Value → Result Bool
item_equals k n v = do x ← item k v; ok (equals x n)

-- `len(report.get('results') or []) == s['n']`; the second operand may be any value.
abbrev pub results_number : Value → Result ℕ
results_number report = do rs ← get (codes "results") null report; size (or_else rs (arr Items.nil))

-- quality and longctx, with the key of the flag, and ple_spec
unfoldable pub rows_pass : Text → Value → Result Bool
rows_pass key report = do
  rows ← item (codes "results") report
  ok (truth rows)
      and_then (item_equals (codes "failed") 0 report
          and_then (do rs ← iterate rows; all_of (flagged key) rs))

-- A member of a set of texts, which wants a value that can be hashed.
abbrev pub hashable : Value → Result Value
hashable (arr vs) = err type_error
hashable (obj fs) = err type_error
hashable v = ok v

modes_of : List Value → Result (List Value)
modes_of [] = ok []
modes_of (m ∷ ms) = do
  mode ← item (codes "mode") m
  v ← hashable mode
  rest ← modes_of ms
  ok (v ∷ rest)

abbrev two_modes : List Value → Bool
two_modes vs =
    any (is_text (codes "thinking_on")) vs
    && any (is_text (codes "thinking_off")) vs
    && all (λ v. is_text (codes "thinking_on") v || is_text (codes "thinking_off") v) vs

sample_ok : Value → Result Bool
sample_ok s = item_positive (codes "completion_tokens") s and_then item_positive (codes "seconds") s

task_ok : Value → Result Bool
unfolding sample_ok
task_ok t = do
  samples ← item (codes "samples") t
  ok (truth samples) and_then (do ss ← iterate samples; all_of sample_ok ss)

mode_ok : Value → Result Bool
unfolding task_ok
mode_ok m = do
  tasks ← item (codes "tasks") m
  ok (truth tasks) and_then (do ts ← values tasks; all_of task_ok ts)

unfoldable pub decode_passes : Value → Result Bool
unfolding modes_of mode_ok
decode_passes report = do
  modes ← item (codes "results") report
  n ← size modes
  ok (n == 2) and_then (do
    ms ← iterate modes
    vs ← modes_of ms
    ok (two_modes vs) and_then all_of mode_ok ms)

-- `v == w` where one side is a length
abbrev equals_size : Result ℕ → Value → Result Bool
equals_size r w = do n ← r; ok (equals w n)

unfoldable pub agentic_passes : Value → Result Bool
agentic_passes report = do
  s ← item (codes "summary") report
  item_equals (codes "invalid_tool_calls") 0 s
      and_then (flagged (codes "late_recall_pass") s
          and_then (item_positive (codes "turns") s and_then (do
            turns ← item (codes "turns") report
            n ← size turns
            w ← item (codes "turns") s
            ok (equals w n))))

-- effort_probe, and arith_probe and gsm8k with one more condition on the summary
unfoldable pub probe_passes : (Value → Result Bool) → Value → Result Bool
probe_passes more report = do
  s ← item (codes "summary") report
  get_positive (codes "n") s
      and_then (more s
          and_then (do n ← results_number report; w ← item (codes "n") s; ok (equals w n)))

-- `'accuracy' in s`
abbrev has_accuracy : Value → Result Bool
has_accuracy (obj fs) = elim (item (codes "accuracy") (obj fs)) [
  | ok _ ↦ ok true
  | err _ ↦ ok false
]
has_accuracy (arr vs) = ok (any (is_text (codes "accuracy")) (list_of vs))
has_accuracy (str t) = ok (has_sub (codes "accuracy") t)
has_accuracy _ = err type_error

-- `s['run'] == s['cases']` and `a == b > 0`, of numbers
unfoldable pub chunk_tail_passes : Value → Result Bool
chunk_tail_passes report = do
  s ← item (codes "summary") report
  item_equals (codes "failed") 0 report and_then (do
    run ← item (codes "run") s
    cases ← item (codes "cases") s
    ok (same run cases)
        and_then (flagged (codes "after_chat_ok") s and_then (do
          a ← item (codes "resend_short_extend") s
          b ← item (codes "resend_ok") s
          ok (same a b) and_then exceeds b 0)))

unfoldable pub prefill_row : Value → Result Bool
prefill_row r =
    get_positive (codes "ttft_s") r
    and_then (get_positive (codes "prompt_tokens") r and_then get_flagged (codes "needle_pass") r)

unfoldable pub mixedload_row : Value → Result Bool
mixedload_row r =
    get_flagged (codes "ok") r
    and_then (get_positive (codes "prefill_ttft_s") r
        and_then (get_positive (codes "prefill_prompt_tokens") r
            and_then (get_flagged (codes "prefill_needle_pass") r
                and_then (do n ← get (codes "decode_streams") zero_value r; at_least n 2))))

streams_row : Value → Result Bool
streams_row r = get_flagged (codes "ok") r and_then get_positive (codes "median_aggregate_tok_s") r

-- prefill and mixedload: a non-empty list of rows, none failed, each row good
unfoldable pub table_passes : (Value → Result Bool) → Value → Result Bool
table_passes row_ok report = do
  rows ← item (codes "results") report
  ok (truth rows)
      and_then (item_equals (codes "failed") 0 report
          and_then (do rs ← iterate rows; all_of row_ok rs))

-- `{r.get('concurrency') for r in rows}`
concurrencies : List Value → Result (List Value)
concurrencies [] = ok []
concurrencies (r ∷ rs) = do
  c ← get (codes "concurrency") null r
  v ← hashable c
  rest ← concurrencies rs
  ok (v ∷ rest)

abbrev one_two_four : List Value → Bool
one_two_four got =
    any (λ v. equals v 1) got && any (λ v. equals v 2) got && any (λ v. equals v 4) got

unfoldable pub streams_passes : Value → Result Bool
unfolding concurrencies streams_row
streams_passes report = do
  rows ← item (codes "results") report
  rs ← iterate rows
  got ← concurrencies rs
  ok (truth rows)
      and_then (item_equals (codes "failed") 0 report
          and_then (ok (one_two_four got) and_then all_of streams_row rs))

-- `float(text)` of a text, in millionths, `none` for a `ValueError`
module _ (float_text : Text → Option ℤ) where
  unfoldable pub to_float : Value → Result ℤ
  to_float (num n) = ok n
  to_float (bool true) = ok (whole 1)
  to_float (bool false) = ok (whole 0)
  to_float (str t) = elim (float_text t) [ none ↦ err value_error | some n ↦ ok n ]
  to_float _ = err type_error

  -- `float(s.get(k) or 0)`
  abbrev pub float_field : Text → Value → Result ℤ
  float_field k s = do v ← get k null s; to_float (or_else v zero_value)

  abbrev times : ℕ → ℤ → ℤ
  times k (pos n) = pos (k * n)
  times k (negsuc n) = negsuc (k * n + k - 1)

  -- `a >= 0.9 * b`
  abbrev nine_tenths : ℤ → ℤ → Bool
  nine_tenths a b = not (ltb_ℤ (times 10 a) (times 9 b))

  unfoldable pub longsoak_passes : Value → Result Bool
  unfolding to_float
  longsoak_passes report = do
    s ← item (codes "summary") report
    get_flagged (codes "final") s
        and_then (item_equals (codes "failed") 0 report
            and_then (get_positive (codes "samples") s and_then (do
              a ← float_field (codes "seconds") s
              b ← float_field (codes "target_seconds") s
              ok (nine_tenths a b))))

  -- `s.get(k, d) == 0`
  abbrev get_zero : Text → Value → Value → Result Bool
  get_zero k d s = do v ← get k d s; ok (equals v 0)

  abbrev no_recall_fail : Suite → Value → Result Bool
  no_recall_fail Suite.growsoak s = get_zero (codes "recall_fail") one_value s
  no_recall_fail _ s = ok true

  unfoldable pub soak_passes : Suite → Value → Result Bool
  unfolding to_float
  soak_passes name report = do
    s ← item (codes "summary") report
    target ← float_field (codes "target_seconds") s
    extra ← no_recall_fail name s
    ok extra
        and_then (get_zero (codes "errors") one_value s
            and_then (get_positive (codes "ok") s
                and_then ((do
                  requests ← get (codes "requests") zero_value s
                  n ← results_number report
                  ok (equals requests n))
                    and_then (if not (ltb_ℤ (pos 0) target)
                        then ok true
                        else (do a ← float_field (codes "seconds") s; ok (nine_tenths a target))))))

  abbrev no_more : Value → Result Bool
  no_more s = ok true

  unfoldable pub validate : Suite → Value → Result Bool
  unfolding prefill_row mixedload_row
  validate Suite.quality report = rows_pass (codes "pass") report
  validate Suite.longctx report = rows_pass (codes "needle_pass") report
  validate Suite.ple_spec report = rows_pass (codes "pass") report
  validate Suite.decode report = decode_passes report
  validate Suite.agentic_off report = agentic_passes report
  validate Suite.agentic_on report = agentic_passes report
  validate Suite.effort_probe report = probe_passes no_more report
  validate Suite.arith_probe report = probe_passes (get_positive (codes "prompts")) report
  validate Suite.gsm8k report = probe_passes has_accuracy report
  validate Suite.chunk_tail report = chunk_tail_passes report
  validate Suite.prefill report = table_passes prefill_row report
  validate Suite.mixedload report = table_passes mixedload_row report
  validate Suite.streams report = streams_passes report
  validate Suite.longsoak report = longsoak_passes report
  validate Suite.soak report = soak_passes Suite.soak report
  validate Suite.growsoak report = soak_passes Suite.growsoak report
  validate Suite.smoke report = ok false
