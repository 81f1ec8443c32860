-- ===== src/Bench/PleSpec.antt =====
-- bench/ple_spec.py. `ask n temperature messages` is the reply of `chat` to the request `n` of the run,
-- and `metrics n` what its request `n` for `/metrics` gives, `none` if it fails. The texts of the details
-- are left out.
use qwen38_flash_next_sglang.Prelude.{
  ℕ, ◌+◌, ◌*◌, Bool, false, not, Option, none, some, List, [], ◌∷◌, ◌++◌, length, any, take, Text,
  codes, has_sub, strip, ltb, ◌=ₜ◌, if◌then◌else◌,
}
use qwen38_flash_next_sglang.Prelude.Int.{ℤ, pos, ltb_ℤ}
use qwen38_flash_next_sglang.Json.{
  Value, null, num, str, arr, obj, Fields, end, field, Result, ok, err, type_error, ◌>>=◌, list_of,
  keys_of, or_else, is_text, exceeds, ◌and_then◌,
}
use qwen38_flash_next_sglang.Json.Objects.{items}
use qwen38_flash_next_sglang.Client.Events.{empty_text}
use qwen38_flash_next_sglang.Client.Calls.{ChatReply}
use qwen38_flash_next_sglang.Client.Metrics.{Gauges, server_metrics}
use qwen38_flash_next_sglang.Bench.{graded}
use qwen38_flash_next_sglang.Bench.Quality.{
  Row, row, row_grading, user, message, text_of, either_text, seconds_of,
}

-- `gauges.get(k)`
unfoldable pub gauge_of : Text → Gauges → Option ℤ
gauge_of k [] = none
gauge_of k (e ∷ es) = let later = gauge_of k es in if e.0 =ₜ k then some e.1 else later

abbrev pub gauge_value : Option ℤ → Value
gauge_value none = null
gauge_value (some n) = num n

unfoldable pub gauge_fields : Gauges → Fields
gauge_fields [] = end
gauge_fields (e ∷ es) = field e.0 (num e.1) (gauge_fields es)

abbrev pub accept_length : Text
accept_length = codes "sglang:spec_accept_length"

abbrev pub the_fact : Text
the_fact = codes "PLE-SPEC-TOKEN-7F3A91"

-- `v[:240]`
unfoldable pub preview_of : Value → Result Value
unfolding list_of items
preview_of (str t) = ok (str (take 240 t))
preview_of (arr vs) = ok (arr (items (take 240 (list_of vs))))
preview_of v = err type_error

-- `sub in v`
unfoldable pub is_in : Text → Value → Result Bool
unfolding list_of keys_of
is_in sub (str t) = ok (has_sub sub t)
is_in sub (arr vs) = ok (any (is_text sub) (list_of vs))
is_in sub (obj fs) = ok (any (is_text sub) (keys_of fs))
is_in sub v = err type_error

-- `len(text.strip()) > 20`
abbrev pub is_long : Value → Result Bool
is_long v = do t ← text_of v; ok (ltb 20 (length (strip t)))

-- The text, of a reply that may have none
abbrev pub text_or_empty : ChatReply → Value
text_or_empty r = or_else (either_text r) empty_text

-- `float_text` is `float` of a text, `none` where that raises a `ValueError`; temperatures are in tenths.
module _ (ask : ℕ → ℕ → List Value → Result ChatReply) (metrics : ℕ → Option (List Text))
    (float_text : Text → Option ℤ) where
  abbrev pub accept_at : ℕ → Option ℤ
  accept_at n = gauge_of accept_length (server_metrics float_text (metrics n))

  abbrev pub function_question : Text
  function_question =
      codes
        "Write a Python function named checksum32 that folds a UTF-8 string into an unsigned 32-bit integer with xor and rotate. Include a docstring and two assertions. No markdown."

  -- The request `n`, between the readings `m` and `m + 1` of the metrics
  unfoldable pub generate : ℕ → ℕ → Text → ℕ → Result Row
  unfolding server_metrics gauge_of exceeds strip preview_of
  generate n m name temperature = do
    r ← ask n temperature (user function_question ∷ [])
    passed ← exceeds r.completion_tokens 0 and_then is_long (text_or_empty r)
    preview ← preview_of (text_or_empty r)
    ok (
        row name passed (
          field (codes "temperature") (num (pos (100000 * temperature))) (
            field (codes "completion_tokens") r.completion_tokens (
              seconds_of r (
                field (codes "spec_accept_before") (gauge_value (accept_at m)) (
                  field (codes "spec_accept_after") (gauge_value (accept_at (m + 1)))
                    (field (codes "preview") preview end)))))))

  abbrev pub assistant : Value → Value
  assistant = message (codes "assistant")

  -- The conversation of `recall` after no answer, one and two
  abbrev pub note_turn : List Value
  note_turn =
      user (
        codes
          "Store this access note exactly: PLE-SPEC-TOKEN-7F3A91. Do not repeat it unless asked. Reply with OK.")
      ∷ []

  abbrev pub filler_turn : ChatReply → List Value
  filler_turn r1 =
      note_turn
      ++ assistant (or_else r1.content (str (codes "OK")))
        ∷ user (codes "Write 40 words of filler about checksums, then wait.")
        ∷ []

  abbrev pub recall_turn : ChatReply → ChatReply → List Value
  recall_turn r1 r2 =
      filler_turn r1
      ++ assistant (or_else r2.content empty_text)
        ∷ user (codes "What was the access note? Repeat it exactly.")
        ∷ []

  unfoldable pub recall : Result Row
  unfolding is_in server_metrics gauge_of
  recall = do
    r1 ← ask 2 0 note_turn
    r2 ← ask 3 0 (filler_turn r1)
    r3 ← ask 4 0 (recall_turn r1 r2)
    passed ← is_in the_fact (text_or_empty r3)
    ok (
        row (codes "ple_spec_recall") passed (
          field (codes "content") (text_or_empty r3)
            (field (codes "spec_accept") (gauge_value (accept_at 4)) end)))

  -- `accept is not None and accept < 1.05`, in millionths
  abbrev pub is_idle : Option ℤ → Bool
  is_idle none = false
  is_idle (some n) = ltb_ℤ n (pos 1050000)

  abbrev pub accept_row : Row
  accept_row = row (codes "ple_spec_accept_length") (not (is_idle (accept_at 5))) end

  unfoldable pub metrics_field : Fields
  unfolding gauge_fields server_metrics
  metrics_field =
      field (codes "metrics") (obj (gauge_fields (server_metrics float_text (metrics 5)))) end

  unfoldable pub ple_spec_main : Result (Value × ℕ)
  unfolding generate recall graded server_metrics gauge_of metrics_field
  ple_spec_main = do
    heavy ← generate 0 0 (codes "ple_spec_accept_heavy") 0
    rejected ← generate 1 2 (codes "ple_spec_reject_heavy") 14
    recalled ← recall
    ok (graded row_grading (heavy ∷ rejected ∷ recalled ∷ accept_row ∷ []) metrics_field)
