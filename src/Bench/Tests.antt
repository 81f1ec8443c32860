-- ===== src/Bench/Tests.antt =====
-- Runs of the suites of bench/, at which their theorems hold.
use qwen38_flash_next_sglang.Prelude.{
  ℕ, ◌+◌, ◌*◌, ◌/◌, ◌≡◌, ◌↔◌, refl, inl, true, Option, none, some, split_on, List, [], ◌∷◌, length,
  Text, codes,
}
use qwen38_flash_next_sglang.Prelude.Int.{ℤ, pos}
use qwen38_flash_next_sglang.Json.{
  Value, null, str, arr, obj, field, truth, Result, ok, err, end, Error, whole, num,
}
use qwen38_flash_next_sglang.Json.Objects.{items}
use qwen38_flash_next_sglang.Client.Calls.{ChatReply, StreamReply, zero_rate}
use qwen38_flash_next_sglang.Experiment.{Suite}
use qwen38_flash_next_sglang.Experiment.Validate.{validate}
use qwen38_flash_next_sglang.Bench.Quality.{quality_main}
use qwen38_flash_next_sglang.Bench.PleSpec.{ple_spec_main}
use qwen38_flash_next_sglang.Bench.Sizes.{parts_of}
use qwen38_flash_next_sglang.Bench.Longctx.{longctx_main}
use qwen38_flash_next_sglang.Bench.Accepted.{quality_main-Accepted}
use qwen38_flash_next_sglang.Bench.ToolCalls.{merged}
use qwen38_flash_next_sglang.Bench.Pieces.{Sent, streamed, slots_of, merged-restores}
use qwen38_flash_next_sglang.Bench.Effort.{first_divergence}
use qwen38_flash_next_sglang.Bench.Diverges.{Tells, first_divergence-Tells}
use qwen38_flash_next_sglang.Bench.Agentic.{State, agentic_run, agentic_main}
use qwen38_flash_next_sglang.Bench.Told.{TellsSo}
use qwen38_flash_next_sglang.Bench.Turns.{messages_of, all_tools}
use qwen38_flash_next_sglang.Bench.Session.{agentic_main-Accepted}
use qwen38_flash_next_sglang.Bench.Prefilled.{value_or_null}
use qwen38_flash_next_sglang.Bench.Grown.{Hidden, prefill_haystack-Hidden}

-- The value of a run, or another
abbrev made_of : Result (Value × ℕ) → Value × ℕ
made_of (ok made) = made
made_of (err e) = (null, 9)

abbrev no_float : Text → Option ℤ
no_float t = none

abbrev value_of : Result (Option Value × ℕ) → Option Value × ℕ
value_of (ok made) = made
value_of (err e) = (none, 9)

-- Each answer has what every question asks for.
abbrev good_reply : ChatReply
good_reply = record {
  http = 200;
  seconds = 1000;
  content = str (codes "204 42 7K-QUARTZ-19 PLE-SPEC-TOKEN-7F3A91 yellow 24");
  reasoning = str [];
  tool_calls = arr (
      items (
        obj (
          field (codes "function") (obj (field (codes "name") (str (codes "get_weather")) end)) end)
        ∷ []));
  finish = null;
  prompt_tokens = num (whole 9);
  completion_tokens = num (whole 9);
  reasoning_tokens = pos 0;
  raw = null;
}

prefill_haystack-Hidden_example : Hidden 100 (codes "s")
prefill_haystack-Hidden_example = prefill_haystack-Hidden 100 (codes "s")

abbrev chat_once : ℕ → List Value → Result ChatReply
chat_once n msgs = ok good_reply

abbrev run_once : Text → Option (Text × ℕ)
run_once code = some (codes "42\n", 0)

abbrev same_text : Text → Text
same_text t = t

abbrev quality_made : Value × ℕ
unfolding quality_main truth items
quality_made = made_of (quality_main chat_once run_once same_text null true)

quality_runs : quality_main chat_once run_once same_text null true ≡ ok quality_made
unfolding quality_main truth items
quality_runs = refl

quality_main-Accepted_example :
    (validate no_float Suite.quality quality_made.0 ≡ ok true) ↔ (quality_made.1 ≡ 0)
quality_main-Accepted_example =
    quality_main-Accepted chat_once run_once same_text null true quality_made no_float quality_runs

quality_passes : quality_made.1 ≡ 0
unfolding quality_main truth items
quality_passes = refl

abbrev ask_with : ℕ → ℕ → List Value → Result ChatReply
ask_with n temperature msgs = ok good_reply

abbrev no_metrics : ℕ → Option (List Text)
no_metrics n = none

abbrev ple_spec_made : Value × ℕ
unfolding ple_spec_main truth
ple_spec_made = made_of (ple_spec_main ask_with no_metrics no_float)

ple_spec_runs : ple_spec_main ask_with no_metrics no_float ≡ ok ple_spec_made
unfolding ple_spec_main truth
ple_spec_runs = refl

ple_spec_passes : ple_spec_made.1 ≡ 0
unfolding ple_spec_main truth
ple_spec_passes = refl

abbrev ask_text : ℕ → Text → Result ChatReply
ask_text n content = ok good_reply

abbrev whole_ratio : ℕ → ℕ → ℤ
whole_ratio a b = whole (a / b)

abbrev longctx_made : Option Value × ℕ
unfolding longctx_main split_on parts_of truth items
longctx_made = value_of (longctx_main ask_text whole_ratio (codes "8k"))

longctx_runs :
    longctx_main ask_text whole_ratio (codes "8k")
    ≡ ok (some (value_or_null longctx_made.0), longctx_made.1)
unfolding longctx_main split_on parts_of truth items
longctx_runs = refl

-- A clock that advances by a millisecond at each reading
abbrev tick : ℕ → ℕ
tick n = 1000 * n

abbrev ask_soak : ℕ → Result ChatReply
ask_soak i = ok good_reply

abbrev exact : ℕ → ℕ
exact n = n

abbrev error_name : Error → Text
error_name e = codes "OSError: timed out"

abbrev good_stream : StreamReply
good_stream = record {
  seconds = 400;
  ttft_s = 200;
  content = codes "7K-QUARTZ-19";
  reasoning = [];
  tool_calls =
      obj (
        field (codes "function")
          (obj (
            field (codes "name") (str (codes "read_file"))
              (field (codes "arguments") (str (codes "{}")) end)))
          end)
      ∷ [];
  finish = null;
  prompt_tokens = whole 9;
  completion_tokens = whole 9;
  cached_tokens = whole 0;
  cache_hit = none;
  reasoning_tokens = whole 0;
  prefill_tps = zero_rate;
  decode_tps = zero_rate;
  chunks = [];
  usage = obj end;
}

abbrev ask_turn : ℕ → List Value → Result StreamReply
ask_turn n msgs = ok good_stream

abbrev loads_empty : Text → Option Value
loads_empty t = some (obj end)

abbrev dumps_empty : Value → Text
dumps_empty v = codes "{}"

abbrev shown_as : ℕ → Text
shown_as n = (48 + n) ∷ []

abbrev agentic_made : Value × ℕ
unfolding agentic_main truth items
agentic_made =
    made_of (agentic_main loads_empty dumps_empty shown_as shown_as dumps_empty ask_turn 4)

agentic_runs :
    agentic_main loads_empty dumps_empty shown_as shown_as dumps_empty ask_turn 4 ≡ ok agentic_made
unfolding agentic_main truth items
agentic_runs = refl

agentic_main-Accepted_example :
    (st : State) × (agentic_run loads_empty dumps_empty shown_as shown_as dumps_empty ask_turn 4
      ≡ ok st)
    × ((validate no_float Suite.agentic_off agentic_made.0 ≡ ok true)
        ↔ ((agentic_made.1 ≡ 0) × (st.invalid ≡ 0)))
    × (length st.rows ≡ 4)
    × (length st.msgs ≡ 1 + messages_of st.rows)
    × (st.invalid ≡ 0 → all_tools st.rows ≡ true)
    × TellsSo loads_empty dumps_empty shown_as shown_as dumps_empty ask_turn 4 4 st
agentic_main-Accepted_example =
    agentic_main-Accepted loads_empty dumps_empty shown_as shown_as dumps_empty ask_turn 4
      agentic_made Suite.agentic_off no_float agentic_runs (inl refl)

agentic_passes_too : agentic_made.1 ≡ 0
unfolding agentic_main truth items
agentic_passes_too = refl

abbrev two_calls : List Sent
two_calls =
    record { name = codes "search_docs"; first = []; more = codes "{\"query\":" ∷ codes " 1}" ∷ [] }
    ∷ record { name = codes "read_file"; first = codes "{}"; more = [] }
    ∷ []

merged-restores_example : merged 0 [] (streamed 0 two_calls) ≡ ok (slots_of 0 two_calls)
merged-restores_example = merged-restores two_calls (λ e. cc, (λ e. cc, tt))

first_divergence-Tells_example :
    Tells (1 ∷ 2 ∷ 3 ∷ []) (1 ∷ 5 ∷ []) (first_divergence (1 ∷ 2 ∷ 3 ∷ []) (1 ∷ 5 ∷ []))
first_divergence-Tells_example = first_divergence-Tells (1 ∷ 2 ∷ 3 ∷ []) (1 ∷ 5 ∷ [])
