-- ===== src/Bench/SizeTests.antt =====
-- Runs of the sizing loops and of the speed suites of bench/, at which their theorems hold.
use qwen38_flash_next_sglang.Prelude.{
  ℕ, zero, suc, ◌+◌, ◌-◌, ◌*◌, ◌/◌, ◌≤◌, ◌≡◌, refl, true, false, Option, none, some, split_on, List,
  [], ◌∷◌, length, Text, codes, arith,
}
use qwen38_flash_next_sglang.Prelude.Int.{ℤ}
use qwen38_flash_next_sglang.Json.{Value, null, obj, end, Result, ok, err, whole}
use qwen38_flash_next_sglang.Client.Calls.{StreamReply, zero_rate}
use qwen38_flash_next_sglang.Bench.Prompt.{real_prompt}
use qwen38_flash_next_sglang.Bench.Sized.{Sized, real_prompt-Sized}
use qwen38_flash_next_sglang.Bench.Sizes.{parts_of}
use qwen38_flash_next_sglang.Bench.Prefill.{Numbers, sizes_of, prefill_main}
use qwen38_flash_next_sglang.Bench.Prefilled.{Written, value_or_null, prefill_main-Accepted}
use qwen38_flash_next_sglang.Bench.Times.{gaps_in_window}
use qwen38_flash_next_sglang.Bench.Window.{total, gaps_in_window-covers}
use qwen38_flash_next_sglang.Bench.Mixedload.{Stream, mixedload_main}
use qwen38_flash_next_sglang.Bench.Mixed
use qwen38_flash_next_sglang.Bench.Mixed.{Near, sized-Close, mixedload_main-Accepted}

abbrev reply : StreamReply
reply = record {
  seconds = 400;
  ttft_s = 200;
  content = codes "7K-QUARTZ-19";
  reasoning = [];
  tool_calls = [];
  finish = null;
  prompt_tokens = whole 9;
  completion_tokens = whole 9;
  cached_tokens = whole 0;
  cache_hit = none;
  reasoning_tokens = whole 0;
  prefill_tps = zero_rate;
  decode_tps = zero_rate;
  chunks = [];
  usage = obj end;
}

abbrev no_float : Text → Option ℤ
no_float t = none

gaps_in_window-covers_example : 500 - 100 ≤ total (gaps_in_window (600 ∷ 50 ∷ 300 ∷ []) 100 500)
gaps_in_window-covers_example =
    gaps_in_window-covers (600 ∷ 50 ∷ 300 ∷ []) 100 500 50 600 refl refl (omega arith) (omega arith)
      (omega arith)

abbrev letters : ℕ → Text
letters zero = []
letters (suc n) = 97 ∷ letters n

abbrev quarter : Text → Result ℕ
quarter t = ok (length t / 4)

abbrev prompt_or : Result (Text × List Text) → Text × List Text
prompt_or (ok made) = made
prompt_or (err e) = ([], [])

abbrev prompt_made : Text × List Text
unfolding real_prompt
prompt_made = prompt_or (real_prompt quarter (letters 2700 ∷ letters 2700 ∷ []) 1000 (codes "s") [])

prompt_is_made :
    real_prompt quarter (letters 2700 ∷ letters 2700 ∷ []) 1000 (codes "s") [] ≡ ok prompt_made
unfolding real_prompt
prompt_is_made = refl

real_prompt-Sized_example :
    Sized quarter (letters 2700 ∷ letters 2700 ∷ []) 1000 (codes "s") [] prompt_made
real_prompt-Sized_example =
    real_prompt-Sized quarter (letters 2700 ∷ letters 2700 ∷ []) 1000 (codes "s") [] prompt_made
      (omega arith) prompt_is_made

abbrev rescaled : ℕ → ℕ → ℕ
rescaled estimate n = estimate * 1000 / n

abbrev ask_once : ℕ → Value → Result StreamReply
ask_once n msgs = ok reply

abbrev numbers : Numbers
numbers = record {
  round3 = λ n. n;
  rate = λ r. null;
  percent = λ r. null;
  shown = λ n. (48 + n) ∷ [];
}

abbrev value_of : Result (Option Value × ℕ) → Option Value × ℕ
value_of (ok made) = made
value_of (err e) = (none, 9)

abbrev prefill_made : Option Value × ℕ
unfolding prefill_main parts_of split_on
prefill_made = value_of (prefill_main ask_once quarter [] numbers 7 1 false (codes "8k"))

prefill_runs :
    prefill_main ask_once quarter [] numbers 7 1 false (codes "8k")
    ≡ ok (some (value_or_null prefill_made.0), prefill_made.1)
unfolding prefill_main parts_of split_on
prefill_runs = refl

prefill_main-Accepted_example :
    Written ask_once quarter [] numbers 7 1 false
      (sizes_of (parts_of (split_on 44 (codes "8k"))))
      []
      (length (parts_of (split_on 44 (codes "8k"))))
      (value_or_null prefill_made.0)
      prefill_made.1
      no_float
prefill_main-Accepted_example =
    prefill_main-Accepted ask_once quarter [] numbers 7 1 false (codes "8k")
      (value_or_null prefill_made.0) prefill_made.1 no_float prefill_runs

abbrev stream : Stream
stream = record {
  first_in_time = true;
  first_error = none;
  done_early = false;
  chunks = 50 ∷ 600 ∷ [];
  result = some reply;
  error = none;
}

abbrev two_streams : ℕ → Text → List Stream
two_streams i content = stream ∷ stream ∷ []

abbrev ask_text : ℕ → Text → Result StreamReply
ask_text i content = ok reply

abbrev salt_of : ℕ → Text
salt_of i = (48 + i) ∷ []

abbrev sent_at : ℕ → ℕ
sent_at i = 100

abbrev exact : ℕ → ℕ
exact n = n

abbrev mixed_made : Option Value × ℕ
unfolding mixedload_main
mixed_made =
    value_of (mixedload_main quarter rescaled 1000 salt_of two_streams ask_text sent_at exact 2 1)

mixed_runs :
    mixedload_main quarter rescaled 1000 salt_of two_streams ask_text sent_at exact 2 1
    ≡ ok (some (value_or_null mixed_made.0), mixed_made.1)
unfolding mixedload_main
mixed_runs = refl

mixedload_main-Accepted_example :
    Mixed.Written quarter rescaled 1000 salt_of two_streams ask_text sent_at exact 2 1
      (value_or_null mixed_made.0)
      mixed_made.1
      no_float
mixedload_main-Accepted_example =
    mixedload_main-Accepted quarter rescaled 1000 salt_of two_streams ask_text sent_at exact 2 1
      (value_or_null mixed_made.0) mixed_made.1 no_float mixed_runs

mixed_passes : mixed_made.1 ≡ 0
unfolding mixedload_main
mixed_passes = refl
