-- ===== src/Client/Tests.antt =====
-- A streamed answer of two deltas, a preflight and a bounded call.
use qwen38_flash_next_sglang.Prelude.{
  ◌≡◌, refl, ◌≤◌, ◌+◌, ◌*◌, ℕ, true, false, Option, none, some, [], ◌∷◌, Text, codes, length, ◌=ₜ◌,
  if◌then◌else◌, arith,
}
use qwen38_flash_next_sglang.Prelude.Int.{ℤ, pos}
use qwen38_flash_next_sglang.Json.{
  Value, null, str, arr, obj, nil, cons, Fields, end, field, Result, ok,
}
use qwen38_flash_next_sglang.Json.Objects.{int}
use qwen38_flash_next_sglang.Client.{Request, Bounded, check_prompt}
use qwen38_flash_next_sglang.Client.Calls.{StreamReply, per, zero_rate, Sent, lines, chat_stream}
use qwen38_flash_next_sglang.Client.Chunks.{content_total, think_total}
use qwen38_flash_next_sglang.Client.Account.{chat_stream-accounts}
use qwen38_flash_next_sglang.Client.InTime.{AllBefore, chat_stream-InTime}
use qwen38_flash_next_sglang.Client.Limits.{WithinCeiling, check_prompt-WithinCeiling}

abbrev delta : Text → Text → Value
delta key piece = obj (
    field (codes "choices")
      (arr (cons (obj (field (codes "delta") (obj (field key (str piece) end)) end)) nil)) end)

-- What the two payloads are.
abbrev loads : Text → Option Value
loads t =
    if t =ₜ codes "1"
    then some (delta (codes "reasoning_content") (codes "hmm"))
    else if t =ₜ codes "2"
    then some (delta (codes "content") (codes "hello"))
    else none

abbrev whole_int : Text → Result ℤ
whole_int t = ok (pos 5000000)

abbrev clock : ℕ → ℕ
clock i = 100500 * i

abbrev counts : Fields → Result Value
counts body = ok (obj (field (codes "count") (int 4) end))

abbrev answer : Fields → Sent
answer body = lines (
    codes "data: 1 "
    ∷ codes ": ping"
    ∷ codes "data: 2"
    ∷ codes "data: [DONE]"
    ∷ codes "data: 2"
    ∷ [])

abbrev request : Request
request = record {
  messages = arr nil;
  max_tokens = 8;
  temperature = none;
  thinking = some true;
  reasoning_effort = none;
  tools = none;
  extra = end;
}

abbrev reply : StreamReply
reply = record {
  seconds = 402000;
  ttft_s = 201000;
  content = codes "hello";
  reasoning = codes "hmm";
  tool_calls = [];
  finish = null;
  prompt_tokens = pos 0;
  completion_tokens = pos 0;
  cached_tokens = pos 0;
  cache_hit = none;
  reasoning_tokens = pos 0;
  prefill_tps = per (pos 0) 201000;
  decode_tps = zero_rate;
  chunks =
      record { t = 100000; content_chars = 0; think_chars = 3; tool = false }
      ∷ record { t = 302000; content_chars = 5; think_chars = 0; tool = false }
      ∷ [];
  usage = obj end;
}

streamed :
    chat_stream clock loads whole_int counts answer (some (codes "5")) (codes "m") request
    ≡ ok reply
unfolding chat_stream qwen38_flash_next_sglang.Prelude.Rounding.round_ratio
streamed = refl

chat_stream-accounts_example :
    (content_total reply.chunks ≡ length reply.content)
    × (think_total reply.chunks ≡ length reply.reasoning)
chat_stream-accounts_example =
    chat_stream-accounts clock loads whole_int counts answer (some (codes "5")) (codes "m") request
      reply streamed

chat_stream-InTime_example :
    (reply.ttft_s ≤ reply.seconds) × AllBefore (reply.seconds + 500) reply.chunks
chat_stream-InTime_example =
    chat_stream-InTime clock (λ i. omega arith) loads whole_int counts answer (some (codes "5"))
      (codes "m") request reply streamed

check_prompt-WithinCeiling_example :
    WithinCeiling counts whole_int
      (codes "5")
      (field (codes "model") (str (codes "m")) (field (codes "messages") (arr nil) end))
unfolding check_prompt
check_prompt-WithinCeiling_example =
    check_prompt-WithinCeiling counts whole_int 53 []
      (field (codes "model") (str (codes "m")) (field (codes "messages") (arr nil) end)) tt refl

abbrev bounded : Bounded
bounded = record { timeout = pos 3000000; alarm = true }
