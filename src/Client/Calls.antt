-- ===== src/Client/Calls.antt =====
-- `chat`, `chat_stream` and `tok_s` of bench/client.py. Rates are kept as a quotient, before they are
-- rounded.
use qwen38_flash_next_sglang.Prelude.{
  ℕ, ◌-◌, Bool, true, false, not, ◌&&◌, Option, none, some, List, [], ◌∷◌, ◌++◌, Text, codes, ◌==◌,
  max, if◌then◌else◌,
}
use qwen38_flash_next_sglang.Prelude.Int.{ℤ, pos, negsuc, ltb_ℤ, ◌-ℤ◌}
use qwen38_flash_next_sglang.Json.{
  Value, null, str, arr, obj, Items, Fields, index_error, value_error, key_error, Result, ok, err,
  type_error, system_exit, os_error, ◌>>=◌, item, get, truth, or_else, as_number, whole,
}
use qwen38_flash_next_sglang.Client.{
  Request, chat_body, stream_body, check_prompt, reasoning_tokens, zero_int, empty_object,
}
use qwen38_flash_next_sglang.Client.Events.{
  Chunk, State, start, empty_text, empty_list, since, read_lines,
}

-- A number of millionths over a number of nanoseconds.
pub data Rate : Type 0 where
  zero_rate : Rate
  per : ℤ → ℕ → Rate

-- `"".join(parts)`
unfoldable pub join : List Value → Result Text
join [] = ok []
join (v ∷ vs) = elim v [ str t ↦ join vs >>= (λ rest. ok (t ++ rest)) | _ ↦ err type_error ]

abbrev pub number_of : Value → Result ℤ
number_of v = elim (as_number v) [ none ↦ err type_error | some n ↦ ok n ]

-- `usage.get(k) or 0`
abbrev pub count_of : Text → Value → Result Value
count_of k usage = do v ← get k null usage; ok (or_else v zero_int)

unfoldable pub cached_tokens : Value → Result Value
unfolding get truth
cached_tokens usage = do
  details ← get (codes "prompt_tokens_details") null usage
  count_of (codes "cached_tokens") (or_else details empty_object)

abbrev pub rate_if : Bool → ℤ → ℕ → Rate
rate_if true n d = per n d
rate_if false n d = zero_rate

-- 100 * cached / pt, if `pt` is not 0, in millionths over millionths
abbrev pub hit_rate : ℤ → ℤ → Option (ℤ × ℤ)
hit_rate cached (pos n) = if n == 0 then none else some (cached, pos n)
hit_rate cached (negsuc n) = some (cached, negsuc n)

pub record StreamReply : Type 0 where
  pub seconds : ℕ
  pub ttft_s : ℕ
  pub content : Text
  pub reasoning : Text
  pub tool_calls : List Value
  pub finish : Value
  pub prompt_tokens : ℤ
  pub completion_tokens : ℤ
  pub cached_tokens : ℤ
  pub cache_hit : Option (ℤ × ℤ)
  pub reasoning_tokens : ℤ
  pub prefill_tps : Rate
  pub decode_tps : Rate
  pub chunks : List Chunk
  pub usage : Value

-- The counts of `usage`, in millionths but the last, which is in ones.
pub record Numbers : Type 0 where
  pub prompt : ℤ
  pub cached : ℤ
  pub completion : ℤ
  pub reasoning : ℤ

abbrev pub ttft_or : Option ℕ → ℕ → ℕ
ttft_or none total = total
ttft_or (some t) total = t

-- What the loop has left, read into the reply; the clock is read once more. The window of the decode
-- is at least a millisecond.
module _ (clock : ℕ → ℕ) (parse_int : Text → Result ℤ) where
  abbrev pub numbers_of : Value → Value → Value → Value → Result Numbers
  numbers_of pt cached ct usage = do
    p ← number_of pt
    k ← number_of cached
    thought ← reasoning_tokens parse_int usage
    c ← number_of ct
    ok (record { prompt = p; cached = k; completion = c; reasoning = thought })

  -- The dictionary that is returned, with the total, the time of the first token and the texts.
  abbrev pub build : State → ℕ → ℕ → Text → Text → Numbers → StreamReply
  build st total ttft content reasoning n = record {
    seconds = total;
    ttft_s = ttft;
    content = content;
    reasoning = reasoning;
    tool_calls = st.tool_calls;
    finish = st.finish;
    prompt_tokens = n.prompt;
    completion_tokens = n.completion;
    cached_tokens = n.cached;
    cache_hit = hit_rate n.cached n.prompt;
    reasoning_tokens = n.reasoning;
    prefill_tps = rate_if (not (ttft == 0)) n.prompt ttft;
    decode_tps =
        rate_if (ltb_ℤ (whole 1) n.completion) (n.completion -ℤ whole 1)
          (max (total - ttft) 1000000);
    chunks = st.chunks;
    usage = st.usage;
  }

  unfoldable pub counts_of : Value → Result Numbers
  unfolding reasoning_tokens cached_tokens
  counts_of usage = do
    ct ← count_of (codes "completion_tokens") usage
    pt ← count_of (codes "prompt_tokens") usage
    cached ← cached_tokens usage
    numbers_of pt cached ct usage

  unfoldable pub reply_of : State → Result StreamReply
  unfolding counts_of join
  reply_of st = do
    n ← counts_of st.usage
    content ← join st.content
    reasoning ← join st.reasoning
    ok (
        build st (since clock st.reads) (ttft_or st.ttft (since clock st.reads)) content reasoning
          n)

-- What the server sends: an HTTP error, or lines, after which the stream ends or breaks off (the
-- connection, or the deadline).
pub data Sent : Type 0 where
  http_error : Sent
  lines : List Text → Sent
  broken : List Text → Sent

module _ (clock : ℕ → ℕ) (loads : Text → Option Value) (parse_int : Text → Result ℤ)
    (tokenize : Fields → Result Value) (send : Fields → Sent) (limit : Option Text)
    (model : Text) where
  abbrev pub received : Sent → Result StreamReply
  received http_error = err system_exit
  received (lines ls) = do st ← read_lines clock loads start ls; reply_of clock parse_int st
  received (broken ls) = do _st ← read_lines clock loads start ls; err os_error

  unfoldable pub chat_stream : Request → Result StreamReply
  unfolding read_lines reply_of stream_body check_prompt
  chat_stream r = do
    _checked ← check_prompt tokenize parse_int limit (stream_body model r)
    received (send (stream_body model r))

-- `v[0]`
abbrev pub first_item : Value → Result Value
first_item (arr Items.nil) = err index_error
first_item (arr (Items.cons v vs)) = ok v
first_item (obj fs) = err key_error
first_item (str []) = err index_error
first_item (str (c ∷ t)) = ok (str (c ∷ []))
first_item v = err type_error

-- `v.get(k) or d`
abbrev pub get_or : Text → Value → Value → Result Value
get_or k d v = do x ← get k null v; ok (or_else x d)

pub record ChatReply : Type 0 where
  pub http : ℕ
  pub seconds : ℕ
  pub content : Value
  pub reasoning : Value
  pub tool_calls : Value
  pub finish : Value
  pub prompt_tokens : Value
  pub completion_tokens : Value
  pub reasoning_tokens : ℤ
  pub raw : Value

-- What the server answers: an HTTP error, or a status and a JSON value. `json.loads` raises a
-- `ValueError` on other texts.
pub data Answer : Type 0 where
  http_error : Answer
  answer : ℕ → Option Value → Answer

-- The reply, from the status, the seconds that the request took, and the value.
unfoldable pub chat_reply : (Text → Result ℤ) → ℕ → ℕ → Value → Result ChatReply
unfolding item get truth reasoning_tokens
chat_reply parse_int code dt answered = do
  choices ← item (codes "choices") answered
  choice ← first_item choices
  msg ← get_or (codes "message") empty_object choice
  usage ← get_or (codes "usage") empty_object answered
  content ← get_or (codes "content") empty_text msg
  reasoning ← get_or (codes "reasoning_content") empty_text msg
  calls ← get_or (codes "tool_calls") empty_list msg
  finish ← get (codes "finish_reason") null choice
  pt ← get_or (codes "prompt_tokens") zero_int usage
  ct ← get_or (codes "completion_tokens") zero_int usage
  thought ← reasoning_tokens parse_int usage
  ok (record {
    http = code;
    seconds = dt;
    content = content;
    reasoning = reasoning;
    tool_calls = calls;
    finish = finish;
    prompt_tokens = pt;
    completion_tokens = ct;
    reasoning_tokens = thought;
    raw = answered;
  })

module _ (clock : ℕ → ℕ) (parse_int : Text → Result ℤ) (tokenize : Fields → Result Value)
    (send : Fields → Answer) (limit : Option Text) (model : Text) where
  abbrev pub answered : Answer → Result ChatReply
  answered http_error = err system_exit
  answered (answer code none) = err value_error
  answered (answer code (some v)) = chat_reply parse_int code (since clock 1) v

  unfoldable pub chat : Request → Result ChatReply
  unfolding chat_body check_prompt chat_reply
  chat r = do
    _checked ← check_prompt tokenize parse_int limit (chat_body model r)
    answered (send (chat_body model r))

-- `tok_s`: no rate without a time or without tokens
unfoldable pub tok_s : ℤ → ℕ → Rate
tok_s (pos n) seconds = rate_if (not (n == 0) && not (seconds == 0)) (pos n) seconds
tok_s (negsuc n) seconds = rate_if (not (seconds == 0)) (negsuc n) seconds
