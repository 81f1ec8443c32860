-- ===== src/Client/Account.antt =====
-- `chat_stream` of bench/client.py: the chunks account for every character of the answer, and their
-- times lie within the request.
use qwen38_flash_next_sglang.Prelude.{ℕ, ◌≡◌, sym, ap, ◌∙◌, Option, length, Text}
use qwen38_flash_next_sglang.Prelude.Int.{ℤ}
use qwen38_flash_next_sglang.Json.{Value, Fields, Result, ok}
use qwen38_flash_next_sglang.Client.{Request, stream_body, check_prompt}
use qwen38_flash_next_sglang.Client.Events.{State, start, read_lines}
use qwen38_flash_next_sglang.Client.Calls.{
  join, StreamReply, reply_of, counts_of, Sent, http_error, lines, broken, chat_stream, received,
}
use qwen38_flash_next_sglang.Json.Steps.{bind_ok, ok-inj}
use qwen38_flash_next_sglang.Client.Chunks.{
  Accounted, content_total, think_total, take_delta-Accounted,
}
use qwen38_flash_next_sglang.Client.Lines.{read_lines_keeps}
use qwen38_flash_next_sglang.Client.Chunks.{usage-Accounted, start-Accounted}

-- What is made of the state of the loop has its texts and its chunks.
reply_of-parts :
    (clock : ℕ → ℕ) (parse_int : Text → Result ℤ) (st : State) (reply : StreamReply)
    → reply_of clock parse_int st ≡ ok reply
    → (join st.content ≡ ok reply.content)
      × (join st.reasoning ≡ ok reply.reasoning)
      × (st.chunks ≡ reply.chunks)
unfolding reply_of
reply_of-parts clock parse_int st reply h =
    let (n, _, h1) = bind_ok (counts_of clock parse_int st.usage) _ h in
    let (content, p, h2) = bind_ok (join st.content) _ h1 in
    let (reasoning, q, h3) = bind_ok (join st.reasoning) _ h2 in
    let e = ok-inj h3 in
    (p ∙ ap (λ r. ok r.content) e, q ∙ ap (λ r. ok r.reasoning) e, ap (λ r. r.chunks) e)

-- In every answer that `chat_stream` returns, the characters that its chunks report are as many as
-- the characters of its content, and those of its thinking as many as those of its reasoning.
pub chat_stream-accounts :
    (clock : ℕ → ℕ) (loads : Text → Option Value) (parse_int : Text → Result ℤ)
    (tokenize : Fields → Result Value) (send : Fields → Sent) (limit : Option Text) (model : Text)
    (r : Request) (reply : StreamReply)
    → chat_stream clock loads parse_int tokenize send limit model r ≡ ok reply
    → (content_total reply.chunks ≡ length reply.content)
      × (think_total reply.chunks ≡ length reply.reasoning)
unfolding chat_stream
chat_stream-accounts clock loads parse_int tokenize send limit model r reply h =
    let (_, _, h1) = bind_ok (check_prompt tokenize parse_int limit (stream_body model r)) _ h in
    by_sent (send (stream_body model r)) h1
  where
    by_sent :
        (s : Sent)
        → received clock loads parse_int tokenize send limit model s ≡ ok reply
        → (content_total reply.chunks ≡ length reply.content)
          × (think_total reply.chunks ≡ length reply.reasoning)
    by_sent http_error h = cc
    by_sent (lines ls) h =
        let (st, p, h1) = bind_ok (read_lines clock loads start ls) _ h in
        let parts = reply_of-parts clock parse_int st reply h1 in
        let a =
          read_lines_keeps clock Accounted (take_delta-Accounted clock)
            (λ s u h. usage-Accounted s u h) loads start ls st p start-Accounted in
        (
          sym (ap content_total parts.2) ∙ a.content_chars reply.content parts.0,
          sym (ap think_total parts.2) ∙ a.think_chars reply.reasoning parts.1,
        )
    by_sent (broken ls) h = let (_, _, h1) = bind_ok (read_lines clock loads start ls) _ h in cc
