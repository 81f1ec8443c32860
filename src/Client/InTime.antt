-- ===== src/Client/InTime.antt =====
-- `chat_stream` of bench/client.py: the times of the answer lie within the request.
use qwen38_flash_next_sglang.Prelude.{
  ℕ, suc, ◌+◌, ◌≤◌, ◌≡◌, Bool, true, false, ◌||◌, Option, none, some, List, [], ◌∷◌, ◌++◌, Text,
  arith,
}
use qwen38_flash_next_sglang.Prelude.Rounding.{round_ratio}
use mathlib.Core.Path.{subst}
use qwen38_flash_next_sglang.Prelude.Int.{ℤ}
use qwen38_flash_next_sglang.Json.{Value, Fields, Result, ok, truth, size}
use qwen38_flash_next_sglang.Client.{Request, stream_body, check_prompt}
use qwen38_flash_next_sglang.Client.Events.{
  Chunk, State, start, since, round6, set_ttft, add_chunk, mark, mark_if, extended, take_delta,
  read_lines,
}
use qwen38_flash_next_sglang.Client.Calls.{
  join, StreamReply, counts_of, ttft_or, reply_of, Sent, http_error, lines, broken, chat_stream,
  received,
}
use qwen38_flash_next_sglang.Json.Steps.{bind_ok, ok-inj}
use qwen38_flash_next_sglang.Client.Lines.{read_lines_keeps}

abbrev pub AllBefore : ℕ → List Chunk → Type 0
AllBefore b [] = Unit {0}
AllBefore b (c ∷ cs) = (c.t ≤ b) × AllBefore b cs

abbrev pub Before : ℕ → Option ℕ → Type 0
Before b none = Unit {0}
Before b (some t) = t ≤ b

-- `time.perf_counter` does not go back.
abbrev pub Rising : (ℕ → ℕ) → Type 0
Rising clock = (i : ℕ) → clock i ≤ clock (suc i)

AllBefore-mono : {a b : ℕ} (cs : List Chunk) → a ≤ b → AllBefore a cs → AllBefore b cs
AllBefore-mono [] l h = tt
AllBefore-mono (c ∷ cs) l (p, h) = (omega arith, AllBefore-mono cs l h)

AllBefore-snoc :
    (b : ℕ) (cs : List Chunk) (c : Chunk) → AllBefore b cs → c.t ≤ b → AllBefore b (cs ++ c ∷ [])
AllBefore-snoc b [] c h l = (l, tt)
AllBefore-snoc b (d ∷ cs) c (p, h) l = (p, AllBefore-snoc b cs c h l)

Before-mono : {a b : ℕ} (o : Option ℕ) → a ≤ b → Before a o → Before b o
Before-mono none l h = tt
Before-mono (some t) l h = omega arith

-- The nearest microsecond is half a microsecond away at most.
round6_near : (n : ℕ) → round6 n ≤ n + 500
unfolding round_ratio
round6_near n = ground arith

module _ (clock : ℕ → ℕ) (rising : Rising clock) where
  -- What has been timed was timed by now.
  record InTime (st : State) : Type 0 where
    chunks : AllBefore (since clock st.reads + 500) st.chunks
    ttft : Before (since clock st.reads) st.ttft

  later : (i : ℕ) → since clock i ≤ since clock (suc i)
  later i = omega (arith, rising i)

  set_ttft-InTime : (st : State) (o : Option ℕ) → InTime st → InTime (set_ttft clock st o)
  set_ttft-InTime st none h = record {
    chunks = AllBefore-mono st.chunks (omega (arith, later st.reads)) h.chunks;
    ttft = later st.reads;
  }
  set_ttft-InTime st (some v) h = h

  add_chunk-InTime :
      (st : State) (n m : ℕ) (tool : Bool) → InTime st → InTime (add_chunk clock st n m tool)
  add_chunk-InTime st n m tool h = set_ttft-InTime _ st.ttft (record {
    chunks =
        AllBefore-snoc _ st.chunks _
          (AllBefore-mono st.chunks (omega (arith, later st.reads)) h.chunks)
          (omega (arith, later st.reads, round6_near (since clock st.reads)));
    ttft = Before-mono st.ttft (later st.reads) h.ttft;
  })

  mark_if-InTime :
      (b : Bool) (piece think tcs : Value) (st marked : State)
      → mark_if clock b piece think tcs st ≡ ok marked
      → InTime st
      → InTime marked
  unfolding mark
  mark_if-InTime false piece think tcs st marked e h = subst InTime (ok-inj e) h
  mark_if-InTime true piece think tcs st marked e h =
      let (n, _, e1) = bind_ok (size piece) _ e in
      let (m, _, e2) = bind_ok (size think) _ e1 in
      subst InTime (ok-inj e2) (add_chunk-InTime st n m (truth tcs) h)

  take_delta-InTime :
      (st : State) (piece think tcs reason : Value) (next : State)
      → take_delta clock st piece think tcs reason ≡ ok next
      → InTime st
      → InTime next
  unfolding take_delta
  take_delta-InTime st piece think tcs reason next e h =
      let (calls, _, e1) = bind_ok (extended st.tool_calls tcs (truth tcs)) _ e in
      let (marked, p, e2) =
        bind_ok (mark_if clock (truth piece || (truth think || truth tcs)) piece think tcs st) _
          e1 in
      let timed = mark_if-InTime _ piece think tcs st marked p h in
      subst InTime (ok-inj e2) (record { chunks = timed.chunks; ttft = timed.ttft })

  reply_of-InTime :
      (parse_int : Text → Result ℤ) (st : State) (reply : StreamReply)
      → reply_of clock parse_int st ≡ ok reply
      → InTime st
      → (reply.ttft_s ≤ reply.seconds) × AllBefore (reply.seconds + 500) reply.chunks
  unfolding reply_of
  reply_of-InTime parse_int st reply e h =
      let (n, _, e1) = bind_ok (counts_of clock parse_int st.usage) _ e in
      let (content, _, e2) = bind_ok (join st.content) _ e1 in
      let (reasoning, _, e3) = bind_ok (join st.reasoning) _ e2 in
      subst (λ r. (r.ttft_s ≤ r.seconds) × AllBefore (r.seconds + 500) r.chunks) (ok-inj e3)
        (first st.ttft h.ttft, h.chunks)
    where
      first :
          (o : Option ℕ)
          → Before (since clock st.reads) o
          → ttft_or o (since clock st.reads) ≤ since clock st.reads
      first none b = omega arith
      first (some t) b = b

  -- In every answer that `chat_stream` returns, if the clock does not go back, the time to the first
  -- token is at most the seconds of the whole request, and the time of each chunk, which is rounded to
  -- microseconds, exceeds them by at most half a microsecond. The clock is in nanoseconds.
  pub chat_stream-InTime :
      (loads : Text → Option Value) (parse_int : Text → Result ℤ) (tokenize : Fields → Result Value)
      (send : Fields → Sent) (limit : Option Text) (model : Text) (r : Request)
      (reply : StreamReply)
      → chat_stream clock loads parse_int tokenize send limit model r ≡ ok reply
      → (reply.ttft_s ≤ reply.seconds) × AllBefore (reply.seconds + 500) reply.chunks
  unfolding chat_stream
  chat_stream-InTime loads parse_int tokenize send limit model r reply h =
      let (_, _, h1) = bind_ok (check_prompt tokenize parse_int limit (stream_body model r)) _ h in
      by_sent (send (stream_body model r)) h1
    where
      by_sent :
          (s : Sent)
          → received clock loads parse_int tokenize send limit model s ≡ ok reply
          → (reply.ttft_s ≤ reply.seconds) × AllBefore (reply.seconds + 500) reply.chunks
      by_sent http_error h = cc
      by_sent (lines ls) h =
          let (st, p, h1) = bind_ok (read_lines clock loads start ls) _ h in
          reply_of-InTime parse_int st reply h1 (
            read_lines_keeps clock InTime take_delta-InTime
              (λ s u t. record { chunks = t.chunks; ttft = t.ttft }) loads start ls st p
              (record { chunks = tt; ttft = tt }))
      by_sent (broken ls) h = let (_, _, h1) = bind_ok (read_lines clock loads start ls) _ h in cc
