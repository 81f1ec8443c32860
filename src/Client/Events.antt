-- ===== src/Client/Events.antt =====
-- The loop of `chat_stream` of bench/client.py over the lines of a streamed answer. The clock is the
-- sequence of readings of `time.perf_counter`, in nanoseconds.
use qwen38_flash_next_sglang.Prelude.{
  ℕ, suc, ◌-◌, ◌*◌, Bool, true, false, ◌||◌, Option, none, some, List, [], ◌∷◌, ◌++◌, drop, Text,
  codes, starts_with, strip, ◌=ₜ◌, if◌then◌else◌,
}
use qwen38_flash_next_sglang.Prelude.Rounding.{round_ratio}
use qwen38_flash_next_sglang.Json.{
  Value, null, str, arr, Items, Result, ok, ◌>>=◌, get, iterate, truth, or_else, size,
}
use qwen38_flash_next_sglang.Client.{empty_object}

pub record Chunk : Type 0 where
  pub t : ℕ
  pub content_chars : ℕ
  pub think_chars : ℕ
  pub tool : Bool

-- The variables of the loop, and how often the clock has been read.
pub record State : Type 0 where
  pub content : List Value
  pub reasoning : List Value
  pub tool_calls : List Value
  pub chunks : List Chunk
  pub finish : Value
  pub usage : Value
  pub ttft : Option ℕ
  pub reads : ℕ

-- `t0` has been read.
abbrev pub start : State
start = record {
  content = [];
  reasoning = [];
  tool_calls = [];
  chunks = [];
  finish = null;
  usage = empty_object;
  ttft = none;
  reads = 1;
}

abbrev pub empty_text : Value
empty_text = str []

abbrev pub empty_list : Value
empty_list = arr Items.nil

abbrev pub or_value : Bool → Value → Value → Value
or_value b v w = if b then v else w

-- `tool_calls.extend(tcs)`, if there are any
abbrev pub extended : List Value → Value → Bool → Result (List Value)
extended calls tcs false = ok calls
extended calls tcs true = do more ← iterate tcs; ok (calls ++ more)

-- A line that is no event, the line that ends the stream, or an event, if its text is JSON.
pub data Line : Type 0 where
  other done : Line
  payload : Text → Line

abbrev pub payload_or_done : Text → Line
payload_or_done text = if text =ₜ codes "[DONE]" then done else payload text

unfoldable pub line_of : Text → Line
unfolding strip
line_of raw =
    if starts_with (strip raw) (codes "data:")
    then payload_or_done (strip (drop 5 (strip raw)))
    else other

-- `round(s, 6)`, of seconds in nanoseconds: the nearest microsecond, of two the even one
abbrev pub round6 : ℕ → ℕ
round6 n = 1000 * round_ratio n 1000

module _ (clock : ℕ → ℕ) where
  -- The seconds since `t0` at a reading.
  abbrev pub since : ℕ → ℕ
  since i = clock i - clock 0

  -- The first token's time, which reads the clock if it is not set yet.
  abbrev pub set_ttft : State → Option ℕ → State
  set_ttft st none = record st { ttft = some (since st.reads); reads = suc st.reads }
  set_ttft st (some v) = st

  abbrev pub with_ttft : State → State
  with_ttft st = set_ttft st st.ttft

  -- `chunks.append(rec)`, and the time of the first token
  abbrev pub add_chunk : State → ℕ → ℕ → Bool → State
  add_chunk st n m tool = with_ttft (record st {
    chunks =
        st.chunks
        ++ record { t = round6 (since st.reads); content_chars = n; think_chars = m; tool = tool }
          ∷ [];
    reads = suc st.reads;
  })

  unfoldable pub mark : Value → Value → Value → State → Result State
  unfolding size truth
  mark piece think tcs st = do n ← size piece; m ← size think; ok (add_chunk st n m (truth tcs))

  abbrev pub mark_if : Bool → Value → Value → Value → State → Result State
  mark_if true piece think tcs st = mark piece think tcs st
  mark_if false piece think tcs st = ok st

  abbrev pub finished : State → Value → Value → Value → List Value → State
  finished st piece think reason calls = record st {
    content = st.content ++ piece ∷ [];
    reasoning = st.reasoning ++ think ∷ [];
    finish = or_value (truth reason) reason st.finish;
    tool_calls = calls;
  }

  -- One delta: `content` and `reasoning_content` or the empty text, and `tool_calls`.
  unfoldable pub take_delta : State → Value → Value → Value → Value → Result State
  unfolding mark iterate
  take_delta st piece think tcs reason = do
    calls ← extended st.tool_calls tcs (truth tcs)
    marked ← mark_if (truth piece || (truth think || truth tcs)) piece think tcs st
    ok (finished marked piece think reason calls)

  -- `finish_reason` is read last, and after `delta` has been read `ch` is an object, so reading it
  -- cannot fail.
  unfoldable pub on_choice : State → Value → Result State
  unfolding take_delta get
  on_choice st ch = do
    given ← get (codes "delta") null ch
    content ← get (codes "content") null (or_else given empty_object)
    think ← get (codes "reasoning_content") null (or_else given empty_object)
    tcs ← get (codes "tool_calls") null (or_else given empty_object)
    reason ← get (codes "finish_reason") null ch
    take_delta st (or_else content empty_text) (or_else think empty_text) tcs reason

  unfoldable pub on_choices : State → List Value → Result State
  unfolding on_choice
  on_choices st [] = ok st
  on_choices st (ch ∷ chs) = do next ← on_choice st ch; on_choices next chs

  unfoldable pub on_event : State → Value → Result State
  unfolding on_choices
  on_event st ev = do
    given ← get (codes "usage") null ev
    choices ← get (codes "choices") null ev
    chs ← iterate (or_else choices empty_list)
    on_choices (record st { usage = or_value (truth given) given st.usage }) chs

  -- `loads t` is `none` where `json.loads` raises.
  module _ (loads : Text → Option Value) where
    abbrev pub on_payload : State → Option Value → Result State
    on_payload st none = ok st
    on_payload st (some ev) = on_event st ev

    unfoldable pub read_lines : State → List Text → Result State
    unfolding on_event line_of
    read_lines st [] = ok st
    read_lines st (raw ∷ rest) = elim (line_of raw) [
      | other ↦ read_lines st rest
      | done ↦ ok st
      | payload text ↦ on_payload st (loads text) >>= (λ next. read_lines next rest)
    ]
