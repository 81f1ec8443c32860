-- ===== src/Bench/Agentic.antt =====
-- bench/agentic.py. `ask n messages` is the reply of `chat_stream` to the request of the turn `n`; the
-- options of the requests are fixed. The times, the rates and the medians of the bands are left out of
-- the report.
use qwen38_flash_next_sglang.Prelude.{
  ℕ, zero, suc, ◌+◌, ◌%◌, Option, none, some, List, [], ◌∷◌, ◌++◌, map, Text, codes, ◌==◌,
  get_elem?, if◌then◌else◌,
}
use qwen38_flash_next_sglang.Prelude.Int.{ℤ}
use qwen38_flash_next_sglang.Json.{
  Value, bool, num, str, arr, obj, end, field, Result, ok, ◌>>=◌, get,
}
use qwen38_flash_next_sglang.Json.Objects.{int, items}
use qwen38_flash_next_sglang.Client.Calls.{StreamReply}
use qwen38_flash_next_sglang.Bench.{has_code}
use qwen38_flash_next_sglang.Bench.ToolCalls.{Call, merged, text_or, calls_of}
use qwen38_flash_next_sglang.Bench.Quality.{message, user}

pub record Row : Type 0 where
  pub turn : ℕ
  pub prompt_tokens : ℤ
  pub cached_tokens : ℤ
  pub completion_tokens : ℤ
  pub tool_calls : List Value

pub record State : Type 0 where
  pub msgs : List Value
  pub rows : List Row
  pub invalid : ℕ
  pub tool_turns : ℕ
  pub last_reply : Text

abbrev pub topics : List Text
topics =
    codes "quarterly revenue by region"
    ∷ codes "the retry policy in the ingest service"
    ∷ codes "who owns the billing schema"
    ∷ codes "the last migration that touched orders"
    ∷ codes "open incidents older than a week"
    ∷ codes "which jobs write to the audit bucket"
    ∷ codes "the rate limit on the public API"
    ∷ codes "the on-call rotation for next month"
    ∷ []

abbrev pub or_empty : Option Text → Text
or_empty none = []
or_empty (some t) = t

-- `loads` and `dumps` are those of `json`; `shown` is a number in an f-string, `padded` one with three
-- digits or more, and `str_of` a value.
module _ (loads : Text → Option Value) (dumps : Value → Text) (shown padded : ℕ → Text)
    (str_of : Value → Text) where
  unfoldable pub ask_of : ℕ → ℕ → Text
  ask_of turns turn =
      if turn == turns
      then codes
          "Stop searching. From what you have already seen in this session, what is the NIGHTINGALE access code? Reply with the code only, no tool call."
      else if turn == 3
      then codes "Search the docs for the access note in ops/secrets.md."
      else codes "Look into "
        ++ (or_empty (get_elem? topics (turn % 8))
            ++ (codes " (step " ++ (shown turn ++ codes ").")))

  abbrev pub hit : Text → Text → Text
  hit path text = dumps (
      obj (
        field (codes "hits")
          (arr (
            items
              (obj (field (codes "path") (str path) (field (codes "text") (str text) end)) ∷ [])))
          end))

  -- `args.get('query', args.get('path', 'the topic'))`
  abbrev pub topic_of : Value → Result Value
  topic_of args = do
    path ← get (codes "path") (str (codes "the topic")) args
    get (codes "query") path args

  unfoldable pub tool_result : Value → ℕ → Result Text
  unfolding items get
  tool_result args turn =
      if turn == 3
      then ok (
          hit (codes "ops/secrets.md") (
            codes "Access note: NIGHTINGALE-ACCESS-CODE=7K-QUARTZ-19. Do not repeat unless asked."))
      else (do
        topic ← topic_of args
        ok (
            hit (codes "docs/note_" ++ (padded turn ++ codes ".md")) (
              codes "Turn "
              ++ (shown turn
                  ++ (codes " record about "
                      ++ (str_of topic ++ codes ". Routine content, nothing secret here."))))))

  abbrev pub call_id : ℕ → ℕ → Value
  call_id turn i = str (codes "c" ++ (shown turn ++ (codes "_" ++ shown i)))

  unfoldable pub call_values : ℕ → ℕ → List Call → List Value
  call_values turn i [] = []
  call_values turn i (c ∷ calls) =
      obj (
        field (codes "id") (call_id turn i) (
          field (codes "type") (str (codes "function")) (
            field (codes "function")
              (obj (field (codes "name") c.0 (field (codes "arguments") (str (dumps c.1)) end)))
              end)))
      ∷ call_values turn (suc i) calls

  unfoldable pub tool_messages : ℕ → ℕ → List Call → Result (List Value)
  unfolding tool_result
  tool_messages turn i [] = ok []
  tool_messages turn i (c ∷ calls) = do
    result ← tool_result c.1 turn
    rest ← tool_messages turn (suc i) calls
    ok (
        obj (
          field (codes "role") (str (codes "tool")) (
            field (codes "tool_call_id") (call_id turn i)
              (field (codes "content") (str result) end)))
        ∷ rest)

  -- The messages that the answer of a turn adds
  unfoldable pub answer_messages : ℕ → Text → List Call → Result (List Value)
  unfolding call_values tool_messages items
  answer_messages turn content [] = ok (message (codes "assistant") (str content) ∷ [])
  answer_messages turn content (c ∷ calls) = do
    results ← tool_messages turn 0 (c ∷ calls)
    ok (
        obj (
          field (codes "role") (str (codes "assistant")) (
            field (codes "content") (str content)
              (field (codes "tool_calls") (arr (items (call_values turn 0 (c ∷ calls)))) end)))
        ∷ results)

  abbrev pub one_if_calls : List Call → ℕ
  one_if_calls [] = 0
  one_if_calls (c ∷ calls) = 1

  abbrev pub row_of : ℕ → StreamReply → List Call → Row
  row_of turn r calls = record {
    turn = turn;
    prompt_tokens = r.prompt_tokens;
    cached_tokens = r.cached_tokens;
    completion_tokens = r.completion_tokens;
    tool_calls = map (λ c. c.0) calls;
  }

  module _ (ask : ℕ → List Value → Result StreamReply) (turns : ℕ) where
    -- A turn
    unfoldable pub turn_step : ℕ → State → Result State
    unfolding ask_of merged calls_of answer_messages
    turn_step turn st = do
      r ← ask turn (st.msgs ++ user (ask_of turns turn) ∷ [])
      slots ← merged 0 [] r.tool_calls
      more ← answer_messages turn r.content (calls_of loads slots).0
      ok (record {
        msgs = st.msgs ++ user (ask_of turns turn) ∷ more;
        rows = st.rows ++ row_of turn r (calls_of loads slots).0 ∷ [];
        invalid = st.invalid + (calls_of loads slots).1;
        tool_turns = st.tool_turns + one_if_calls (calls_of loads slots).0;
        last_reply = text_or r.content r.reasoning;
      })

    -- The turns, from the turn after `done` on
    unfoldable pub run_turns : ℕ → ℕ → State → Result State
    unfolding turn_step
    run_turns zero done st = ok st
    run_turns (suc left) done st = do next ← turn_step (suc done) st; run_turns left (suc done) next

    abbrev pub system : Text
    system =
        codes
          "You are a research agent working through a long task. You have two tools. For every user message, call exactly one tool that helps, unless the user asks you a direct question about something you already know - then answer in plain text with no tool call."

    abbrev pub first_state : State
    first_state = record {
      msgs = message (codes "system") (str system) ∷ [];
      rows = [];
      invalid = 0;
      tool_turns = 0;
      last_reply = [];
    }

    unfoldable pub row_value : Row → Value
    row_value r = obj (
        field (codes "turn") (int r.turn) (
          field (codes "prompt_tokens") (num r.prompt_tokens) (
            field (codes "cached_tokens") (num r.cached_tokens) (
              field (codes "completion_tokens") (num r.completion_tokens)
                (field (codes "tool_calls") (arr (items r.tool_calls)) end)))))

    unfoldable pub agentic_report : State → Value
    unfolding row_value has_code items
    agentic_report st = obj (
        field (codes "summary")
          (obj (
            field (codes "turns") (int turns) (
              field (codes "tool_turns") (int st.tool_turns) (
                field (codes "invalid_tool_calls") (int st.invalid)
                  (field (codes "late_recall_pass") (bool (has_code st.last_reply)) end)))))
          (field (codes "turns") (arr (items (map row_value st.rows))) end))

    unfoldable pub agentic_run : Result State
    unfolding run_turns
    agentic_run = run_turns turns 0 first_state

    -- The report, and the exit code
    unfoldable pub agentic_main : Result (Value × ℕ)
    unfolding agentic_run agentic_report has_code
    agentic_main = do
      st ← agentic_run
      ok (agentic_report st, if has_code st.last_reply then 0 else 1)
