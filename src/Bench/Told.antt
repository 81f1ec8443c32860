-- ===== src/Bench/Told.antt =====
-- What the transcript of a session of bench/agentic.py tells: the messages of each turn, and the ids
-- that join the calls of an answer to their results.
use qwen38_flash_next_sglang.Prelude.{
  ℕ, zero, suc, ◌+◌, ◌≡◌, refl, ap, ◌∙◌, Option, none, some, List, [], ◌∷◌, ◌++◌, map, Text, codes,
  arith,
}
use mathlib.Core.Path.{subst}
use qwen38_flash_next_sglang.Json.{Value, str, arr, obj, Result, ok, find_field, list_of}
use qwen38_flash_next_sglang.Json.Steps.{bind_ok, ok-inj}
use qwen38_flash_next_sglang.Client.Calls.{StreamReply}
use qwen38_flash_next_sglang.Bench.Quality.{message, user}
use qwen38_flash_next_sglang.Bench.ToolCalls.{Call, merged, calls_of}
use qwen38_flash_next_sglang.Bench.Graded.{list_of-items}
use qwen38_flash_next_sglang.Bench.Agentic.{
  Row, State, call_id, system, row_of, ask_of, tool_result, call_values, tool_messages,
  answer_messages, turn_step, run_turns, first_state, agentic_run,
}

abbrev pub in_object : Text → Value → Option Value
in_object k (obj fs) = find_field k fs
in_object k v = none

abbrev values_listed : Option Value → List Value
values_listed (some (arr vs)) = list_of vs
values_listed o = []

-- The calls that a message makes
abbrev pub called : Value → List Value
called v = values_listed (in_object (codes "tool_calls") v)

abbrev named : Option Value → Option Value
named none = none
named (some v) = in_object (codes "name") v

-- The name of a call's function
abbrev pub name_of : Value → Option Value
name_of v = named (in_object (codes "function") v)

-- What a turn adds after its question: the answer, with the reply's text and the calls that the row
-- names, and the results, each with the id of its call.
pub record Answered (r : StreamReply) (row : Row) (added : List Value) : Type 0 where
  pub answer : Value
  pub results : List Value
  pub parts : added ≡ answer ∷ results
  pub by_assistant : in_object (codes "role") answer ≡ some (str (codes "assistant"))
  pub text : in_object (codes "content") answer ≡ some (str r.content)
  pub names : map name_of (called answer) ≡ map (λ v. some v) row.tool_calls
  pub ids :
      map (in_object (codes "id")) (called answer) ≡ map (in_object (codes "tool_call_id")) results

-- The transcript and the rows after so many turns: the instructions, then for each turn its question,
-- to which, after all that came before, the reply was made, and what the turn adds after it.
pub data Told (ask : ℕ → List Value → Result StreamReply) (question : ℕ → Text)
    (instructions : Text) : ℕ → List Value → List Row → Type 0 where
  opened : Told ask question instructions 0 (message (codes "system") (str instructions) ∷ []) []
  turned :
      (n : ℕ) (msgs added : List Value) (rows : List Row) (r : StreamReply) (row : Row)
      → Told ask question instructions n msgs rows
      → ask (suc n) (msgs ++ user (question (suc n)) ∷ []) ≡ ok r
      → Answered r row added
      → Told ask question instructions
          (suc n)
          (msgs ++ user (question (suc n)) ∷ added)
          (rows ++ row ∷ [])

module _ (loads : Text → Option Value) (dumps : Value → Text) (shown padded : ℕ → Text)
    (str_of : Value → Text) where
  call_values_names :
      (turn i : ℕ) (calls : List Call)
      → map name_of (call_values loads dumps shown padded str_of turn i calls)
        ≡ map (λ v. some v) (map (λ c. c.0) calls)
  unfolding call_values find_field
  call_values_names turn i [] = refl
  call_values_names turn i (c ∷ calls) =
      ap (λ l. some c.0 ∷ l) (call_values_names turn (suc i) calls)

  tool_messages_ids :
      (turn i : ℕ) (calls : List Call) (results : List Value)
      → tool_messages loads dumps shown padded str_of turn i calls ≡ ok results
      → map (in_object (codes "id")) (call_values loads dumps shown padded str_of turn i calls)
        ≡ map (in_object (codes "tool_call_id")) results
  unfolding call_values tool_messages find_field
  tool_messages_ids turn i [] results h = ap (map (in_object (codes "tool_call_id"))) (ok-inj h)
  tool_messages_ids turn i (c ∷ calls) results h =
      let (result, _e, h1) = bind_ok (tool_result loads dumps shown padded str_of c.1 turn) _ h in
      let (rest, e, h2) =
        bind_ok (tool_messages loads dumps shown padded str_of turn (suc i) calls) _ h1 in
      ap (λ l. some (call_id loads dumps shown padded str_of turn i) ∷ l)
        (tool_messages_ids turn (suc i) calls rest e)
      ∙ ap (map (in_object (codes "tool_call_id"))) (ok-inj h2)

  answer_messages-Answered :
      (turn : ℕ) (r : StreamReply) (calls : List Call) (added : List Value)
      → answer_messages loads dumps shown padded str_of turn r.content calls ≡ ok added
      → Answered r (row_of loads dumps shown padded str_of turn r calls) added
  unfolding answer_messages find_field
  answer_messages-Answered turn r [] added h =
      subst (Answered r (row_of loads dumps shown padded str_of turn r [])) (ok-inj h) (record {
        answer = message (codes "assistant") (str r.content);
        results = [];
        parts = refl;
        by_assistant = refl;
        text = refl;
        names = refl;
        ids = refl;
      })
  answer_messages-Answered turn r (c ∷ calls) added h =
      let (results, e, h1) =
        bind_ok (tool_messages loads dumps shown padded str_of turn 0 (c ∷ calls)) _ h in
      let made = list_of-items (call_values loads dumps shown padded str_of turn 0 (c ∷ calls)) in
      subst (Answered r (row_of loads dumps shown padded str_of turn r (c ∷ calls))) (ok-inj h1)
        (record {
          answer = _;
          results = results;
          parts = refl;
          by_assistant = refl;
          text = refl;
          names = ap (map name_of) made ∙ call_values_names turn 0 (c ∷ calls);
          ids =
              ap (map (in_object (codes "id"))) made
              ∙ tool_messages_ids turn 0 (c ∷ calls) results e;
        })

  module _ (ask : ℕ → List Value → Result StreamReply) (turns : ℕ) where
    -- The transcript that the turns have made so far
    abbrev pub TellsSo : ℕ → State → Type 0
    TellsSo n st =
        Told ask (ask_of loads dumps shown padded str_of turns)
          (system loads dumps shown padded str_of ask turns) n st.msgs st.rows

    turn_step-TellsSo :
        (n : ℕ) (st next : State)
        → TellsSo n st
        → turn_step loads dumps shown padded str_of ask turns (suc n) st ≡ ok next
        → TellsSo (suc n) next
    unfolding turn_step
    turn_step-TellsSo n st next k h =
        let (r, replied, h1) =
          bind_ok
            (ask (suc n)
              (st.msgs ++ user (ask_of loads dumps shown padded str_of turns (suc n)) ∷ []))
            _ h in
        let (slots, _s, h2) = bind_ok (merged 0 [] r.tool_calls) _ h1 in
        let (more, e, h3) =
          bind_ok
            (answer_messages loads dumps shown padded str_of (suc n) r.content
              (calls_of loads slots).0)
            _ h2 in
        subst (TellsSo (suc n)) (ok-inj h3) (
          turned n st.msgs more st.rows r _ k replied
            (answer_messages-Answered (suc n) r (calls_of loads slots).0 more e))

    run_turns-TellsSo :
        (left done : ℕ) (st last : State)
        → TellsSo done st
        → run_turns loads dumps shown padded str_of ask turns left done st ≡ ok last
        → TellsSo (left + done) last
    unfolding run_turns
    run_turns-TellsSo zero done st last k h =
        subst (λ n. TellsSo n last) (omega arith) (subst (TellsSo done) (ok-inj h) k)
    run_turns-TellsSo (suc left) done st last k h =
        let (next, e, h1) =
          bind_ok (turn_step loads dumps shown padded str_of ask turns (suc done) st) _ h in
        subst (λ n. TellsSo n last) (omega arith)
          (run_turns-TellsSo left (suc done) next last (turn_step-TellsSo done st next k e) h1)

    pub agentic_run-TellsSo :
        (last : State)
        → agentic_run loads dumps shown padded str_of ask turns ≡ ok last
        → TellsSo turns last
    unfolding agentic_run
    agentic_run-TellsSo last h =
        subst (λ n. TellsSo n last) (omega arith)
          (run_turns-TellsSo turns 0 (first_state loads dumps shown padded str_of ask turns) last
            opened h)
