-- ===== src/Bench/Turns.antt =====
-- What a session of bench/agentic.py has done once its turns are over.
use qwen38_flash_next_sglang.Prelude.{
  ℕ, zero, suc, ◌+◌, ◌≡◌, refl, sym, ap, ◌∙◌, Bool, true, ◌&&◌, Option, List, [], ◌∷◌, ◌++◌, map,
  all, length, length-append, Text, arith,
}
use mathlib.Core.Path.{subst}
use qwen38_flash_next_sglang.Json.{Value, Result, ok, size}
use qwen38_flash_next_sglang.Json.Steps.{bind_ok, ok-inj}
use qwen38_flash_next_sglang.Client.Calls.{StreamReply}
use qwen38_flash_next_sglang.Bench.Quality.{user}
use qwen38_flash_next_sglang.Bench.ToolCalls.{Slot, Call, merged, is_tool, calls_of}
use qwen38_flash_next_sglang.Bench.Agentic.{
  Row, State, row_of, ask_of, tool_result, tool_messages, answer_messages, turn_step, run_turns,
  first_state, agentic_run,
}

length-map : {A B : Type 0} (f : A → B) (xs : List A) → length (map f xs) ≡ length xs
length-map f [] = refl
length-map f (x ∷ xs) = ap suc (length-map f xs)

all_rows-append :
    (p : Row → Bool) (rs : List Row) (r : Row) → all p (rs ++ r ∷ []) ≡ all p rs && p r
all_rows-append p [] r = ground arith
all_rows-append p (x ∷ xs) r = ground (arith, all_rows-append p xs r)

-- For each turn, a question, an answer, and a result of each call
unfoldable pub messages_of : List Row → ℕ
messages_of [] = 0
messages_of (r ∷ rs) = 2 + length r.tool_calls + messages_of rs

messages_of-append :
    (rs : List Row) (r : Row)
    → messages_of (rs ++ r ∷ []) ≡ messages_of rs + (2 + length r.tool_calls)
unfolding messages_of
messages_of-append [] r = omega arith
messages_of-append (x ∷ xs) r = omega (arith, messages_of-append xs r)

abbrev pub all_tools : List Row → Bool
all_tools rows = all (λ r. all is_tool r.tool_calls) rows

module _ (loads : Text → Option Value) (dumps : Value → Text) (shown padded : ℕ → Text)
    (str_of : Value → Text) where
  -- The names of the calls, if nothing is invalid
  calls_of-tools :
      (slots : List Slot)
      → (calls_of loads slots).1 ≡ 0
      → all is_tool (map (λ c. c.0) (calls_of loads slots).0) ≡ true
  unfolding calls_of
  calls_of-tools [] h = refl
  calls_of-tools (s ∷ slots) h = ground (arith, calls_of-tools slots)

  length-tool_messages :
      (turn i : ℕ) (calls : List Call) (more : List Value)
      → tool_messages loads dumps shown padded str_of turn i calls ≡ ok more
      → length more ≡ length calls
  unfolding tool_messages
  length-tool_messages turn i [] more h = ap length (sym (ok-inj h))
  length-tool_messages turn i (c ∷ calls) more h =
      let (result, _e, h1) = bind_ok (tool_result loads dumps shown padded str_of c.1 turn) _ h in
      let (rest, e, h2) =
        bind_ok (tool_messages loads dumps shown padded str_of turn (suc i) calls) _ h1 in
      ap length (sym (ok-inj h2)) ∙ ap suc (length-tool_messages turn (suc i) calls rest e)

  length-answer_messages :
      (turn : ℕ) (content : Text) (calls : List Call) (more : List Value)
      → answer_messages loads dumps shown padded str_of turn content calls ≡ ok more
      → length more ≡ suc (length calls)
  unfolding answer_messages
  length-answer_messages turn content [] more h = ap length (sym (ok-inj h))
  length-answer_messages turn content (c ∷ calls) more h =
      let (results, e, h1) =
        bind_ok (tool_messages loads dumps shown padded str_of turn 0 (c ∷ calls)) _ h in
      ap length (sym (ok-inj h1)) ∙ ap suc (length-tool_messages turn 0 (c ∷ calls) results e)

  -- After so many turns
  pub record Kept (n : ℕ) (st : State) : Type 0 where
    pub turned : length st.rows ≡ n
    pub messages : length st.msgs ≡ 1 + messages_of st.rows
    pub tools : st.invalid ≡ 0 → all_tools st.rows ≡ true

  add_turn-Kept :
      (n turn : ℕ) (st : State) (r : StreamReply) (question : Value) (calls : List Call) (bad : ℕ)
      (more : List Value) (tool_turns : ℕ) (last : Text)
      → Kept n st
      → length more ≡ suc (length calls)
      → (bad ≡ 0 → all is_tool (map (λ c. c.0) calls) ≡ true)
      → Kept (suc n) (record {
        msgs = st.msgs ++ question ∷ more;
        rows = st.rows ++ row_of loads dumps shown padded str_of turn r calls ∷ [];
        invalid = st.invalid + bad;
        tool_turns = tool_turns;
        last_reply = last;
      })
  add_turn-Kept n turn st r question calls bad more tool_turns last k size good =
      let row = row_of loads dumps shown padded str_of turn r calls in
      record {
        turned = omega (arith, length-append st.rows (row ∷ []), k.turned);
        messages = omega (
          arith,
          length-append st.msgs (question ∷ more),
          messages_of-append st.rows row,
          size,
          k.messages,
          length-map (λ c. c.0) calls,
        );
        tools = λ h.
            all_rows-append (λ r. all is_tool r.tool_calls) st.rows row
            ∙ ground (arith, k.tools (omega (arith, h)), good (omega (arith, h)));
      }

  module _ (ask : ℕ → List Value → Result StreamReply) (turns : ℕ) where
    turn_step-Kept :
        (n turn : ℕ) (st next : State)
        → Kept n st
        → turn_step loads dumps shown padded str_of ask turns turn st ≡ ok next
        → Kept (suc n) next
    unfolding turn_step
    turn_step-Kept n turn st next k h =
        let (r, _r, h1) =
          bind_ok
            (ask turn (st.msgs ++ user (ask_of loads dumps shown padded str_of turns turn) ∷ [])) _
            h in
        let (slots, _s, h2) = bind_ok (merged 0 [] r.tool_calls) _ h1 in
        let (more, e, h3) =
          bind_ok
            (answer_messages loads dumps shown padded str_of turn r.content
              (calls_of loads slots).0)
            _ h2 in
        subst (Kept (suc n)) (ok-inj h3) (
          add_turn-Kept n turn st r _ (calls_of loads slots).0 (calls_of loads slots).1 more _ _ k
            (length-answer_messages turn r.content (calls_of loads slots).0 more e)
            (calls_of-tools slots))

    run_turns-Kept :
        (left done : ℕ) (st last : State)
        → Kept done st
        → run_turns loads dumps shown padded str_of ask turns left done st ≡ ok last
        → Kept (left + done) last
    unfolding run_turns
    run_turns-Kept zero done st last k h =
        subst (λ n. Kept n last) (omega arith) (subst (Kept done) (ok-inj h) k)
    run_turns-Kept (suc left) done st last k h =
        let (next, e, h1) =
          bind_ok (turn_step loads dumps shown padded str_of ask turns (suc done) st) _ h in
        subst (λ n. Kept n last) (omega arith)
          (run_turns-Kept left (suc done) next last (turn_step-Kept done (suc done) st next k e) h1)

    -- The state in which the turns end
    pub agentic_run-Kept :
        (last : State)
        → agentic_run loads dumps shown padded str_of ask turns ≡ ok last
        → Kept turns last
    unfolding agentic_run messages_of
    agentic_run-Kept last h =
        subst (λ n. Kept n last) (omega arith)
          (run_turns-Kept turns 0 (first_state loads dumps shown padded str_of ask turns) last
            (record { turned = refl; messages = refl; tools = λ _. refl }) h)
