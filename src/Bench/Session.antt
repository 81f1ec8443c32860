-- ===== src/Bench/Session.antt =====
-- What `validate` of scripts/experiment.py makes of the report of a session of bench/agentic.py.
use qwen38_flash_next_sglang.Prelude.{
  ℕ, zero, suc, ◌+◌, ◌<◌, ◌≡◌, ◌↔◌, ◌⊎◌, refl, sym, ap, ◌∙◌, inl, inr, true, false, Option, List,
  [], map, length, Text, arith,
}
use mathlib.Core.Path.{subst}
use qwen38_flash_next_sglang.Prelude.Int.{ℤ}
use qwen38_flash_next_sglang.Json.{
  Value, arr, Result, ok, item, find_field, equals, exceeds, is_true, size,
}
use qwen38_flash_next_sglang.Json.Objects.{items}
use qwen38_flash_next_sglang.Json.Steps.{bind_ok, ok-inj}
use qwen38_flash_next_sglang.Client.Calls.{StreamReply}
use qwen38_flash_next_sglang.Experiment.{Suite}
use qwen38_flash_next_sglang.Experiment.Validate.{agentic_passes, validate}
use qwen38_flash_next_sglang.Bench.{has_code, without_spaces}
use qwen38_flash_next_sglang.Bench.Soaked.{length-items}
use qwen38_flash_next_sglang.Bench.Agentic.{
  Row, State, run_turns, row_value, agentic_report, agentic_run, agentic_main,
}
use qwen38_flash_next_sglang.Bench.Turns.{messages_of, all_tools, agentic_run-Kept}
use qwen38_flash_next_sglang.Bench.Told.{TellsSo, agentic_run-TellsSo}

module _ (loads : Text → Option Value) (dumps : Value → Text) (shown padded : ℕ → Text)
    (str_of : Value → Text) where
  module _ (ask : ℕ → List Value → Result StreamReply) (turns : ℕ) where
    size_rows :
        (rows : List Row)
        → size (arr (items (map (row_value loads dumps shown padded str_of ask turns) rows)))
          ≡ ok (length rows)
    unfolding size
    size_rows rows = ap ok (length-items (row_value loads dumps shown padded str_of ask turns) rows)

    report_iff :
        (st : State)
        → length st.rows ≡ turns
        → (agentic_passes (agentic_report loads dumps shown padded str_of ask turns st) ≡ ok true)
          ↔ ((st.invalid ≡ 0) × (has_code st.last_reply ≡ true) × (0 < turns))
    unfolding agentic_passes agentic_report item find_field equals exceeds is_true has_code
    report_iff st h = rw (size_rows st.rows) (rw h (λ k. ground arith, λ k. ground arith))

  -- No turn, no code
  no_code : has_code [] ≡ false
  unfolding has_code without_spaces
  no_code = refl

  has_turns :
      (ask : ℕ → List Value → Result StreamReply) (turns : ℕ) (st : State)
      → agentic_run loads dumps shown padded str_of ask turns ≡ ok st
      → has_code st.last_reply ≡ true
      → 0 < turns
  unfolding agentic_run run_turns
  has_turns ask zero st h c =
      let blank = ap (λ s. has_code s.last_reply) (ok-inj h) in cc (sym no_code ∙ (blank ∙ c))
  has_turns ask (suc turns) st h c = omega arith

  is_agentic :
      (s : Suite)
      → (s ≡ Suite.agentic_off) ⊎ (s ≡ Suite.agentic_on)
      → (float_text : Text → Option ℤ) (report : Value)
      → validate float_text s report ≡ agentic_passes report
  unfolding validate
  is_agentic s (inl e) float_text report = ap (λ s. validate float_text s report) e
  is_agentic s (inr e) float_text report = ap (λ s. validate float_text s report) e

-- If `main` of bench/agentic.py comes to its end, then so did its turns, each with a row. `validate`
-- accepts the report that it wrote exactly if the exit code is 0 and no call of a tool was invalid, and
-- then every call in the rows names one of the two tools. The transcript has the instructions, and then
-- for each turn the turn's question, the answer with the text of the reply to all that stands before
-- it, and one result for each call of the answer, in order and with the id of the call; the answer's
-- calls name what the turn's row does.
pub agentic_main-Accepted :
    (loads : Text → Option Value) (dumps : Value → Text) (shown padded : ℕ → Text)
    (str_of : Value → Text) (ask : ℕ → List Value → Result StreamReply) (turns : ℕ)
    (made : Value × ℕ) (s : Suite) (float_text : Text → Option ℤ)
    → agentic_main loads dumps shown padded str_of ask turns ≡ ok made
    → (s ≡ Suite.agentic_off) ⊎ (s ≡ Suite.agentic_on)
    → (st : State) × (agentic_run loads dumps shown padded str_of ask turns ≡ ok st)
      × ((validate float_text s made.0 ≡ ok true) ↔ ((made.1 ≡ 0) × (st.invalid ≡ 0)))
      × (length st.rows ≡ turns)
      × (length st.msgs ≡ 1 + messages_of st.rows)
      × (st.invalid ≡ 0 → all_tools st.rows ≡ true)
      × TellsSo loads dumps shown padded str_of ask turns turns st
unfolding agentic_main
agentic_main-Accepted loads dumps shown padded str_of ask turns made s float_text h which =
    let (st, e, h1) = bind_ok (agentic_run loads dumps shown padded str_of ask turns) _ h in
    let k = agentic_run-Kept loads dumps shown padded str_of ask turns st e in
    let both = report_iff loads dumps shown padded str_of ask turns st k.turned in
    let some_turn = has_turns loads dumps shown padded str_of ask turns st e in
    (
      st,
      e,
      subst (λ m. (validate float_text s m.0 ≡ ok true) ↔ ((m.1 ≡ 0) × (st.invalid ≡ 0)))
          (ok-inj h1)
          (rw
            (is_agentic loads dumps shown padded str_of s which float_text
              (agentic_report loads dumps shown padded str_of ask turns st))
            (λ a. ground (arith, both.0 a), λ b. both.1 (ground (arith, b, some_turn)))),
      k.turned,
      k.messages,
      k.tools,
      agentic_run-TellsSo loads dumps shown padded str_of ask turns st e,
    )
