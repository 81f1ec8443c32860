-- ===== src/Client/Lines.antt =====
-- The loop of `chat_stream` of bench/client.py: what every delta keeps holds when the loop ends.
use mathlib.Core.Path.{subst}
use qwen38_flash_next_sglang.Prelude.{ℕ, ◌≡◌, Option, none, some, List, [], ◌∷◌, Text, codes}
use qwen38_flash_next_sglang.Json.{Value, null, ok, ◌>>=◌, get, iterate, or_else}
use qwen38_flash_next_sglang.Client.{empty_object}
use qwen38_flash_next_sglang.Client.Events.{
  State, empty_text, empty_list, take_delta, on_choice, on_choices, on_event, Line, line_of, other,
  done, payload, on_payload, read_lines,
}
use qwen38_flash_next_sglang.Json.Steps.{bind_ok, ok-inj}

-- `P` holds of the variables of the loop, whatever one delta and the usage of an event are.
module _ (clock : ℕ → ℕ) (P : State → Type 0)
    (delta : (st : State) (piece think tcs reason : Value) (next : State)
      → take_delta clock st piece think tcs reason ≡ ok next
      → P st
      → P next)
    (given_usage : (st : State) (u : Value) → P st → P (record st { usage = u })) where
  on_choice_keeps :
      (st : State) (ch : Value) (next : State) → on_choice clock st ch ≡ ok next → P st → P next
  unfolding on_choice
  on_choice_keeps st ch next h a =
      let (given, _, h1) = bind_ok (get (codes "delta") null ch) _ h in
      let (content, _, h2) =
        bind_ok (get (codes "content") null (or_else given empty_object)) _ h1 in
      let (think, _, h3) =
        bind_ok (get (codes "reasoning_content") null (or_else given empty_object)) _ h2 in
      let (tcs, _, h4) =
        bind_ok (get (codes "tool_calls") null (or_else given empty_object)) _ h3 in
      let (reason, _, h5) = bind_ok (get (codes "finish_reason") null ch) _ h4 in
      delta st (or_else content empty_text) (or_else think empty_text) tcs reason next h5 a

  on_choices_keeps :
      (st : State) (chs : List Value) (next : State)
      → on_choices clock st chs ≡ ok next
      → P st
      → P next
  unfolding on_choices
  on_choices_keeps st [] next h a = subst P (ok-inj h) a
  on_choices_keeps st (ch ∷ chs) next h a =
      let (mid, p, h1) = bind_ok (on_choice clock st ch) _ h in
      on_choices_keeps mid chs next h1 (on_choice_keeps st ch mid p a)

  on_event_keeps :
      (st : State) (ev : Value) (next : State) → on_event clock st ev ≡ ok next → P st → P next
  unfolding on_event
  on_event_keeps st ev next h a =
      let (given, _, h1) = bind_ok (get (codes "usage") null ev) _ h in
      let (choices, _, h2) = bind_ok (get (codes "choices") null ev) _ h1 in
      let (chs, _, h3) = bind_ok (iterate (or_else choices empty_list)) _ h2 in
      on_choices_keeps _ chs next h3 (given_usage st _ a)

  module _ (loads : Text → Option Value) where
    pub read_lines_keeps :
        (st : State) (ls : List Text) (next : State)
        → read_lines clock loads st ls ≡ ok next
        → P st
        → P next
    unfolding read_lines
    read_lines_keeps st [] next h a = subst P (ok-inj h) a
    read_lines_keeps st (raw ∷ rest) next h a =
        by_line (line_of raw) h (λ mid k. read_lines_keeps mid rest next k)
      where
        by_payload :
            (o : Option Value)
            → (on_payload clock loads st o >>= (λ mid. read_lines clock loads mid rest)) ≡ ok next
            → ((mid : State) → read_lines clock loads mid rest ≡ ok next → P mid → P next)
            → P next
        by_payload none k ih = ih st k a
        by_payload (some ev) k ih =
            let (mid, p, k1) = bind_ok (on_event clock st ev) _ k in
            ih mid k1 (on_event_keeps st ev mid p a)

        by_line :
            (l : Line)
            → elim l [
              | other ↦ read_lines clock loads st rest
              | done ↦ ok st
              | payload text ↦
                  on_payload clock loads st (loads text)
                  >>= (λ mid. read_lines clock loads mid rest)
            ]
              ≡ ok next
            → ((mid : State) → read_lines clock loads mid rest ≡ ok next → P mid → P next)
            → P next
        by_line other k ih = ih st k a
        by_line done k ih = subst P (ok-inj k) a
        by_line (payload text) k ih = by_payload (loads text) k ih
