-- ===== src/Client/Chunks.antt =====
-- One delta in the loop of `chat_stream` of bench/client.py: the chunks and the parts of the answer
-- grow by as many characters.
use mathlib.Core.Path.{subst}
use qwen38_flash_next_sglang.Prelude.{
  ℕ, suc, ◌+◌, ◌≡◌, refl, sym, ap, ◌∙◌, Bool, true, false, ◌||◌, Option, none, some, List, [], ◌∷◌,
  ◌++◌, append-nil, append_assoc, length, length-append, Text, arith,
}
use qwen38_flash_next_sglang.Json.{Value, str, ok, truth, size}
use qwen38_flash_next_sglang.Json.Steps.{bind_ok, ok-inj}
use qwen38_flash_next_sglang.Client.Events.{
  Chunk, State, start, since, round6, set_ttft, add_chunk, mark, mark_if, extended, take_delta,
  finished,
}
use qwen38_flash_next_sglang.Client.Calls.{join}

abbrev pub content_total : List Chunk → ℕ
content_total [] = 0
content_total (c ∷ cs) = c.content_chars + content_total cs

abbrev pub think_total : List Chunk → ℕ
think_total [] = 0
think_total (c ∷ cs) = c.think_chars + think_total cs

content_total-append :
    (cs ds : List Chunk) → content_total (cs ++ ds) ≡ content_total cs + content_total ds
content_total-append [] ds = omega arith
content_total-append (c ∷ cs) ds = omega (arith, content_total-append cs ds)

think_total-append : (cs ds : List Chunk) → think_total (cs ++ ds) ≡ think_total cs + think_total ds
think_total-append [] ds = omega arith
think_total-append (c ∷ cs) ds = omega (arith, think_total-append cs ds)

-- Joining one more part wants the parts before it to be joined, and the part to be a text.
join-snoc :
    (vs : List Value) (v : Value) (t : Text)
    → join (vs ++ v ∷ []) ≡ ok t
    → (before : Text) × (last : Text) × (join vs ≡ ok before)
      × (v ≡ str last)
      × (t ≡ before ++ last)
unfolding join
join-snoc [] (str u) t h = ([], u, refl, refl, sym (ok-inj h) ∙ append-nil u)
join-snoc [] v t h = cc
join-snoc (str u ∷ vs) v t h =
    let (r, p, q) = bind_ok (join (vs ++ v ∷ [])) _ h in
    let (bf, l, e1, e2, e3) = join-snoc vs v r p in
    (u ++ bf, l, rw e1 refl, e2, sym (ok-inj q) ∙ (ap (◌++◌ u) e3 ∙ sym (append_assoc u bf l)))
join-snoc (w ∷ vs) v t h = cc

-- If the parts can be joined, the chunks have as many characters.
pub record Accounted (st : State) : Type 0 where
  pub content_chars : (t : Text) → join st.content ≡ ok t → content_total st.chunks ≡ length t
  pub think_chars : (t : Text) → join st.reasoning ≡ ok t → think_total st.chunks ≡ length t

module _ (clock : ℕ → ℕ) where
  -- What a step does to the parts and the chunks.
  record Adds (st next : State) (piece think : Value) (n m : ℕ) : Type 0 where
    content : next.content ≡ st.content ++ piece ∷ []
    reasoning : next.reasoning ≡ st.reasoning ++ think ∷ []
    content_chars : content_total next.chunks ≡ content_total st.chunks + n
    think_chars : think_total next.chunks ≡ think_total st.chunks + m
    piece_size : (t : Text) → piece ≡ str t → n ≡ length t
    think_size : (t : Text) → think ≡ str t → m ≡ length t

  Adds-Accounted :
      {st next : State} {piece think : Value} {n m : ℕ}
      → Adds st next piece think n m
      → Accounted st
      → Accounted next
  Adds-Accounted a h = record {
    content_chars = λ t e.
        (let (bf, l, e1, e2, e3) = join-snoc _ _ t (sym (ap join a.content) ∙ e) in
          omega (
            arith,
            a.content_chars,
            h.content_chars bf e1,
            a.piece_size l e2,
            ap length e3,
            length-append bf l,
          ));
    think_chars = λ t e.
        (let (bf, l, e1, e2, e3) = join-snoc _ _ t (sym (ap join a.reasoning) ∙ e) in
          omega (
            arith,
            a.think_chars,
            h.think_chars bf e1,
            a.think_size l e2,
            ap length e3,
            length-append bf l,
          ));
  }

  set_ttft-keeps :
      (st : State) (o : Option ℕ)
      → ((set_ttft clock st o).chunks ≡ st.chunks)
        × ((set_ttft clock st o).content ≡ st.content)
        × ((set_ttft clock st o).reasoning ≡ st.reasoning)
  set_ttft-keeps st none = (refl, refl, refl)
  set_ttft-keeps st (some v) = (refl, refl, refl)

  size-str : (v : Value) (n : ℕ) → size v ≡ ok n → (t : Text) → v ≡ str t → n ≡ length t
  unfolding size
  size-str v n h t e = ok-inj (sym h ∙ ap size e)

  add_chunk-Adds :
      (st : State) (piece think reason : Value) (calls : List Value) (tool : Bool) (n m : ℕ)
      → size piece ≡ ok n
      → size think ≡ ok m
      → Adds st
          (finished clock (add_chunk clock st n m tool) piece think reason calls)
          piece
          think
          n
          m
  add_chunk-Adds st piece think reason calls tool n m p q =
      let keeps =
        set_ttft-keeps
          (record st {
            chunks =
                st.chunks
                ++ record {
                  t = round6 (since clock st.reads);
                  content_chars = n;
                  think_chars = m;
                  tool = tool;
                }
                  ∷ [];
            reads = suc st.reads;
          })
          st.ttft in
      record {
        content = ap (λ c. c ++ piece ∷ []) keeps.1;
        reasoning = ap (λ c. c ++ think ∷ []) keeps.2;
        content_chars = ap content_total keeps.0 ∙ (content_total-append st.chunks _ ∙ omega arith);
        think_chars = ap think_total keeps.0 ∙ (think_total-append st.chunks _ ∙ omega arith);
        piece_size = size-str piece n p;
        think_size = size-str think m q;
      }

  marked-Adds :
      (st : State) (piece think tcs reason : Value) (calls : List Value) (marked : State)
      → mark clock piece think tcs st ≡ ok marked
      → (n : ℕ) × (m : ℕ) × Adds st (finished clock marked piece think reason calls) piece think n m
  unfolding mark
  marked-Adds st piece think tcs reason calls marked h =
      let (n, p, h1) = bind_ok (size piece) _ h in
      let (m, q, h2) = bind_ok (size think) _ h1 in
      (
        n,
        m,
        subst (λ s. Adds st (finished clock s piece think reason calls) piece think n m) (ok-inj h2)
            (add_chunk-Adds st piece think reason calls (truth tcs) n m p q),
      )

  -- A text that is not true has no characters.
  truth-str : (v : Value) (t : Text) → truth v ≡ false → v ≡ str t → 0 ≡ length t
  unfolding truth
  truth-str v [] h e = refl
  truth-str v (c ∷ t) h e = absurd (true-ne-false (sym (ap truth e) ∙ h))
    where
      true-ne-false : true ≡ false → ⊥
      true-ne-false e = cc

  unmarked-Adds :
      (st : State) (piece think reason : Value) (calls : List Value)
      → truth piece ≡ false
      → truth think ≡ false
      → Adds st (finished clock st piece think reason calls) piece think 0 0
  unmarked-Adds st piece think reason calls p q = record {
    content = refl;
    reasoning = refl;
    content_chars = omega arith;
    think_chars = omega arith;
    piece_size = λ t. truth-str piece t p;
    think_size = λ t. truth-str think t q;
  }

  or-false : (a b c : Bool) → (a || (b || c)) ≡ false → (a ≡ false) × (b ≡ false)
  or-false a b c h = ground arith

  pub take_delta-Accounted :
      (st : State) (piece think tcs reason : Value) (next : State)
      → take_delta clock st piece think tcs reason ≡ ok next
      → Accounted st
      → Accounted next
  unfolding take_delta
  take_delta-Accounted st piece think tcs reason next h a =
      let (calls, _, h1) = bind_ok (extended st.tool_calls tcs (truth tcs)) _ h in
      let (marked, p, h2) =
        bind_ok (mark_if clock (truth piece || (truth think || truth tcs)) piece think tcs st) _
          h1 in
      subst Accounted (ok-inj h2)
        (by_mark calls marked (truth piece || (truth think || truth tcs)) refl p)
    where
      by_mark :
          (calls : List Value) (marked : State) (b : Bool)
          → (truth piece || (truth think || truth tcs)) ≡ b
          → mark_if clock b piece think tcs st ≡ ok marked
          → Accounted (finished clock marked piece think reason calls)
      by_mark calls marked true e p =
          Adds-Accounted (marked-Adds st piece think tcs reason calls marked p).2 a
      by_mark calls marked false e p =
          let none_of = or-false (truth piece) (truth think) (truth tcs) e in
          subst (λ s. Accounted (finished clock s piece think reason calls)) (ok-inj p)
            (Adds-Accounted (unmarked-Adds st piece think reason calls none_of.0 none_of.1) a)

pub usage-Accounted : (st : State) (u : Value) → Accounted st → Accounted (record st { usage = u })
usage-Accounted st u a = record { content_chars = a.content_chars; think_chars = a.think_chars }

pub start-Accounted : Accounted start
unfolding join
start-Accounted = record {
  content_chars = λ t e. ap length (ok-inj e);
  think_chars = λ t e. ap length (ok-inj e);
}
