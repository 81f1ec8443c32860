-- ===== src/Bfcl/Closed.antt =====
-- A conversation in which each answer with tool calls is followed by the results of those calls, in
-- their order, and nothing else is a result.
use qwen38_flash_next_sglang.Prelude.{
  ◌≡◌, refl, Bool, true, false, ◌&&◌, List, [], ◌∷◌, ◌++◌, Text, ◌==◌, arith,
}
use qwen38_flash_next_sglang.Json.{Value}
use qwen38_flash_next_sglang.Bfcl.{Call}
use qwen38_flash_next_sglang.Bfcl.Run.{CallId, Message, given, said, called, result, results}
use qwen38_flash_next_sglang.Bfcl.Cases.{given_all}

abbrev pub same_id : CallId → CallId → Bool
same_id a b = (a.turn == b.turn) && ((a.step == b.step) && (a.call == b.call))

abbrev pub ids_of : List (CallId × Call) → List CallId
ids_of [] = []
ids_of (c ∷ cs) = c.0 ∷ ids_of cs

-- The results that are awaited, and the rest of the conversation.
unfoldable pub closed : List CallId → List Message → Bool
closed [] [] = true
closed [] (given v ∷ ms) = closed [] ms
closed [] (said t ∷ ms) = closed [] ms
closed [] (called t calls ∷ ms) = closed (ids_of calls) ms
closed [] (result i name ∷ ms) = false
closed (i ∷ is) [] = false
closed (i ∷ is) (m ∷ ms) = elim m [ result j name ↦ same_id i j && closed is ms | _ ↦ false ]

same_id_refl : (i : CallId) → same_id i i ≡ true
same_id_refl i = ground arith

and_mono : (b c d : Bool) → b && c ≡ true → (c ≡ true → d ≡ true) → b && d ≡ true
and_mono true c d h f = f h
and_mono false c d h f = cc

pub closed-append :
    (is : List CallId) (ms ns : List Message)
    → closed is ms ≡ true
    → closed [] ns ≡ true
    → closed is (ms ++ ns) ≡ true
unfolding closed
closed-append [] [] ns h k = k
closed-append [] (given v ∷ ms) ns h k = closed-append [] ms ns h k
closed-append [] (said t ∷ ms) ns h k = closed-append [] ms ns h k
closed-append [] (called t calls ∷ ms) ns h k = closed-append (ids_of calls) ms ns h k
closed-append [] (result i name ∷ ms) ns h k = cc
closed-append (i ∷ is) [] ns h k = cc
closed-append (i ∷ is) (given v ∷ ms) ns h k = cc
closed-append (i ∷ is) (said t ∷ ms) ns h k = cc
closed-append (i ∷ is) (called t calls ∷ ms) ns h k = cc
closed-append (i ∷ is) (result j name ∷ ms) ns h k =
    and_mono (same_id i j) (closed is ms) _ h (λ q. closed-append is ms ns q k)

pub closed-given : (vs : List Value) → closed [] (given_all vs) ≡ true
unfolding closed
closed-given [] = refl
closed-given (v ∷ vs) = closed-given vs

closed-results : (cs : List (CallId × Call)) → closed (ids_of cs) (results cs) ≡ true
unfolding closed
closed-results [] = refl
closed-results (c ∷ cs) = rw (same_id_refl c.0) (closed-results cs)

pub closed-called :
    (t : Text) (cs : List (CallId × Call)) → closed [] (called t cs ∷ results cs) ≡ true
unfolding closed
closed-called t cs = closed-results cs

pub closed-said : (t : Text) → closed [] (said t ∷ []) ≡ true
unfolding closed
closed-said t = refl
