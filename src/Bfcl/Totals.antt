-- ===== src/Bfcl/Totals.antt =====
-- The requests of bench/bfcl.py: how many a case makes, and what they hold.
use qwen38_flash_next_sglang.Prelude.{
  ℕ, zero, suc, ◌+◌, ◌*◌, ◌≤◌, refl, sym, Bool, Option, List, [], ◌∷◌, length, Text, codes, arith,
}
use mathlib.Core.Path.{subst}
use qwen38_flash_next_sglang.Prelude.Int.{ℤ}
use qwen38_flash_next_sglang.Json.{Value, Result, ok, err, ◌>>=◌, item, iterate}
use qwen38_flash_next_sglang.Bfcl.{Call}
use qwen38_flash_next_sglang.Client.Calls.{first_item}
use qwen38_flash_next_sglang.Bfcl.Run.{
  Message, said, Reply, Progress, add_msgs, sent, Verdict, Expected, multi_turn, no_tool, ast,
  reading,
}
use qwen38_flash_next_sglang.Bfcl.Cases.{
  Case, Missing, given_all, scored, calls_in, exchange, rounds, turns, single, on_reply, round_of,
  scored_case, run_case, verdict, first_messages, fresh,
}
use qwen38_flash_next_sglang.Bfcl.Closed.{closed, closed-given, closed-called, closed-said}
use qwen38_flash_next_sglang.Bfcl.Good.{
  Good, Good-mono, sent-Good, add_msgs-Good, and_then-Good, reading-Good,
}

module _ (ask : List (List Message) → Result Reply) (loads : Text → Option Value)
    (names : List Text) where
  scored-Good :
      (n : ℕ) (a : Reply) (s : Progress)
      → Good n s
      → Good (suc n) (scored ask loads names a (sent s))
  unfolding scored
  scored-Good n a s g = record {
    msgs_closed = g.msgs_closed;
    asked_closed = rw g.msgs_closed g.asked_closed;
    counted = omega (arith, g.counted);
    bounded = omega (arith, g.bounded);
  }

  on_reply-Good :
      {A : Type 0} (n : ℕ) (r : Result Reply) (f : Reply → Result A × Progress) (s : Progress)
      → Good n (sent s)
      → ((a : Reply) → Good n (f a).1)
      → Good n (on_reply ask loads names r f s).1
  on_reply-Good n (ok a) f s g h = h a
  on_reply-Good n (err e) f s g h = g

  round_of-Good :
      (m n ti step : ℕ) (got : List Text) (a : Reply) (s : Progress) (calls : List Call)
      (next : List Text → Progress → Result (List Text) × Progress)
      → m ≤ n
      → Good m s
      → ((names : List Text) (t : Progress) → Good m t → Good n (next names t).1)
      → Good n (round_of ask loads names ti step got a s calls next).1
  round_of-Good m n ti step got a s [] next le g h =
      Good-mono m n _ le (add_msgs-Good m (said a.content ∷ []) s (closed-said a.content) g)
  round_of-Good m n ti step got a s (c ∷ cs) next le g h =
      h _ _ (add_msgs-Good m (exchange ask loads names ti step a (c ∷ cs)) s (closed-called _ _) g)

  rounds-Good :
      (n ti left step : ℕ) (got : List Text) (s : Progress)
      → Good n s
      → Good (n + left) (rounds ask loads names ti left step got s).1
  unfolding rounds
  rounds-Good n ti zero step got s g = Good-mono n _ s (omega arith) g
  rounds-Good n ti (suc left) step got s g =
      on_reply-Good (n + suc left) (ask (s.msgs ∷ s.asked)) _ s
        (Good-mono (suc n) _ (sent s) (omega arith) (sent-Good n s g))
        (λ a.
          round_of-Good (suc n) (n + suc left) ti step got a (scored ask loads names a (sent s))
            (calls_in ask loads names a) _ (omega arith) (scored-Good n a s g)
            (λ called t h.
              Good-mono (suc n + left) _ _ (omega arith)
                (rounds-Good (suc n) ti left (suc step) called t h)))

  turns-Good :
      (word : ℕ → Bool) (n most ti : ℕ) (vs : List Value) (gts : List (List Text)) (found : Missing)
      (s : Progress)
      → Good n s
      → Good (n + length vs * most) (turns ask loads names word most ti vs gts found s).1
  unfolding turns
  turns-Good word n most ti [] gts found s g = Good-mono n _ s (omega arith) g
  turns-Good word n most ti (turn ∷ rest) gts found s g =
      reading-Good _ _ _ _ (Good-mono n _ s (omega arith) g) (λ vs e.
        let told = add_msgs-Good n (given_all vs) s (closed-given vs) g in
        let turned = rounds-Good n ti most 0 [] (add_msgs (given_all vs) s) told in
        and_then-Good _ _ _ (Good-mono (n + most) _ _ (omega arith) turned) (λ got.
          Good-mono (n + most + length rest * most) _ _ (omega arith)
            (turns-Good word (n + most) most (suc ti) rest gts _ _ turned)))

  single-Good :
      (n : ℕ) (judge : List Call → Verdict) (s : Progress)
      → Good n s
      → Good (suc n) (single ask loads names judge s).1
  unfolding single
  single-Good n judge s g =
      on_reply-Good (suc n) (ask (s.msgs ∷ s.asked)) _ s (sent-Good n s g)
        (λ a. scored-Good n a s g)

-- How many requests a case may make.
abbrev pub requests_of : Expected → ℕ → Result (List Value) → ℕ
requests_of (multi_turn gts) most (ok turns) = length turns * most
requests_of (multi_turn gts) most (err e) = 0
requests_of no_tool most turns = 1
requests_of (ast gt) most turns = 1

abbrev pub turns_of : Case → Result (List Value)
turns_of case = item (codes "question") case.body >>= iterate

abbrev pub case_limit : ℕ → Case → ℕ
case_limit most case = requests_of case.expected most (turns_of case)

module _ (read_doc : Text → List Value) (ask : List Value → List (List Message) → Result Reply)
    (loads : Text → Option Value) (word : ℕ → Bool) (lower : Text → Text)
    (float_text : Text → Option ℤ) (most : ℕ) where
  judged-Good :
      (n : ℕ) (expected : Expected) (tools : List Value) (names : List Text) (question : Value)
      (s : Progress)
      → Good n s
      → Good
          (suc n)
          (reading
            (first_item question)
            (λ v s0.
              single
                (ask tools)
                loads
                names
                (verdict read_doc ask loads word lower float_text most expected names)
                (add_msgs (given_all (first_messages v)) s0))
            s).1
  judged-Good n expected tools names question s g =
      reading-Good (suc n) _ _ _ (Good-mono n _ s (omega arith) g) (λ v e.
        single-Good (ask tools) loads names n _ _
          (add_msgs-Good n _ s (closed-given (first_messages v)) g))

  scored_case-Good :
      (n : ℕ) (expected : Expected) (tools : List Value) (names : List Text) (question : Value)
      (s : Progress)
      → Good n s
      → Good
          (n + requests_of expected most (iterate question))
          (scored_case read_doc ask loads word lower float_text most expected tools names question
            s).1
  unfolding scored_case
  scored_case-Good n (multi_turn gts) tools names question s g =
      reading-Good _ (iterate question) _ _ (Good-mono n _ s (omega arith) g) (λ vs e.
        let turned =
          subst
            (λ q.
              Good (n + requests_of (multi_turn gts) most q)
                (turns (ask tools) loads names word most 0 vs gts [] s).1)
            (sym e) (turns-Good (ask tools) loads names word n most 0 vs gts [] s g) in
        and_then-Good _ _ _ turned (λ found. turned))
  scored_case-Good n no_tool tools names question s g =
      Good-mono (suc n) _ _ (omega arith) (judged-Good n no_tool tools names question s g)
  scored_case-Good n (ast gt) tools names question s g =
      Good-mono (suc n) _ _ (omega arith) (judged-Good n (ast gt) tools names question s g)

  fresh-Good : (n : ℕ) (s : Progress) → Good n s → Good n (fresh s)
  unfolding closed
  fresh-Good n s g = record {
    msgs_closed = refl;
    asked_closed = g.asked_closed;
    counted = g.counted;
    bounded = g.bounded;
  }

  pub run_case-Good :
      (n : ℕ) (case : Case) (s : Progress)
      → Good n s
      → Good
          (n + case_limit most case)
          (run_case read_doc ask loads word lower float_text most case s).1
  unfolding run_case
  run_case-Good n case s g =
      let started = fresh-Good n s g in
      let base = Good-mono n (n + case_limit most case) (fresh s) (omega arith) started in
      reading-Good _ _ _ _ base (λ t e.
        reading-Good _ (item (codes "question") case.body) _ _ base (λ q p.
          subst
            (λ r.
              Good (n + requests_of case.expected most (r >>= iterate))
                (scored_case read_doc ask loads word lower float_text most case.expected t.0 t.1 q
                  (fresh s)).1)
            (sym p) (scored_case-Good n case.expected t.0 t.1 q (fresh s) started)))
