-- ===== src/Bfcl/Cases.antt =====
-- `run_case` of bench/bfcl.py.
use qwen38_flash_next_sglang.Prelude.{
  ℕ, zero, suc, Bool, true, false, not, Option, none, some, List, [], ◌∷◌, ◌++◌, map, get_elem?,
  Text, codes,
}
use qwen38_flash_next_sglang.Prelude.Int.{ℤ}
use qwen38_flash_next_sglang.Json.{Value, arr, Result, ok, err, ◌>>=◌, item, iterate, list_of}
use qwen38_flash_next_sglang.Client.Calls.{first_item}
use qwen38_flash_next_sglang.Bfcl.{Call, parse_calls, ast_match}
use qwen38_flash_next_sglang.Bfcl.Schema.{to_tools}
use qwen38_flash_next_sglang.Bfcl.Run.{
  Message, given, said, called, Reply, agg_add, bad_arguments, Progress, names_of, unknown_calls,
  with_ids, results, add_msgs, sent, Expected, multi_turn, ast, missing, calls_made,
  no_ground_truth, problem, Verdict, is_empty, add_missing, or_no_names, and_then, reading,
}
use qwen38_flash_next_sglang.Bfcl.Tools.{functions_of, tool_names, gt_names}

pub record Case : Type 0 where
  pub id : Text
  pub body : Value
  pub expected : Expected

-- A turn is scored by the names that were called in it.
abbrev pub Missing : Type 0
Missing = List (ℕ × List Text × List Text)

abbrev pub given_all : List Value → List Message
given_all vs = map given vs

-- `ask history` is the reply to the first conversation of the history, which is the last one sent; it
-- may depend on those before it.
module _ (ask : List (List Message) → Result Reply) (loads : Text → Option Value)
    (names : List Text) where
  -- `agg_add`, and what is invalid in the calls of an answer
  unfoldable pub scored : Reply → Progress → Progress
  unfolding agg_add parse_calls
  scored a s =
      let (calls, bad) = parse_calls loads a.tool_calls in
      record {
        asked = s.asked;
        agg = agg_add s.agg a;
        msgs = s.msgs;
        invalid = s.invalid ++ (map bad_arguments bad ++ unknown_calls names calls);
      }

  abbrev pub calls_in : Reply → List Call
  calls_in a = (parse_calls loads a.tool_calls).0

  -- The messages that an answer with calls adds
  abbrev pub exchange : ℕ → ℕ → Reply → List Call → List Message
  exchange ti step a calls =
      called a.content (with_ids ti step 0 calls) ∷ results (with_ids ti step 0 calls)

  -- A reply, or the `SystemExit` of `chat_stream`.
  abbrev pub on_reply {ℓ} :
      {A : Type ℓ} → Result Reply → (Reply → Result A × Progress) → Progress → Result A × Progress
  on_reply (err e) f s = (err e, sent s)
  on_reply (ok a) f s = f a

  -- A reply in a turn: without calls, it is the last one.
  abbrev pub round_of :
      ℕ
      → ℕ
      → List Text
      → Reply
      → Progress
      → List Call
      → (List Text → Progress → Result (List Text) × Progress)
      → Result (List Text) × Progress
  round_of ti step got a s [] next = (ok got, add_msgs (said a.content ∷ []) s)
  round_of ti step got a s (c ∷ cs) next =
      next (got ++ names_of (c ∷ cs)) (add_msgs (exchange ti step a (c ∷ cs)) s)

  -- One turn, with the rounds that are left of MT_MAX_STEPS.
  unfoldable pub rounds : ℕ → ℕ → ℕ → List Text → Progress → Result (List Text) × Progress
  unfolding scored parse_calls
  rounds ti zero step got s = (ok got, s)
  rounds ti (suc left) step got s =
      on_reply (ask (s.msgs ∷ s.asked))
        (λ a. round_of ti step got a (scored a (sent s)) (calls_in a) (rounds ti left (suc step))) s

  -- The turns from `ti` on.
  unfoldable pub turns :
      (ℕ → Bool)
      → ℕ
      → ℕ
      → List Value
      → List (List Text)
      → Missing
      → Progress
      → Result Missing × Progress
  unfolding rounds gt_names iterate
  turns word most ti [] gts found s = (ok found, s)
  turns word most ti (turn ∷ rest) gts found s =
      reading (iterate turn)
        (λ vs s0. and_then (rounds ti most 0 [] (add_msgs (given_all vs) s0)) (λ got s1.
          turns word most (suc ti) rest gts
            (add_missing ti (gt_names word (or_no_names (get_elem? gts ti))) got found) s1))
        s

  -- A case that takes one answer.
  unfoldable pub single : (List Call → Verdict) → Progress → Result Verdict × Progress
  unfolding scored parse_calls
  single judge s =
      on_reply (ask (s.msgs ∷ s.asked)) (λ a. (ok (judge (calls_in a)), scored a (sent s))) s

abbrev pub turns_verdict : Missing → Verdict
turns_verdict found = record { passed = is_empty found; detail = missing found }

abbrev pub is_none {ℓ} : {A : Type ℓ} → Option A → Bool
is_none none = true
is_none (some a) = false

-- `list(turns[0]) if isinstance(turns[0], list) else [turns[0]]`
abbrev pub first_messages : Value → List Value
first_messages (arr vs) = list_of vs
first_messages v = v ∷ []

abbrev pub fresh : Progress → Progress
fresh s = record { asked = s.asked; agg = s.agg; msgs = []; invalid = [] }

-- The files, the server (which also sees the tools), and `\w`, `str.lower` and `float` on texts.
module _ (read_doc : Text → List Value) (ask : List Value → List (List Message) → Result Reply)
    (loads : Text → Option Value) (word : ℕ → Bool) (lower : Text → Text)
    (float_text : Text → Option ℤ) (most : ℕ) where
  unfoldable pub verdict : Expected → List Text → List Call → Verdict
  unfolding ast_match
  verdict (ast (some gt)) names calls =
      let found = ast_match lower float_text calls gt names in
      record { passed = is_none found; detail = problem found }
  verdict (ast none) names calls = record {
    passed = not (is_empty calls);
    detail = no_ground_truth;
  }
  verdict expected names calls = record {
    passed = is_empty calls;
    detail = calls_made (map (λ c. c.name) calls);
  }

  -- `run_case`, with the tools of the case and their names
  unfoldable pub scored_case :
      Expected → List Value → List Text → Value → Progress → Result Verdict × Progress
  unfolding turns single verdict iterate list_of
  scored_case (multi_turn gts) tools names question s =
      reading (iterate question)
        (λ vs s0.
          and_then (turns (ask tools) loads names word most 0 vs gts [] s0)
            (λ found s1. (ok (turns_verdict found), s1)))
        s
  scored_case expected tools names question s =
      reading (first_item question)
        (λ v s0.
          single (ask tools) loads names (verdict expected names)
            (add_msgs (given_all (first_messages v)) s0))
        s

  abbrev pub tools_of : Value → Result (List Value × List Text)
  tools_of body = do
    fns ← functions_of read_doc body
    tools ← to_tools fns
    names ← tool_names tools
    ok (tools, names)

  unfoldable pub run_case : Case → Progress → Result Verdict × Progress
  unfolding scored_case item
  run_case case s =
      reading (tools_of case.body)
        (λ t. reading (item (codes "question") case.body) (scored_case case.expected t.0 t.1))
        (fresh s)
