-- ===== src/Bfcl/Run.antt =====
-- `agg_add` and the state of `run_case` of bench/bfcl.py. The text of the details and of the messages
-- is kept as data, and each request in the order in which it is made.
use qwen38_flash_next_sglang.Prelude.{
  ℕ, suc, ◌+◌, Bool, true, false, Option, none, some, List, [], ◌∷◌, ◌++◌, all, Text, mem_text,
  if◌then◌else◌,
}
use qwen38_flash_next_sglang.Prelude.Int.{ℤ, ◌+ℤ◌}
use qwen38_flash_next_sglang.Json.{Value, Result, ok, err}
use qwen38_flash_next_sglang.Client.Calls.{Rate}
use qwen38_flash_next_sglang.Bfcl.{Fragment, Call, Truth, Problem, plain_name}

-- "call_{ti}_{step}_{i}"
pub record CallId : Type 0 where
  pub turn : ℕ
  pub step : ℕ
  pub call : ℕ

-- A message of the case, an answer, an answer with tool calls, and the result of a call.
pub data Message : Type 0 where
  given : Value → Message
  said : Text → Message
  called : Text → List (CallId × Call) → Message
  result : CallId → Text → Message

-- What `run_case` reads of the reply of `chat_stream`, with the numbers in millionths.
pub record Reply : Type 0 where
  pub content : Text
  pub tool_calls : List Fragment
  pub prompt_tokens : ℤ
  pub completion_tokens : ℤ
  pub cached_tokens : ℤ
  pub ttft_s : ℕ
  pub decode_tps : Rate

pub record Agg : Type 0 where
  pub requests : ℕ
  pub prompt_tokens : ℤ
  pub completion_tokens : ℤ
  pub cached_tokens : ℤ
  pub ttft_sum : ℕ
  pub decode_tps : List Rate

unfoldable pub agg_add : Agg → Reply → Agg
unfolding ◌+ℤ◌
agg_add agg r = record {
  requests = suc agg.requests;
  prompt_tokens = agg.prompt_tokens +ℤ r.prompt_tokens;
  completion_tokens = agg.completion_tokens +ℤ r.completion_tokens;
  cached_tokens = agg.cached_tokens +ℤ r.cached_tokens;
  ttft_sum = agg.ttft_sum + r.ttft_s;
  decode_tps = agg.decode_tps ++ (r.decode_tps ∷ []);
}

pub data Invalid : Type 0 where
  bad_arguments unknown : Text → Invalid
  server_failed : Invalid

-- `agg`, `msgs` and `invalid`, with the conversations that have been sent, the last one first.
pub record Progress : Type 0 where
  pub asked : List (List Message)
  pub agg : Agg
  pub msgs : List Message
  pub invalid : List Invalid

abbrev pub names_of : List Call → List Text
names_of [] = []
names_of (c ∷ cs) = plain_name c.name ∷ names_of cs

abbrev pub unknown_calls : List Text → List Call → List Invalid
unknown_calls names [] = []
unknown_calls names (c ∷ cs) =
    let later = unknown_calls names cs in
    if mem_text c.name names then later else unknown c.name ∷ later

-- The calls of an answer with their ids, from position `i`, and a result for each of them.
abbrev pub with_ids : ℕ → ℕ → ℕ → List Call → List (CallId × Call)
with_ids ti step i [] = []
with_ids ti step i (c ∷ cs) =
    (record { turn = ti; step = step; call = i }, c) ∷ with_ids ti step (suc i) cs

abbrev pub results : List (CallId × Call) → List Message
results [] = []
results (c ∷ cs) = result c.0 c.1.name ∷ results cs

abbrev pub add_msgs : List Message → Progress → Progress
add_msgs ms s = record { asked = s.asked; agg = s.agg; msgs = s.msgs ++ ms; invalid = s.invalid }

-- `chat_stream(msgs, ...)` has been called.
abbrev pub sent : Progress → Progress
sent s = record { asked = s.msgs ∷ s.asked; agg = s.agg; msgs = s.msgs; invalid = s.invalid }

-- What a case is scored by: `expect`, with the ground truth of the case.
pub data Expected : Type 0 where
  multi_turn : List (List Text) → Expected
  no_tool : Expected
  ast : Option (List Truth) → Expected

pub data Detail : Type 0 where
  missing : List (ℕ × List Text × List Text) → Detail
  calls_made : List Text → Detail
  no_ground_truth : Detail
  problem : Option Problem → Detail
  server_error : Detail

pub record Verdict : Type 0 where
  pub passed : Bool
  pub detail : Detail

abbrev pub is_empty {ℓ} : {A : Type ℓ} → List A → Bool
is_empty [] = true
is_empty (x ∷ xs) = false

-- A turn whose wanted names were not all called.
abbrev pub add_missing :
    ℕ → List Text → List Text → List (ℕ × List Text × List Text) → List (ℕ × List Text × List Text)
add_missing ti want got found =
    if all (λ n. mem_text n got) want then found else found ++ ((ti, want, got) ∷ [])

abbrev pub or_no_names : Option (List Text) → List Text
or_no_names none = []
or_no_names (some cs) = cs

-- A step that goes on unless it raises; what it has changed is kept in both cases.
unfoldable pub and_then {ℓ κ} :
    {A : Type ℓ} {B : Type κ}
    → Result A × Progress
    → (A → Progress → Result B × Progress)
    → Result B × Progress
and_then (ok a, s) f = f a s
and_then (err e, s) f = (err e, s)

-- A value that is read, which changes nothing.
unfoldable pub reading {ℓ κ} :
    {A : Type ℓ} {B : Type κ}
    → Result A
    → (A → Progress → Result B × Progress)
    → Progress
    → Result B × Progress
reading (ok a) f s = f a s
reading (err e) f s = (err e, s)
