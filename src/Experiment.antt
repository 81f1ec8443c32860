-- ===== src/Experiment.antt =====
-- scripts/experiment.py: one locked, bounded serving experiment. The suites of a run, their
-- deadlines, and the options read from the environment.
pub mod Select
pub mod Order
pub mod Suites
pub mod Validate
pub mod Gates
pub mod Evidence
pub mod Accepts
pub mod Verdicts
pub mod Record
pub mod Bounded
pub mod Profiles
pub mod Kept
pub mod Flags
pub mod Recorded
mod Tests
mod ProfileTests
use qwen38_flash_next_sglang.Prelude.{
  ℕ, Bool, true, false, Option, none, some, List, [], ◌∷◌, Text, codes, ◌=ₜ◌,
}

-- The environment variables that the selection and the deadlines of the suites read.
pub data Var : Type 0 where
  prefill_bench sizes prefill_n n chunk_tail effort_probe effort_probe_n : Var
  effort_probe_thinking arith_probe arith_probe_repeats arith_probe_prompts : Var
  arith_probe_thinking streams streams_n concurrencies mixedload mixedload_n : Var
  mixedload_tokens mixedload_request_timeout quick turns profile spec gsm8k_n : Var
  gsm8k_thinking soak_seconds longsoak longsoak_seconds container growsoak only : Var
  suite_timeout gsm8k_timeout mixedload_timeout : Var
  -- set for the child process alone
  effort thinking repeats prompts request_timeout : Var

abbrev pub Env : Type 0
Env = Var → Option Text

-- `env.get(v, default)`
abbrev pub get_or : Env → Var → Text → Text
get_or env v d = elim (env v) [ none ↦ d | some t ↦ t ]

-- `env.get(v) == '1'`
abbrev pub is_on : Env → Var → Bool
is_on env v = elim (env v) [ none ↦ false | some t ↦ t =ₜ codes "1" ]

-- `if env.get(v):`, which an empty string fails
abbrev pub is_set : Env → Var → Bool
is_set env v = elim (env v) [ none ↦ false | some t ↦ elim t [ [] ↦ false | _ ∷ _ ↦ true ] ]

pub data Suite : Type 0 where
  smoke prefill chunk_tail quality decode effort_probe arith_probe streams mixedload : Suite
  longctx agentic_off agentic_on ple_spec gsm8k soak longsoak growsoak : Suite

-- The name of a suite, of its log and of its report.
unfoldable pub suite_name : Suite → Text
suite_name Suite.smoke = codes "smoke"
suite_name Suite.prefill = codes "prefill"
suite_name Suite.chunk_tail = codes "chunk_tail"
suite_name Suite.quality = codes "quality"
suite_name Suite.decode = codes "decode"
suite_name Suite.effort_probe = codes "effort_probe"
suite_name Suite.arith_probe = codes "arith_probe"
suite_name Suite.streams = codes "streams"
suite_name Suite.mixedload = codes "mixedload"
suite_name Suite.longctx = codes "longctx"
suite_name Suite.agentic_off = codes "agentic_off"
suite_name Suite.agentic_on = codes "agentic_on"
suite_name Suite.ple_spec = codes "ple_spec"
suite_name Suite.gsm8k = codes "gsm8k"
suite_name Suite.soak = codes "soak"
suite_name Suite.longsoak = codes "longsoak"
suite_name Suite.growsoak = codes "growsoak"

-- A task: its suite, whose script is fixed by it, and the variables it sets for the child.
pub record Task : Type 0 where
  pub suite : Suite
  pub overrides : List (Var × Text)
