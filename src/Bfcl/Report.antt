-- ===== src/Bfcl/Report.antt =====
-- `main` of bench/bfcl.py: the splits, their cases, and the summary. The rows and the answers of a
-- split are read from files, and are taken as read; the wall time is left out. A percentage and a mean
-- are kept as the numbers that are divided.
use qwen38_flash_next_sglang.Prelude.{
  ℕ, ◌+◌, Bool, true, false, not, ◌&&◌, Option, List, [], ◌∷◌, ◌++◌, length, take, Text, ◌=ₜ◌,
  mem_text, ◌==◌, min, max, if◌then◌else◌,
}
use qwen38_flash_next_sglang.Prelude.Int.{ℤ, pos}
use qwen38_flash_next_sglang.Json.{Value, Result, ok, err, Error, system_exit}
use qwen38_flash_next_sglang.Client.Calls.{Rate}
use qwen38_flash_next_sglang.Bfcl.Run.{
  Message, Reply, Agg, Invalid, server_failed, Progress, Detail, server_error, Verdict, is_empty,
  and_then,
}
use qwen38_flash_next_sglang.Bfcl.Cases.{Case, run_case}

-- A split of the subset, with its rows.
pub record Split : Type 0 where
  pub name : Text
  pub n : ℕ
  pub rows : List Case

pub record Outcome : Type 0 where
  pub id : Text
  pub split : Text
  pub passed : Bool
  pub invalid : List Invalid
  pub detail : Detail

abbrev pub no_requests : Agg
no_requests = record {
  requests = 0;
  prompt_tokens = pos 0;
  completion_tokens = pos 0;
  cached_tokens = pos 0;
  ttft_sum = 0;
  decode_tps = [];
}

abbrev pub unstarted : Progress
unstarted = record { asked = []; agg = no_requests; msgs = []; invalid = [] }

abbrev pub is_exit : Error → Bool
is_exit system_exit = true
is_exit e = false

-- The result of a case; only a `SystemExit` is caught.
abbrev pub recorded : Text → Case → Result Verdict × Progress → Result Outcome × Progress
recorded split case r = elim r.0 [
  | ok v ↦ (
    ok (record {
      id = case.id;
      split = split;
      passed = v.passed;
      invalid = r.1.invalid;
      detail = v.detail;
    }),
    r.1,
  )
  | err e ↦
      if is_exit e
      then (
        ok (record {
          id = case.id;
          split = split;
          passed = false;
          invalid = server_failed ∷ [];
          detail = server_error;
        }),
        r.1,
      )
      else (err e, r.1)
]

-- `n = cfg["n"] if not LIMIT else min(cfg["n"], LIMIT)`, and `rows[:n]`
abbrev pub chosen : ℕ → Split → List Case
chosen limit s = take (if limit == 0 then s.n else min s.n limit) s.rows

-- `only and split not in only`
abbrev pub skipped : List Text → Split → Bool
skipped only s = not (is_empty only) && not (mem_text s.name only)

-- The groups of `by_split`, in the order of insertion.
abbrev pub Groups : Type 0
Groups = List (Text × List Outcome)

unfoldable pub add_to : Outcome → Groups → Groups
add_to o [] = (o.split, o ∷ []) ∷ []
add_to o (g ∷ gs) =
    let later = add_to o gs in if g.0 =ₜ o.split then (g.0, g.1 ++ (o ∷ [])) ∷ gs else g ∷ later

unfoldable pub grouped : Groups → List Outcome → Groups
unfolding add_to
grouped groups [] = groups
grouped groups (o ∷ os) = grouped (add_to o groups) os

abbrev pub passes : List Outcome → ℕ
passes [] = 0
passes (o ∷ os) = (if o.passed then 1 else 0) + passes os

abbrev pub invalid_count : List Outcome → ℕ
invalid_count [] = 0
invalid_count (o ∷ os) = length o.invalid + invalid_count os

pub record SplitScore : Type 0 where
  pub split : Text
  pub n : ℕ
  pub passed : ℕ

abbrev pub scores : Groups → List SplitScore
scores [] = []
scores (g ∷ gs) = record { split = g.0; n = length g.1; passed = passes g.1 } ∷ scores gs

pub record Summary : Type 0 where
  pub n : ℕ
  pub passed : ℕ
  pub invalid_tool_calls : ℕ
  pub by_split : List SplitScore
  pub agg : Agg
  pub cache_hit : ℤ × ℤ
  pub mean_ttft_s : ℕ × ℕ
  pub mean_decode_tps : List Rate × ℕ

-- `max(1, v)`, in millionths
abbrev pub at_least_one : ℤ → ℤ
at_least_one (pos n) = pos (max 1000000 n)
at_least_one v = pos 1000000

unfoldable pub summary_of : List Outcome → Agg → Summary
unfolding grouped
summary_of results agg = record {
  n = length results;
  passed = passes results;
  invalid_tool_calls = invalid_count results;
  by_split = scores (grouped [] results);
  agg = agg;
  cache_hit = (agg.cached_tokens, at_least_one agg.prompt_tokens);
  mean_ttft_s = (agg.ttft_sum, max 1 agg.requests);
  mean_decode_tps = (agg.decode_tps, max 1 (length agg.decode_tps));
}

module _ (read_doc : Text → List Value) (ask : List Value → List (List Message) → Result Reply)
    (loads : Text → Option Value) (word : ℕ → Bool) (lower : Text → Text)
    (float_text : Text → Option ℤ) (most : ℕ) where
  unfoldable pub run_cases :
      Text → List Case → List Outcome → Progress → Result (List Outcome) × Progress
  unfolding run_case
  run_cases split [] results s = (ok results, s)
  run_cases split (case ∷ cases) results s =
      and_then (recorded split case (run_case read_doc ask loads word lower float_text most case s))
        (λ o s1. run_cases split cases (results ++ (o ∷ [])) s1)

  unfoldable pub run_splits :
      List Text → ℕ → List Split → List Outcome → Progress → Result (List Outcome) × Progress
  unfolding run_cases
  run_splits only limit [] results s = (ok results, s)
  run_splits only limit (split ∷ rest) results s =
      if skipped only split
      then run_splits only limit rest results s
      else and_then (run_cases split.name (chosen limit split) results s)
          (λ found s1. run_splits only limit rest found s1)

  unfoldable pub bfcl_main : List Text → ℕ → List Split → Result Summary × Progress
  unfolding run_splits summary_of
  bfcl_main only limit splits =
      and_then (run_splits only limit splits [] unstarted)
        (λ results s. (ok (summary_of results s.agg), s))
