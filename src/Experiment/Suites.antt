-- ===== src/Experiment/Suites.antt =====
-- `suites`: the deadlines, one suite after another, the summary and the file suite_status.json.
use qwen38_flash_next_sglang.Prelude.{
  ℕ, ◌+◌, max, Bool, true, false, ◌&&◌, Option, none, some, List, [], ◌∷◌, ◌++◌, all, if◌then◌else◌,
  ◌==◌, Text,
}
use qwen38_flash_next_sglang.Prelude.Int.{ℤ, pos}
use qwen38_flash_next_sglang.Experiment.{Var, Env, Suite, Task}
use qwen38_flash_next_sglang.Experiment.Select.{Selection, Refusal, tasks, refused, selection}

-- How the call of `bounded` ends: with an exit code, by its deadline (`TimeoutError`), by the guard
-- (`RuntimeError`), by an `OSError`, or by an exception of its own clean-up.
pub data Ended : Type 0 where
  exited : ℤ → Ended
  timed_out : Ended
  guard_failed : Ended
  os_error : Ended
  -- the `TimeoutExpired` of its last wait, which the loop does not catch
  wait_expired : Ended

-- `validate` on the report that the suite wrote: its truth, an exception that the loop catches (no
-- file, no JSON, a key or a type that is not there), or another, which leaves `suites`.
pub data Verdict : Type 0 where
  valid : Bool → Verdict
  caught : Verdict
  uncaught : Verdict

pub data Status : Type 0 where
  pass fail aborted error : Status

abbrev pub is_pass : Status → Bool
is_pass pass = true
is_pass _ = false

pub record Row : Type 0 where
  pub suite : Suite
  pub exit_code : Option ℤ
  pub status : Status

pub data Phase : Type 0 where
  running passed failed : Phase

-- The summary, which is also what the file holds.
pub record Summary : Type 0 where
  pub phase : Phase
  pub rows : List Row

pub data End : Type 0 where
  -- the exit code that `suites` returns
  returned : ℕ → End
  -- the exception of an aborted suite, or another that is not caught
  raised : End
  select_failed : Refusal → End

pub record Outcome : Type 0 where
  pub summary : Summary
  -- suite_status.json, `none` where it was not written yet
  pub file : Option Summary
  pub end : End

-- What one suite contributes: a row, a row and the end of the loop, or an exception with no row.
pub data Step : Type 0 where
  row : Row → Step
  abort : Row → Step
  crash : Step

unfoldable pub is_zero : ℤ → Bool
is_zero (pos n) = n == 0
is_zero _ = false

abbrev pub row_of : Suite → Option ℤ → Status → Row
row_of s rc st = record { suite = s; exit_code = rc; status = st }

abbrev pub pass_if : Bool → Status
pass_if true = pass
pass_if false = fail

abbrev pub all_pass : List Row → Bool
all_pass = all (λ r. is_pass r.status)

-- After the loop: the final status, the file, and the exit code.
unfoldable pub finish : List Row → Outcome
finish rows =
    let s : Summary = record { phase = if all_pass rows then passed else failed; rows = rows } in
    record { summary = s; file = some s; end = returned (if all_pass rows then 0 else 1) }

unfoldable pub take_step :
    Step → List Row → Option Summary → (List Row → Option Summary → Outcome) → Outcome
take_step (row r) rows file later =
    let rows' = rows ++ r ∷ [] in later rows' (some (record { phase = running; rows = rows' }))
take_step (abort r) rows file later =
    let s : Summary = record { phase = failed; rows = rows ++ r ∷ [] } in
    record { summary = s; file = some s; end = raised }
take_step crash rows file later = record {
  summary = record { phase = running; rows = rows };
  file = file;
  end = raised;
}

-- `float(text)` in milliseconds, `none` for a `ValueError`; how each suite's process ends under its
-- deadline; and the verdict on its report.
module _ (float : Text → Option ℕ) (ends : Suite → ℕ → Ended) (verdict : Suite → Verdict) where
  abbrev float_or : Option Text → ℕ → Option ℕ
  float_or none d = some d
  float_or (some t) d = float t

  abbrev plus : ℕ → Option ℕ → Option ℕ
  plus k none = none
  plus k (some t) = some (t + k)

  -- The later assignments of `timeout`, by the suite's name.
  deadline_for : Env → Suite → ℕ → Option ℕ
  deadline_for env Suite.gsm8k base = float_or (env Var.gsm8k_timeout) base
  deadline_for env Suite.soak base = plus 300000 (float_or (env Var.soak_seconds) 3600000)
  deadline_for env Suite.growsoak base = plus 300000 (float_or (env Var.soak_seconds) 3600000)
  deadline_for env Suite.longsoak base = plus 1800000 (float_or (env Var.longsoak_seconds) 86400000)
  deadline_for env Suite.mixedload base = float_or (env Var.mixedload_timeout) (max base 1800000)
  deadline_for env _ base = some base

  unfoldable pub deadline : Env → Suite → Option ℕ
  unfolding deadline_for
  deadline env s = elim (float_or (env Var.suite_timeout) 900000) [
    | none ↦ none
    | some base ↦ deadline_for env s base
  ]

  unfoldable pub judge : Suite → ℤ → Verdict → Step
  judge s rc (valid ok) = row (row_of s (some rc) (pass_if (is_zero rc && ok)))
  judge s rc caught = row (row_of s (some rc) error)
  judge s rc uncaught = crash

  -- Smoke writes no report: its exit code decides.
  unfoldable pub after_exit : Suite → ℤ → Step
  after_exit Suite.smoke rc =
      row (row_of Suite.smoke (some rc) (pass_if (is_zero rc && is_zero rc)))
  after_exit s rc = judge s rc (verdict s)

  unfoldable pub after_end : Suite → Ended → Step
  after_end s (exited rc) = after_exit s rc
  after_end s timed_out = abort (row_of s none aborted)
  after_end s guard_failed = abort (row_of s none aborted)
  after_end s os_error = row (row_of s none error)
  after_end s wait_expired = crash

  -- The body of the loop: its `try` and its two handlers.
  unfoldable pub run_suite : Env → Task → Step
  run_suite env t = elim (deadline env t.suite) [
    | none ↦ row (row_of t.suite none error)
    | some d ↦ after_end t.suite (ends t.suite d)
  ]

  unfoldable pub run_tasks : Env → List Task → List Row → Option Summary → Outcome
  unfolding finish take_step
  run_tasks env [] rows file = finish rows
  run_tasks env (t ∷ ts) rows file =
      take_step (run_suite env t) rows file (λ rows' file'. run_tasks env ts rows' file')

  unfoldable pub start_selection : Env → Selection → Outcome
  start_selection env (refused r) = record {
    summary = record { phase = running; rows = [] };
    file = none;
    end = select_failed r;
  }
  start_selection env (tasks ts) = run_tasks env ts [] none

  unfoldable pub suites : Env → Outcome
  unfolding run_tasks start_selection
  suites env = start_selection env (selection env)
