-- ===== src/Experiment/Verdicts.antt =====
-- What the end of `suites` says: the exit code, the rows, the file, and an aborted suite.
use qwen38_flash_next_sglang.Prelude.{
  ℕ, ◌⊎◌, ◌≡◌, refl, sym, ap, ◌∙◌, ◌↔◌, Bool, true, false, ◌&&◌, Option, none, some, List, [], ◌∷◌,
  ◌++◌, arith, all, Text, Option-cases, inl, inr,
}
use qwen38_flash_next_sglang.Prelude.Int.{ℤ, pos}
use qwen38_flash_next_sglang.Experiment.{Env, Suite, Task}
use qwen38_flash_next_sglang.Experiment.Select.{Selection, Refusal, tasks, refused, selection}
use qwen38_flash_next_sglang.Experiment.Suites.{
  Ended, exited, timed_out, guard_failed, os_error, wait_expired, Verdict, valid, is_pass, Row,
  running, Summary, returned, select_failed, Outcome, row, abort, crash, Step, is_zero, deadline,
  after_end, after_exit, judge, run_suite, all_pass, take_step, run_tasks, start_selection, suites,
}

all-append {ℓ} :
    {A : Type ℓ} (p : A → Bool) (xs ys : List A) → all p (xs ++ ys) ≡ (all p xs && all p ys)
all-append p [] ys = refl
all-append p (x ∷ xs) ys = ground (arith, all-append p xs ys)

step_passes : Step → Bool
step_passes (row r) = is_pass r.status
step_passes (abort r) = false
step_passes crash = false

module _ (float : Text → Option ℕ) (ends : Suite → ℕ → Ended) (verdict : Suite → Verdict)
    (env : Env) where
  abbrev step_of : Task → Step
  step_of t = run_suite float ends verdict env t

  abbrev run_from : List Task → List Row → Option Summary → Outcome
  run_from = run_tasks float ends verdict env

  -- A suite passes if its deadline can be read, its process exits with 0 under that deadline, and
  -- its report is valid; smoke has no report.
  pub record Passes (t : Task) : Type 0 where
    pub seconds : ℕ
    pub has_deadline : deadline float ends verdict env t.suite ≡ some seconds
    pub exits_zero : ends t.suite seconds ≡ exited (pos 0)
    pub report_valid : (t.suite ≡ Suite.smoke) ⊎ (verdict t.suite ≡ valid true)

  abbrev pub AllPass : List Task → Type 0
  AllPass [] = Unit
  AllPass (t ∷ ts) = Passes t × AllPass ts

  exit_passes :
      (s : Suite) (rc : ℤ)
      → step_passes (after_exit float ends verdict s rc) ≡ true
      → (rc ≡ pos 0) × ((s ≡ Suite.smoke) ⊎ (verdict s ≡ valid true))
  unfolding after_exit judge is_zero step_passes
  exit_passes Suite.smoke rc h = ground arith
  exit_passes _ rc h = ground arith

  pass_exits :
      (s : Suite)
      → (s ≡ Suite.smoke) ⊎ (verdict s ≡ valid true)
      → step_passes (after_exit float ends verdict s (pos 0)) ≡ true
  unfolding after_exit judge is_zero step_passes
  pass_exits Suite.smoke h = refl
  pass_exits _ h = ground arith

  end_passes :
      (s : Suite) (x : Ended)
      → step_passes (after_end float ends verdict s x) ≡ true
      → (x ≡ exited (pos 0)) × ((s ≡ Suite.smoke) ⊎ (verdict s ≡ valid true))
  unfolding after_end step_passes
  end_passes s (exited rc) h = let (z, v) = exit_passes s rc h in (ap exited z, v)
  end_passes s timed_out h = cc
  end_passes s guard_failed h = cc
  end_passes s os_error h = cc
  end_passes s wait_expired h = cc

  step-Passes : (t : Task) → step_passes (step_of t) ≡ true → Passes t
  unfolding run_suite
  step-Passes t h = elim (Option-cases (deadline float ends verdict env t.suite)) [
    | inl e ↦ absurd (late e)
    | inr (d, e) ↦
        let ended = end_passes t.suite (ends t.suite d) (rw (e, run_suite) at h) in
        record { seconds = d; has_deadline = e; exits_zero = ended.0; report_valid = ended.1 }
  ]
    where
      late : deadline float ends verdict env t.suite ≡ none → ⊥
      late e = unfold step_passes in cc (rw (e, run_suite) at h)

  Passes-step : (t : Task) → Passes t → step_passes (step_of t) ≡ true
  unfolding run_suite after_end
  Passes-step t p =
      rw (p.has_deadline, run_suite)
        (rw (p.exits_zero, after_end) (pass_exits t.suite p.report_valid))

  take_step_end :
      (st : Step) (ok : Bool) (rows : List Row) (file : Option Summary)
      (later : List Row → Option Summary → Outcome)
      → ((rows' : List Row) (file' : Option Summary)
          → ((later rows' file').end ≡ returned 0) ↔ ((all_pass rows' && ok) ≡ true))
      → ((take_step st rows file later).end ≡ returned 0)
        ↔ ((all_pass rows && (step_passes st && ok)) ≡ true)
  unfolding take_step step_passes
  take_step_end (row r) ok rows file later ih = ground (
    arith,
    ih (rows ++ r ∷ []) (some (record { phase = running; rows = rows ++ r ∷ [] })),
    all-append (λ (q : Row). is_pass q.status) rows (r ∷ []),
  )
  take_step_end (abort r) ok rows file later ih = ground arith
  take_step_end crash ok rows file later ih = ground arith

  all_pass_from :
      (ts : List Task) (rows : List Row) (file : Option Summary)
      → ((run_from ts rows file).end ≡ returned 0)
        ↔ ((all_pass rows && all (λ t. step_passes (step_of t)) ts) ≡ true)
  unfolding run_tasks
  all_pass_from [] rows file = ground arith
  all_pass_from (t ∷ ts) rows file =
      take_step_end (step_of t) (all (λ x. step_passes (step_of x)) ts) rows file
        (λ rows' file'. run_from ts rows' file') (all_pass_from ts)

  all-AllPass : (ts : List Task) → (all (λ t. step_passes (step_of t)) ts ≡ true) ↔ AllPass ts
  all-AllPass [] = (λ _. tt, λ _. refl)
  all-AllPass (t ∷ ts) = (
    λ h. (step-Passes t (ground arith), (all-AllPass ts).0 (ground arith)),
    λ p. ground (arith, Passes-step t p.0, (all-AllPass ts).1 p.1),
  )

  tasks_pass_iff :
      (ts : List Task)
      → selection env ≡ tasks ts
      → ((suites float ends verdict env).end ≡ returned 0) ↔ AllPass ts
  unfolding suites start_selection
  tasks_pass_iff ts e =
      rw (e, start_selection)
        (
          λ h. (all-AllPass ts).0 ((all_pass_from ts [] none).0 h),
          λ p. (all_pass_from ts [] none).1 ((all-AllPass ts).1 p),
        )

  -- What the environment selects, each of which passes
  pub record SelectedPass : Type 0 where
    pub selected : List Task
    pub is_selected : selection env ≡ tasks selected
    pub all_pass : AllPass selected

  refused_raises :
      (r : Refusal)
      → selection env ≡ refused r
      → (suites float ends verdict env).end ≡ select_failed r
  unfolding suites start_selection
  refused_raises r e = rw (e, start_selection) refl

  selection_cases :
      (s : Selection)
      → selection env ≡ s
      → (suites float ends verdict env).end ≡ returned 0
      → SelectedPass
  selection_cases (tasks ts) e h = record {
    selected = ts;
    is_selected = e;
    all_pass = (tasks_pass_iff ts e).0 h;
  }
  selection_cases (refused r) e h = cc (sym (refused_raises r e) ∙ h)

  -- `suites` returns 0 exactly when it selected tasks, without a refusal, and each of them passed: its
  -- deadline could be read, its process exited with 0 under that deadline, and its report was valid
  -- (smoke has none).
  pub suites_pass_iff : ((suites float ends verdict env).end ≡ returned 0) ↔ SelectedPass
  suites_pass_iff = (
    λ h. selection_cases (selection env) refl h,
    λ p. (tasks_pass_iff p.selected p.is_selected).1 p.all_pass,
  )
