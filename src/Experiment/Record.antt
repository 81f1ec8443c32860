-- ===== src/Experiment/Record.antt =====
-- What `suites` leaves behind: the rows of its summary, and the file suite_status.json.
use qwen38_flash_next_sglang.Prelude.{
  ℕ, ◌⊎◌, inl, inr, ◌≡◌, ◌≢◌, refl, ap, sym, ◌∙◌, Option, none, some, List, [], ◌∷◌, ◌++◌, map,
  Text, append-nil, append_assoc,
}
use mathlib.Core.List.{map-append}
use qwen38_flash_next_sglang.Prelude.Int.{ℤ}
use qwen38_flash_next_sglang.Experiment.{Env, Suite, Task}
use qwen38_flash_next_sglang.Experiment.Select.{Selection, tasks, refused, selection}
use qwen38_flash_next_sglang.Experiment.Suites
use qwen38_flash_next_sglang.Experiment.Suites.{
  Ended, exited, timed_out, guard_failed, os_error, wait_expired, Verdict, valid, caught, uncaught,
  aborted, Row, running, failed, Summary, returned, raised, Outcome, finish, row, abort, crash,
  Step, row_of, deadline, after_end, after_exit, judge, run_suite, take_step, run_tasks,
  start_selection, suites,
}

abbrev pub suites_of_rows : List Row → List Suite
suites_of_rows = map (λ (r : Row). r.suite)

abbrev pub suites_of : List Task → List Suite
suites_of = map (λ (t : Task). t.suite)

-- A step's row, if it has one, is about the suite.
abbrev IsAbout : Suite → Step → Type 0
IsAbout s (row r) = r.suite ≡ s
IsAbout s (abort r) = r.suite ≡ s
IsAbout s crash = Unit

-- The file holds the summary as soon as it has a row.
abbrev pub IsWritten : Outcome → Type 0
IsWritten o = o.summary.rows ≢ [] → o.file ≡ some o.summary

module _ (float : Text → Option ℕ) (ends : Suite → ℕ → Ended) (verdict : Suite → Verdict) where
  judge-IsAbout : (s : Suite) (rc : ℤ) (v : Verdict) → IsAbout s (judge float ends verdict s rc v)
  unfolding judge
  judge-IsAbout s rc (valid ok) = refl
  judge-IsAbout s rc caught = refl
  judge-IsAbout s rc uncaught = tt

  exit-IsAbout : (s : Suite) (rc : ℤ) → IsAbout s (after_exit float ends verdict s rc)
  unfolding after_exit
  exit-IsAbout Suite.smoke rc = refl
  exit-IsAbout s rc = judge-IsAbout s rc (verdict s)

  end-IsAbout : (s : Suite) (x : Ended) → IsAbout s (after_end float ends verdict s x)
  unfolding after_end
  end-IsAbout s (exited rc) = exit-IsAbout s rc
  end-IsAbout s timed_out = refl
  end-IsAbout s guard_failed = refl
  end-IsAbout s os_error = refl
  end-IsAbout s wait_expired = tt

  module _ (env : Env) where
    step-IsAbout : (t : Task) → IsAbout t.suite (run_suite float ends verdict env t)
    unfolding run_suite
    step-IsAbout t = at (deadline float ends verdict env t.suite)
      where
        at :
            (d : Option ℕ)
            → IsAbout t.suite (elim d [
              | none ↦ row (row_of t.suite none Suites.error)
              | some s ↦ after_end float ends verdict t.suite (ends t.suite s)
            ])
        at none = refl
        at (some s) = end-IsAbout t.suite (ends t.suite s)

    abbrev run_from : List Task → List Row → Option Summary → Outcome
    run_from = run_tasks float ends verdict env

    -- The rows that stand there at the end of a loop that returns.
    abbrev Complete : List Suite → Outcome → Type 0
    Complete ss o = (c : ℕ) → o.end ≡ returned c → suites_of_rows o.summary.rows ≡ ss

    take_step-Complete :
        (s : Suite) (ss : List Suite) (st : Step) (rows : List Row) (file : Option Summary)
        (later : List Row → Option Summary → Outcome)
        → IsAbout s st
        → ((rows' : List Row) (file' : Option Summary)
            → Complete (suites_of_rows rows' ++ ss) (later rows' file'))
        → Complete (suites_of_rows rows ++ s ∷ ss) (take_step st rows file later)
    unfolding take_step
    take_step-Complete s ss (row r) rows file later about ih c e =
        ih (rows ++ r ∷ []) (some (record { phase = running; rows = rows ++ r ∷ [] })) c e
        ∙ ap (λ (x : List Suite). x ++ ss) (map-append _ rows (r ∷ []))
        ∙ append_assoc (suites_of_rows rows) (r.suite ∷ []) ss
        ∙ ap (λ (x : Suite). suites_of_rows rows ++ x ∷ ss) about
    take_step-Complete s ss (abort r) rows file later about ih c e = cc
    take_step-Complete s ss crash rows file later about ih c e = cc

    run_from-Complete :
        (ts : List Task) (rows : List Row) (file : Option Summary)
        → Complete (suites_of_rows rows ++ suites_of ts) (run_from ts rows file)
    unfolding run_tasks
    run_from-Complete [] rows file = λ c e. sym (append-nil (suites_of_rows rows))
    run_from-Complete (t ∷ ts) rows file =
        take_step-Complete t.suite (suites_of ts) (run_suite float ends verdict env t) rows file
          (λ rows' file'. run_from ts rows' file') (step-IsAbout t) (run_from-Complete ts)

    -- A call that returns has one row for each selected suite, in the order of the selection.
    suites_rows :
        (ts : List Task) (c : ℕ)
        → selection env ≡ tasks ts
        → (suites float ends verdict env).end ≡ returned c
        → suites_of_rows (suites float ends verdict env).summary.rows ≡ suites_of ts
    unfolding suites start_selection
    suites_rows ts c e h =
        rw (e, start_selection) (run_from-Complete ts [] none c (rw (e, start_selection) at h))

    take_step-IsWritten :
        (st : Step) (rows : List Row) (file : Option Summary)
        (later : List Row → Option Summary → Outcome)
        → (rows ≢ [] → file ≡ some (record { phase = running; rows = rows }))
        → ((rows' : List Row)
            → IsWritten (later rows' (some (record { phase = running; rows = rows' }))))
        → IsWritten (take_step st rows file later)
    unfolding take_step
    take_step-IsWritten (row r) rows file later h ih = ih (rows ++ r ∷ [])
    take_step-IsWritten (abort r) rows file later h ih = λ _. refl
    take_step-IsWritten crash rows file later h ih = h

    run_from-IsWritten :
        (ts : List Task) (rows : List Row) (file : Option Summary)
        → (rows ≢ [] → file ≡ some (record { phase = running; rows = rows }))
        → IsWritten (run_from ts rows file)
    unfolding run_tasks finish
    run_from-IsWritten [] rows file h = λ _. refl
    run_from-IsWritten (t ∷ ts) rows file h =
        take_step-IsWritten (run_suite float ends verdict env t) rows file
          (λ rows' file'. run_from ts rows' file') h
          (λ rows'. run_from-IsWritten ts rows' _ (λ _. refl))

    -- However the call ends, returning or raising, the file holds the final summary if that has a
    -- row.
    pub suites-IsWritten : IsWritten (suites float ends verdict env)
    unfolding suites start_selection
    suites-IsWritten = started (selection env)
      where
        started : (s : Selection) → IsWritten (Suites.start_selection float ends verdict env s)
        started (refused r) = λ h. absurd (h refl)
        started (tasks ts) = run_from-IsWritten ts [] none (λ h. absurd (h refl))

    -- The rows of tasks that all gave one.
    abbrev pub GaveRows : List Task → List Row → Type 0
    GaveRows [] [] = Unit
    GaveRows (t ∷ ts) (r ∷ rs) = (run_suite float ends verdict env t ≡ row r) × GaveRows ts rs
    GaveRows _ _ = ⊥

    run_from_abort :
        (before after : List Task) (t : Task) (rs rows : List Row) (r : Row) (file : Option Summary)
        → GaveRows before rs
        → run_suite float ends verdict env t ≡ abort r
        → run_from (before ++ t ∷ after) rows file ≡ (
            let s : Summary = record { phase = failed; rows = rows ++ (rs ++ r ∷ []) } in
            record { summary = s; file = some s; end = raised })
    unfolding run_tasks take_step
    run_from_abort [] after t [] rows r file g e = rw (e, take_step) refl
    run_from_abort [] after t (q ∷ rs) rows r file g e = absurd g
    run_from_abort (b ∷ before) after t [] rows r file g e = absurd g
    run_from_abort (b ∷ before) after t (q ∷ rs) rows r file g e =
        rw (g.0, take_step)
          (run_from_abort before after t rs (rows ++ q ∷ []) r _ g.1 e ∙ simp append_assoc)

    -- A suite that passes its deadline, or whose guard fails, ends the call with an exception: the
    -- suites before it have their rows, its own row is the last, nothing after it runs, and the
    -- file says that the run failed.
    pub abort_ends :
        (before after : List Task) (t : Task) (rs : List Row) (seconds : ℕ)
        → selection env ≡ tasks (before ++ t ∷ after)
        → GaveRows before rs
        → deadline float ends verdict env t.suite ≡ some seconds
        → (ends t.suite seconds ≡ timed_out) ⊎ (ends t.suite seconds ≡ guard_failed)
        → suites float ends verdict env ≡ (
            let s : Summary = record {
              phase = failed;
              rows = rs ++ row_of t.suite none aborted ∷ [];
            } in
            record { summary = s; file = some s; end = raised })
    unfolding suites start_selection
    abort_ends before after t rs seconds e g d h =
        rw (e, start_selection)
          (run_from_abort before after t rs [] (row_of t.suite none aborted) none g (aborts h))
      where
        aborts :
            (ends t.suite seconds ≡ timed_out) ⊎ (ends t.suite seconds ≡ guard_failed)
            → run_suite float ends verdict env t ≡ abort (row_of t.suite none aborted)
        aborts (inl x) = unfold run_suite after_end in rw (d, run_suite) (rw (x, after_end))
        aborts (inr x) = unfold run_suite after_end in rw (d, run_suite) (rw (x, after_end))
