-- ===== src/Bfcl/Accounts.antt =====
-- The summary of bench/bfcl.py against the cases that were chosen, and the requests of the whole run.
use qwen38_flash_next_sglang.Prelude.{
  ℕ, suc, ◌+◌, ◌≡◌, refl, ap, inl, inr, Bool, Bool-cases, Option, List, [], ◌∷◌, ◌++◌, length,
  length-append, Text, ◌=ₜ◌, arith, if◌then◌else◌,
}
use qwen38_flash_next_sglang.Prelude.Int.{ℤ}
use qwen38_flash_next_sglang.Json.{Value, Result, ok, err, Error}
use qwen38_flash_next_sglang.Bfcl.Run.{Message, Reply, Progress, Verdict, and_then}
use qwen38_flash_next_sglang.Bfcl.Cases.{Case}
use qwen38_flash_next_sglang.Bfcl.Report.{
  Split, Outcome, unstarted, is_exit, recorded, chosen, skipped, Groups, add_to, grouped, passes,
  SplitScore, scores, Summary, summary_of, run_cases, run_splits, bfcl_main,
}
use qwen38_flash_next_sglang.Bfcl.Closed.{closed}
use qwen38_flash_next_sglang.Json.Steps.{ok-inj}
use qwen38_flash_next_sglang.Bfcl.Totals.{case_limit, run_case-Good}
use qwen38_flash_next_sglang.Bfcl.Good.{Good, Good-mono, and_then-Good}

-- The cases of the splits that are not skipped, and the most requests that they may make.
abbrev pub case_limits : ℕ → List Case → ℕ
case_limits most [] = 0
case_limits most (c ∷ cs) = case_limit most c + case_limits most cs

abbrev pub split_limits : ℕ → List Text → ℕ → List Split → ℕ
split_limits most only limit [] = 0
split_limits most only limit (s ∷ ss) =
    (if skipped only s then 0 else case_limits most (chosen limit s))
    + split_limits most only limit ss

abbrev pub case_count : List Text → ℕ → List Split → ℕ
case_count only limit [] = 0
case_count only limit (s ∷ ss) =
    (if skipped only s then 0 else length (chosen limit s)) + case_count only limit ss

abbrev pub total_n : List SplitScore → ℕ
total_n [] = 0
total_n (x ∷ xs) = x.n + total_n xs

abbrev pub total_passed : List SplitScore → ℕ
total_passed [] = 0
total_passed (x ∷ xs) = x.passed + total_passed xs

passes-append : (xs ys : List Outcome) → passes (xs ++ ys) ≡ passes xs + passes ys
passes-append [] ys = omega arith
passes-append (x ∷ xs) ys = omega (arith, passes-append xs ys)

add_to-total :
    (o : Outcome) (gs : Groups)
    → (total_n (scores (add_to o gs)) ≡ suc (total_n (scores gs)))
      × (total_passed (scores (add_to o gs)) ≡ passes (o ∷ []) + total_passed (scores gs))
unfolding add_to
add_to-total o [] = (omega arith, omega arith)
add_to-total o (g ∷ gs) =
    let (n, p) = add_to-total o gs in
    elim (Bool-cases (g.0 =ₜ o.split)) [
      | inl q ↦
          rw q
            (omega (arith, length-append g.1 (o ∷ [])), omega (arith, passes-append g.1 (o ∷ [])))
      | inr q ↦ rw q (omega (arith, n), omega (arith, p))
    ]

grouped-total :
    (os : List Outcome) (gs : Groups)
    → (total_n (scores (grouped gs os)) ≡ total_n (scores gs) + length os)
      × (total_passed (scores (grouped gs os)) ≡ total_passed (scores gs) + passes os)
unfolding grouped
grouped-total [] gs = (omega arith, omega arith)
grouped-total (o ∷ os) gs =
    let (n, p) = grouped-total os (add_to o gs) in
    let (m, q) = add_to-total o gs in (omega (arith, n, m), omega (arith, p, q))

-- As many results, unless an error is raised.
abbrev Long : ℕ → Result (List Outcome) → Type 0
Long n r = (os : List Outcome) → r ≡ ok os → length os ≡ n

-- The summary is about as many cases, and its splits add up to it.
pub data Tallied (n : ℕ) : Result Summary → Type 0 where
  raised : (e : Error) → Tallied n (err e)
  tallied :
      (s : Summary)
      → s.n ≡ n
      → total_n s.by_split ≡ s.n
      → total_passed s.by_split ≡ s.passed
      → Tallied n (ok s)

and_then-Long :
    {A : Type 0} (n : ℕ) (r : Result A × Progress)
    (f : A → Progress → Result (List Outcome) × Progress)
    → ((a : A) → r.0 ≡ ok a → Long n (f a r.1).0)
    → Long n (and_then r f).0
unfolding and_then
and_then-Long n (ok a, s) f h = h a refl
and_then-Long n (err e, s) f h = λ os p. cc

recorded-Good :
    (n : ℕ) (split : Text) (case : Case) (r : Result Verdict × Progress)
    → Good n r.1
    → Good n (recorded split case r).1
recorded-Good n split case (ok v, s) g = g
recorded-Good n split case (err e, s) g = elim (Bool-cases (is_exit e)) [
  | inl p ↦ rw p g
  | inr p ↦ rw p g
]

unstarted-Good : Good 0 unstarted
unfolding closed
unstarted-Good = record {
  msgs_closed = refl;
  asked_closed = refl;
  counted = omega arith;
  bounded = omega arith;
}

module _ (read_doc : Text → List Value) (ask : List Value → List (List Message) → Result Reply)
    (loads : Text → Option Value) (word : ℕ → Bool) (lower : Text → Text)
    (float_text : Text → Option ℤ) (most : ℕ) where
  run_cases-Good :
      (n : ℕ) (split : Text) (cases : List Case) (os : List Outcome) (s : Progress)
      → Good n s
      → Good
          (n + case_limits most cases)
          (run_cases read_doc ask loads word lower float_text most split cases os s).1
  unfolding run_cases
  run_cases-Good n split [] os s g = Good-mono n _ s (omega arith) g
  run_cases-Good n split (case ∷ cases) os s g =
      let ran =
        recorded-Good _ split case _
          (run_case-Good read_doc ask loads word lower float_text most n case s g) in
      and_then-Good _ _ _ (Good-mono _ _ _ (omega arith) ran) (λ o.
        Good-mono (n + case_limit most case + case_limits most cases) _ _ (omega arith)
          (run_cases-Good (n + case_limit most case) split cases _ _ ran))

  run_cases-Long :
      (split : Text) (cases : List Case) (os : List Outcome) (s : Progress)
      → Long
          (length os + length cases)
          (run_cases read_doc ask loads word lower float_text most split cases os s).0
  unfolding run_cases
  run_cases-Long split [] os s = λ rs p. omega (arith, ap length (ok-inj p))
  run_cases-Long split (case ∷ cases) os s = and_then-Long _ _ _ (λ o p rs q.
      omega (arith, run_cases-Long split cases (os ++ (o ∷ [])) _ rs q, length-append os (o ∷ [])))

  run_splits-Good :
      (n : ℕ) (only : List Text) (limit : ℕ) (splits : List Split) (os : List Outcome)
      (s : Progress)
      → Good n s
      → Good
          (n + split_limits most only limit splits)
          (run_splits read_doc ask loads word lower float_text most only limit splits os s).1
  unfolding run_splits
  run_splits-Good n only limit [] os s g = Good-mono n _ s (omega arith) g
  run_splits-Good n only limit (split ∷ rest) os s g = elim (Bool-cases (skipped only split)) [
    | inl p ↦ rw p (Good-mono _ _ _ (omega arith) (run_splits-Good n only limit rest os s g))
    | inr p ↦
        let ran = run_cases-Good n split.name (chosen limit split) os s g in
        rw p (
          and_then-Good _ _ _ (Good-mono _ _ _ (omega arith) ran) (λ found.
            Good-mono
              (n + case_limits most (chosen limit split) + split_limits most only limit rest) _ _
              (omega arith)
              (run_splits-Good (n + case_limits most (chosen limit split)) only limit rest found _
                ran)))
  ]

  run_splits-Long :
      (only : List Text) (limit : ℕ) (splits : List Split) (os : List Outcome) (s : Progress)
      → Long
          (length os + case_count only limit splits)
          (run_splits read_doc ask loads word lower float_text most only limit splits os s).0
  unfolding run_splits
  run_splits-Long only limit [] os s = λ rs p. omega (arith, ap length (ok-inj p))
  run_splits-Long only limit (split ∷ rest) os s = elim (Bool-cases (skipped only split)) [
    | inl p ↦ rw p (λ rs q. omega (arith, run_splits-Long only limit rest os s rs q))
    | inr p ↦ rw p (
        and_then-Long _ _ _ (λ found q rs r. omega (
          arith,
          run_splits-Long only limit rest found _ rs r,
          run_cases-Long split.name (chosen limit split) os s found q,
        )))
  ]

  summed :
      (n : ℕ) (r : Result (List Outcome) × Progress)
      → Long n r.0
      → Tallied n (and_then r (λ results s. (ok (summary_of results s.agg), s))).0
  unfolding and_then summary_of
  summed n (ok os, s) h =
      let (m, p) = grouped-total os [] in
      tallied _ (h os refl) (omega (arith, m)) (omega (arith, p))
  summed n (err e, s) h = raised e

  -- However the run ends, it has sent at most as many conversations as the chosen cases may take
  -- (MT_MAX_STEPS for each turn of a multi-turn case, one for another), `requests` counts no more than
  -- were sent, and in each of them every answer with tool calls is followed by the results of those
  -- calls. If it ends with a summary, that is about the chosen cases, and the counts and the passes of
  -- its splits add up to its own.
  pub bfcl_main-Accounts :
      (only : List Text) (limit : ℕ) (splits : List Split)
      → Good
          (split_limits most only limit splits)
          (bfcl_main read_doc ask loads word lower float_text most only limit splits).1
        × Tallied
            (case_count only limit splits)
            (bfcl_main read_doc ask loads word lower float_text most only limit splits).0
  unfolding bfcl_main
  bfcl_main-Accounts only limit splits =
      let ran =
        Good-mono _ (split_limits most only limit splits) _ (omega arith)
          (run_splits-Good 0 only limit splits [] unstarted unstarted-Good) in
      (
        and_then-Good _ _ _ ran (λ os. ran),
        summed _ _ (λ os p. omega (arith, run_splits-Long only limit splits [] unstarted os p)),
      )
