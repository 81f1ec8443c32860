-- ===== src/Longsoak/Pause.antt =====
-- What a pause of bench/longsoak.py holds back.
use qwen38_flash_next_sglang.Prelude.{
  ℕ, zero, suc, ◌+◌, ◌≤◌, ◌≡◌, refl, inl, inr, Bool, true, false, List, [], ◌∷◌, all, get_elem?,
  Bool-cases, arith, if◌then◌else◌,
}
use qwen38_flash_next_sglang.Longsoak.Busy.{
  Phase, outside, passed, inside, Soak, Move, look, enter, leave, pause, resume, halt, set_phase,
  same_phase, in_phase, may_pass, step, run, all_outside, begin,
}

-- The workers in a phase.
abbrev pub number_in : Phase → List Phase → ℕ
number_in q [] = 0
number_in q (p ∷ ps) = (if same_phase q p then 1 else 0) + number_in q ps

-- Every move of a sample between its two changes of `paused`, unless the soak is stopped.
abbrev pub in_sample : Move → Bool
in_sample pause = false
in_sample resume = false
in_sample halt = false
in_sample m = true

same_phase-alike : (k p r : Phase) → same_phase p r ≡ true → same_phase k r ≡ same_phase k p
same_phase-alike k outside outside h = refl
same_phase-alike k passed passed h = refl
same_phase-alike k inside inside h = refl
same_phase-alike k outside passed h = cc
same_phase-alike k outside inside h = cc
same_phase-alike k passed outside h = cc
same_phase-alike k passed inside h = cc
same_phase-alike k inside outside h = cc
same_phase-alike k inside passed h = cc

-- What changes in a phase if a worker leaves `p` for `q`.
number_in-set_phase :
    (k p q : Phase) (i : ℕ) (ps : List Phase)
    → in_phase p (get_elem? ps i) ≡ true
    → number_in k (set_phase i q ps) + number_in k (p ∷ []) ≡ number_in k ps + number_in k (q ∷ [])
unfolding set_phase
number_in-set_phase k p q i [] h = cc
number_in-set_phase k p q zero (r ∷ ps) h = rw (same_phase-alike k p r h) (omega arith)
number_in-set_phase k p q (suc i) (r ∷ ps) h = omega (arith, number_in-set_phase k p q i ps h)

number_outside :
    (k : Phase) (n : ℕ) → same_phase k outside ≡ false → number_in k (all_outside n) ≡ 0
unfolding all_outside
number_outside k zero h = refl
number_outside k (suc n) h = rw h (omega (arith, number_outside k n h))

-- The counter is the number of workers in the body.
abbrev pub Counts : Soak → Type 0
Counts s = s.inflight ≡ number_in inside s.workers

step-Counts : (m : Move) (s : Soak) → Counts s → Counts (step m s)
unfolding step
step-Counts (look i) s c = elim (Bool-cases (in_phase outside (get_elem? s.workers i))) [
  | inl p ↦ elim (Bool-cases (may_pass s)) [
    | inl q ↦
        rw p (rw q (omega (arith, c, number_in-set_phase inside outside passed i s.workers p)))
    | inr q ↦ rw p (rw q c)
  ]
  | inr p ↦ rw p c
]
step-Counts (enter i) s c = elim (Bool-cases (in_phase passed (get_elem? s.workers i))) [
  | inl p ↦ rw p (omega (arith, c, number_in-set_phase inside passed inside i s.workers p))
  | inr p ↦ rw p c
]
step-Counts (leave i) s c = elim (Bool-cases (in_phase inside (get_elem? s.workers i))) [
  | inl p ↦ rw p (omega (arith, c, number_in-set_phase inside inside outside i s.workers p))
  | inr p ↦ rw p c
]
step-Counts pause s c = c
step-Counts resume s c = c
step-Counts halt s c = c

run-Counts : (ms : List Move) (s : Soak) → Counts s → Counts (run ms s)
unfolding run
run-Counts [] s c = c
run-Counts (m ∷ ms) s c = run-Counts ms (step m s) (step-Counts m s c)

-- A pause, with at most `r` requests after those of the workers that have passed, and at most `b`
-- workers that are or will be in the body.
record Held (r b : ℕ) (s : Soak) : Type 0 where
  is_paused : s.paused ≡ true
  is_going : s.stop ≡ false
  few_requests : s.requests + number_in passed s.workers ≤ r
  few_inside : number_in inside s.workers + number_in passed s.workers ≤ b

waits : (s : Soak) → s.paused ≡ true → s.stop ≡ false → may_pass s ≡ false
waits s p q = ground arith

step-Held : (r b : ℕ) (m : Move) (s : Soak) → in_sample m ≡ true → Held r b s → Held r b (step m s)
unfolding step
step-Held r b (look i) s i_s h = elim (Bool-cases (in_phase outside (get_elem? s.workers i))) [
  | inl p ↦ rw p (rw (waits s h.is_paused h.is_going) h)
  | inr p ↦ rw p h
]
step-Held r b (enter i) s i_s h = elim (Bool-cases (in_phase passed (get_elem? s.workers i))) [
  | inl p ↦
      let gone = number_in-set_phase passed passed inside i s.workers p in
      let come = number_in-set_phase inside passed inside i s.workers p in
      rw p (record {
        is_paused = h.is_paused;
        is_going = h.is_going;
        few_requests = omega (arith, h.few_requests, gone);
        few_inside = omega (arith, h.few_inside, gone, come);
      })
  | inr p ↦ rw p h
]
step-Held r b (leave i) s i_s h = elim (Bool-cases (in_phase inside (get_elem? s.workers i))) [
  | inl p ↦
      let same = number_in-set_phase passed inside outside i s.workers p in
      let gone = number_in-set_phase inside inside outside i s.workers p in
      rw p (record {
        is_paused = h.is_paused;
        is_going = h.is_going;
        few_requests = omega (arith, h.few_requests, same);
        few_inside = omega (arith, h.few_inside, same, gone);
      })
  | inr p ↦ rw p h
]
step-Held r b pause s i_s h = cc
step-Held r b resume s i_s h = cc
step-Held r b halt s i_s h = cc

run-Held :
    (r b : ℕ) (ms : List Move) (s : Soak)
    → all in_sample ms ≡ true
    → Held r b s
    → Held r b (run ms s)
unfolding run
run-Held r b [] s q h = h
run-Held r b (m ∷ ms) s q h =
    run-Held r b ms (step m s) (ground arith) (step-Held r b m s (ground arith) h)

begin-Counts : (n : ℕ) → Counts (begin n)
unfolding begin
begin-Counts n = omega (arith, number_outside inside n refl)

-- The soak when a pause is set, and after moves in the pause.
abbrev pub at_pause : ℕ → List Move → Soak
at_pause n before = run before (begin n)

abbrev pub in_pause : ℕ → List Move → List Move → Soak
in_pause n before during = run during (step pause (at_pause n before))

pause-starts :
    (s : Soak)
    → s.stop ≡ false
    → Held
        (s.requests + number_in passed s.workers)
        (number_in inside s.workers + number_in passed s.workers)
        (step pause s)
unfolding step
pause-starts s going = record {
  is_paused = refl;
  is_going = going;
  few_requests = omega arith;
  few_inside = omega arith;
}

-- While a sample holds new requests back, and the soak has not been stopped, `inflight` is the number
-- of requests in progress; the requests that have begun since, with the workers that may still begin
-- one, are no more than the workers that had seen no pause before it was set but had not counted
-- their request; and the requests in progress, with those workers, are no more than they were then.
pub pause-Held :
    (n : ℕ) (before during : List Move)
    → (at_pause n before).stop ≡ false
    → all in_sample during ≡ true
    → ((in_pause n before during).inflight ≡ number_in inside (in_pause n before during).workers)
      × ((in_pause n before during).requests + number_in passed (in_pause n before during).workers
          ≤ (at_pause n before).requests + number_in passed (at_pause n before).workers)
      × ((in_pause n before during).inflight + number_in passed (in_pause n before during).workers
          ≤ (at_pause n before).inflight + number_in passed (at_pause n before).workers)
pause-Held n before during going q =
    let counted = run-Counts before (begin n) (begin-Counts n) in
    let counts = run-Counts during _ (step-Counts pause _ counted) in
    let held = run-Held _ _ during _ q (pause-starts (at_pause n before) going) in
    (counts, held.few_requests, omega (arith, held.few_inside, counted, counts))
