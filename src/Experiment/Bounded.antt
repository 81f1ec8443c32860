-- ===== src/Experiment/Bounded.antt =====
-- `bounded`: a child process polled until it exits, the deadline passes, or the guard fails, and
-- the termination of its process group on every way out. Times are in milliseconds.
use qwen38_flash_next_sglang.Prelude.{
  ℕ, ◌+◌, ◌≤◌, ◌≡◌, ◌≢◌, ◌<◌, ◌↔◌, ◌⊎◌, inl, inr, Bool, false, Option, none, some, List, [], ◌∷◌,
  arith, leb, if◌then◌else◌,
}
use qwen38_flash_next_sglang.Prelude.Int.{ℤ}

-- One round of the loop: what `proc.poll()` gives, whether the guard raises, and the clock.
pub record Round : Type 0 where
  pub poll : Option ℤ
  pub guard_raises : Bool
  pub now : ℕ

-- What the `finally` block meets: the last poll, whether each `os.killpg` raises (no such process
-- group), and whether the two waits run out of time.
pub record Cleanup : Type 0 where
  pub poll : Option ℤ
  pub term_raises : Bool
  pub term_wait_expires : Bool
  pub kill_raises : Bool
  pub kill_wait_expires : Bool

pub data Signal : Type 0 where
  sigterm sigkill : Signal

pub data Exit : Type 0 where
  returned : ℤ → Exit
  deadline_exceeded : Exit
  guard_failed : Exit
  -- the second wait's `TimeoutExpired`, or the `OSError` of `os.killpg`, either of which replaces the
  -- code or the exception under way
  kill_expired : Exit
  kill_failed : Exit
  -- the rounds of the list are used up
  looping : Exit

pub record Outcome : Type 0 where
  pub exit : Exit
  pub signals : List Signal

unfoldable pub loop : ℕ → List Round → Exit
loop deadline [] = looping
loop deadline (r ∷ rest) =
    let later = loop deadline rest in
    elim r.poll [
      | some rc ↦ returned rc
      | none ↦
          if r.guard_raises
          then guard_failed
          else if leb deadline r.now
          then deadline_exceeded
          else later
    ]

-- The block after `TimeoutExpired` of the first wait.
abbrev kill_group : Cleanup → Exit → Outcome
kill_group c e =
    if c.kill_raises then record { exit = kill_failed; signals = sigterm ∷ [] } else record {
      exit = if c.kill_wait_expires then kill_expired else e;
      signals = sigterm ∷ sigkill ∷ [];
    }

unfoldable pub clean_up : Cleanup → Exit → Outcome
clean_up c e = elim c.poll [
  | some _ ↦ record { exit = e; signals = [] }
  | none ↦
      if c.term_raises
      then record { exit = kill_failed; signals = [] }
      else if c.term_wait_expires
      then kill_group c e
      else record { exit = e; signals = sigterm ∷ [] }
]

abbrev pub finally_clean : Exit → Cleanup → Outcome
finally_clean looping c = record { exit = looping; signals = [] }
finally_clean e c = clean_up c e

unfoldable pub bounded : ℕ → ℕ → List Round → Cleanup → Outcome
unfolding loop clean_up
bounded start seconds rounds c = finally_clean (loop (start + seconds) rounds) c

-- The loop comes to a round whose poll gives the code: in the rounds before it the process ran, the
-- guard was quiet and the deadline had not passed.
abbrev pub Polled : ℕ → List Round → ℤ → Type 0
Polled deadline [] rc = ⊥
Polled deadline (r ∷ rest) rc =
    (r.poll ≡ some rc)
    ⊎ ((r.poll ≡ none) × (r.guard_raises ≡ false) × (r.now < deadline) × Polled deadline rest rc)

-- The process had exited, or could be signalled and exited after the first signal or the second.
abbrev pub IsReaped : Cleanup → Type 0
IsReaped c =
    (c.poll ≢ none)
    ⊎ ((c.term_raises ≡ false)
        × ((c.term_wait_expires ≡ false)
            ⊎ ((c.kill_raises ≡ false) × (c.kill_wait_expires ≡ false))))

clean_up_iff :
    (c : Cleanup) (e : Exit) (rc : ℤ)
    → ((clean_up c e).exit ≡ returned rc) ↔ ((e ≡ returned rc) × IsReaped c)
unfolding clean_up
clean_up_iff c e rc = (λ h. ground arith, λ h. ground arith)

finally_clean_iff :
    (e : Exit) (c : Cleanup) (rc : ℤ)
    → ((finally_clean e c).exit ≡ returned rc) ↔ ((e ≡ returned rc) × IsReaped c)
finally_clean_iff looping c rc = (λ h. cc, λ h. cc (h.0))
finally_clean_iff (returned k) c rc = clean_up_iff c (returned k) rc
finally_clean_iff deadline_exceeded c rc = clean_up_iff c deadline_exceeded rc
finally_clean_iff guard_failed c rc = clean_up_iff c guard_failed rc
finally_clean_iff kill_expired c rc = clean_up_iff c kill_expired rc
finally_clean_iff kill_failed c rc = clean_up_iff c kill_failed rc

loop_iff :
    (deadline : ℕ) (rounds : List Round) (rc : ℤ)
    → (loop deadline rounds ≡ returned rc) ↔ Polled deadline rounds rc
unfolding loop
loop_iff deadline [] rc = (λ h. cc, λ h. absurd h)
loop_iff deadline (r ∷ rest) rc = (
  λ h. ground (arith, (loop_iff deadline rest rc).0),
  λ h. ground (arith, (loop_iff deadline rest rc).1),
)

-- `bounded` returns a code exactly if a poll gave that code in a round before which the guard never
-- raised and the deadline did not pass, and at the end the process had exited, or its group could be
-- signalled and it exited within the wait after the first signal or after the second.
pub bounded_returns_iff :
    (start seconds : ℕ) (rounds : List Round) (c : Cleanup) (rc : ℤ)
    → ((bounded start seconds rounds c).exit ≡ returned rc)
      ↔ (Polled (start + seconds) rounds rc × IsReaped c)
unfolding bounded
bounded_returns_iff start seconds rounds c rc = (
  λ h.
      let (e, reaped) = (finally_clean_iff (loop (start + seconds) rounds) c rc).0 h in
      ((loop_iff (start + seconds) rounds rc).0 e, reaped),
  λ h.
      (finally_clean_iff (loop (start + seconds) rounds) c rc).1
        ((loop_iff (start + seconds) rounds rc).1 h.0, h.1),
)

-- The rounds' clock reaches the deadline.
abbrev pub ReachesDeadline : ℕ → List Round → Type 0
ReachesDeadline deadline [] = ⊥
ReachesDeadline deadline (r ∷ rest) = (deadline ≤ r.now) ⊎ ReachesDeadline deadline rest

-- The loop does not outlive its deadline: it ends at the latest in the round whose clock reaches it.
pub loop_ends :
    (start seconds : ℕ) (rounds : List Round)
    → ReachesDeadline (start + seconds) rounds
    → loop (start + seconds) rounds ≢ looping
unfolding loop
loop_ends start seconds [] h = absurd h
loop_ends start seconds (r ∷ rest) (inl l) = ground arith
loop_ends start seconds (r ∷ rest) (inr l) = ground (arith, loop_ends start seconds rest l)
