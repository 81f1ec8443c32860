-- ===== src/Memwatch/Prompt.antt =====
-- A run of breaches that lasts is reported: the sustained tests are not late.
use qwen38_flash_next_sglang.Prelude.{
  ℕ, ◌+◌, ◌≤◌, ◌≡◌, ◌≢◌, ◌∙◌, refl, ap, Option, none, some, List, [], ◌∷◌, ◌++◌, arith, le→leb,
}
use qwen38_flash_next_sglang.Prelude.Int.{ℤ}
use qwen38_flash_next_sglang.Memwatch.{
  Reason, Config, Policy, new_policy, breaches, check, sustained, start_or, initial_or,
}
use qwen38_flash_next_sglang.Memwatch.Trace.{
  Observation, check_at, feed, reasons_at, AllBreach, baseline, started, feed-started, feed-append,
}

-- What the state is within a run of breaches.
record Since (c : Config) (i : ℤ) (t : ℕ) (p : Policy) : Type 0 where
  config : p.config ≡ c
  baseline : p.initial_swap ≡ some i
  start : ℕ
  since : p.since ≡ some start
  early : start ≤ t

module _ (c : Config) (i : ℤ) where
  sustained-Since :
      (p : Policy) (t now : ℕ) (rs : List Reason)
      → p.config ≡ c
      → p.initial_swap ≡ some i
      → rs ≢ []
      → start_or p.since now ≤ t
      → Since c i t (sustained p rs now).1
  unfolding sustained
  sustained-Since p t now [] e f k l = absurd (k refl)
  sustained-Since p t now (r ∷ rs) e f k l = record {
    config = e;
    baseline = f;
    start = start_or p.since now;
    since = refl;
    early = l;
  }

  sustained_long :
      (p : Policy) (t now : ℕ) (rs : List Reason)
      → Since c i t p
      → t + c.sustain ≤ now
      → (sustained p rs now).0 ≡ rs
  unfolding sustained
  sustained_long p t now [] s l = refl
  sustained_long p t now (r ∷ rs) s l =
      rw (s.since, s.config) (rw (le→leb (s.start + c.sustain) now (omega (arith, s.early))))

  check-Since :
      (p : Policy) (t : ℕ) (o : Observation)
      → p.config ≡ c
      → p.initial_swap ≡ some i
      → reasons_at c i o ≢ []
      → start_or p.since o.now ≤ t
      → Since c i t (check_at p o).1
  unfolding check
  check-Since p t o e f k l =
      sustained-Since (record p { initial_swap = some (initial_or p.initial_swap o.sample) }) t
        o.now (breaches p.config (initial_or p.initial_swap o.sample) o.sample o.alloc) e (rw f)
        (λ z. k (rw (e, f) at z)) l

  feed-Since :
      (p : Policy) (t : ℕ) (os : List Observation)
      → Since c i t p
      → AllBreach c i os
      → Since c i t (feed p os)
  unfolding feed
  feed-Since p t [] s h = s
  feed-Since p t (o ∷ os) s h =
      feed-Since (check_at p o).1 t os
        (check-Since p t o s.config s.baseline h.0 (rw s.since s.early)) h.1

  check_long :
      (p : Policy) (t : ℕ) (o : Observation)
      → Since c i t p
      → t + c.sustain ≤ o.now
      → (check_at p o).0 ≡ reasons_at c i o
  unfolding check
  check_long p t o s l =
      sustained_long (record p { initial_swap = some (initial_or p.initial_swap o.sample) }) t o.now
        (breaches p.config (initial_or p.initial_swap o.sample) o.sample o.alloc)
        (record {
          config = s.config;
          baseline = rw s.baseline;
          start = s.start;
          since = s.since;
          early = s.early;
        })
        l
      ∙ rw (s.config, s.baseline)

-- The clock of the calls is at most `t`.
abbrev pub AllBefore : ℕ → List Observation → Type 0
AllBefore t [] = Unit
AllBefore t (o ∷ os) = (o.now ≤ t) × AllBefore t os

record Known (c : Config) (i : ℤ) (t : ℕ) (p : Policy) : Type 0 where
  config : p.config ≡ c
  baseline : p.initial_swap ≡ some i
  early : start_or p.since t ≤ t

start_or_le :
    (since : Option ℕ) (now t : ℕ) → now ≤ t → start_or since t ≤ t → start_or since now ≤ t
start_or_le none now t h k = h
start_or_le (some s) now t h k = k

sustained-Known :
    (c : Config) (i : ℤ) (t : ℕ) (p : Policy) (now : ℕ) (rs : List Reason)
    → Known c i t p
    → now ≤ t
    → Known c i t (sustained p rs now).1
unfolding sustained
sustained-Known c i t p now [] s h = record {
  config = s.config;
  baseline = s.baseline;
  early = omega arith;
}
sustained-Known c i t p now (r ∷ rs) s h = record {
  config = s.config;
  baseline = s.baseline;
  early = start_or_le p.since now t h s.early;
}

feed-Known :
    (c : Config) (i : ℤ) (t : ℕ) (p : Policy) (os : List Observation)
    → Known c i t p
    → AllBefore t os
    → Known c i t (feed p os)
unfolding feed check
feed-Known c i t p [] s h = s
feed-Known c i t p (o ∷ os) s h =
    feed-Known c i t (check_at p o).1 os
      (sustained-Known c i t (record p { initial_swap = some (initial_or p.initial_swap o.sample) })
        o.now (breaches p.config (initial_or p.initial_swap o.sample) o.sample o.alloc)
        (record { config = s.config; baseline = rw s.baseline; early = s.early }) h.0)
      h.1

-- A new policy reports all the reasons of an observation that comes at least the time to sustain
-- after the first of an unbroken run of breaches, whatever it saw before that run, if the clock of
-- the earlier observations does not pass the run's first.
pub run_trips :
    (c : Config) (older : List Observation) (f : Observation) (mid : List Observation)
    (o : Observation)
    → AllBefore f.now older
    → AllBreach c (baseline (older ++ f ∷ mid) o) (f ∷ mid)
    → f.now + c.sustain ≤ o.now
    → (check_at (feed (new_policy c) (older ++ f ∷ mid)) o).0
      ≡ reasons_at c (baseline (older ++ f ∷ mid) o) o
unfolding feed started
run_trips c older f mid o before run late =
    let i = baseline (older ++ f ∷ mid) o in
    let p = feed (started c i) older in
    let k =
      feed-Known c i f.now (started c i) older
        (record { config = refl; baseline = refl; early = omega arith }) before in
    feed-started c (older ++ f ∷ mid) o
    ∙ ap (λ (q : Policy). (check_at q o).0) (feed-append (started c i) older (f ∷ mid))
    ∙ check_long c i (feed (check_at p f).1 mid) f.now o
        (feed-Since c i (check_at p f).1 f.now mid
          (check-Since c i p f.now f k.config k.baseline run.0 k.early) run.1)
        late
