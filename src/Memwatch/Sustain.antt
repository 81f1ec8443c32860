-- ===== src/Memwatch/Sustain.antt =====
-- A trip of the sustained tests has an unbroken run of breaches behind it.
use mathlib.Core.Path.{subst}
use qwen38_flash_next_sglang.Prelude.{
  ℕ, ◌+◌, ◌≤◌, ◌≡◌, ◌≢◌, ◌∙◌, refl, ap, Bool, true, false, Option, none, some, List, [], ◌∷◌, ◌++◌,
  arith, append-nil, append_assoc, leb, leb→le, if◌then◌else◌,
}
use qwen38_flash_next_sglang.Prelude.Int.{ℤ}
use qwen38_flash_next_sglang.Memwatch.{
  Reason, Config, Policy, new_policy, breaches, check, sustained, start_or, initial_or,
}
use qwen38_flash_next_sglang.Memwatch.Trace.{
  Observation, check_at, feed, reasons_at, AllBreach, baseline, started, feed-started,
}

AllBreach-append :
    (c : Config) (i : ℤ) (os : List Observation) (o : Observation)
    → AllBreach c i os
    → reasons_at c i o ≢ []
    → AllBreach c i (os ++ o ∷ [])
AllBreach-append c i [] o h k = (k, tt)
AllBreach-append c i (x ∷ os) o h k = (h.0, AllBreach-append c i os o h.1 k)

-- An unbroken run of breaching observations that ends the history, and began at `t`.
pub record Run (c : Config) (i : ℤ) (t : ℕ) (history : List Observation) : Type 0 where
  pub older : List Observation
  pub first : Observation
  pub recent : List Observation
  pub split : history ≡ older ++ first ∷ recent
  pub all_breach : AllBreach c i (first ∷ recent)
  pub began : first.now ≡ t

abbrev Streak : Config → ℤ → Option ℕ → List Observation → Type 0
Streak c i none history = Unit
Streak c i (some t) history = Run c i t history

record Tracks (c : Config) (i : ℤ) (p : Policy) (history : List Observation) : Type 0 where
  config : p.config ≡ c
  baseline : p.initial_swap ≡ some i
  streak : Streak c i p.since history

module _ (c : Config) (i : ℤ) where
  extend :
      (since : Option ℕ) (history : List Observation) (o : Observation)
      → Streak c i since history
      → reasons_at c i o ≢ []
      → Run c i (start_or since o.now) (history ++ o ∷ [])
  extend none history o s k = record {
    older = history;
    first = o;
    recent = [];
    split = refl;
    all_breach = (k, tt);
    began = refl;
  }
  extend (some t) history o s k = record {
    older = s.older;
    first = s.first;
    recent = s.recent ++ o ∷ [];
    split = ap (λ h. h ++ o ∷ []) s.split ∙ append_assoc s.older (s.first ∷ s.recent) (o ∷ []);
    all_breach = (s.all_breach.0, AllBreach-append c i s.recent o s.all_breach.1 k);
    began = s.began;
  }

  sustained-Tracks :
      (p : Policy) (history : List Observation) (o : Observation) (rs : List Reason)
      → p.config ≡ c
      → p.initial_swap ≡ some i
      → Streak c i p.since history
      → rs ≡ reasons_at c i o
      → Tracks c i (sustained p rs o.now).1 (history ++ o ∷ [])
  unfolding sustained
  sustained-Tracks p history o [] e f s k = record { config = e; baseline = f; streak = tt }
  sustained-Tracks p history o (r ∷ rs) e f s k = record {
    config = e;
    baseline = f;
    streak = extend p.since history o s (λ z. cc);
  }

  check-Tracks :
      (p : Policy) (history : List Observation) (o : Observation)
      → Tracks c i p history
      → Tracks c i (check_at p o).1 (history ++ o ∷ [])
  unfolding check
  check-Tracks p history o t =
      sustained-Tracks (record p { initial_swap = some (initial_or p.initial_swap o.sample) })
        history o (breaches p.config (initial_or p.initial_swap o.sample) o.sample o.alloc) t.config
        (rw t.baseline) t.streak (rw (t.config, t.baseline))

  feed-Tracks :
      (p : Policy) (history os : List Observation)
      → Tracks c i p history
      → Tracks c i (feed p os) (history ++ os)
  unfolding feed
  feed-Tracks p history [] t = rw append-nil t
  feed-Tracks p history (o ∷ os) t =
      subst (Tracks c i (feed (check_at p o).1 os)) (append_assoc history (o ∷ []) os)
        (feed-Tracks (check_at p o).1 (history ++ o ∷ []) os (check-Tracks p history o t))

  nonempty_if : (b : Bool) (rs : List Reason) → (if b then rs else []) ≢ [] → b ≡ true
  nonempty_if true rs h = refl
  nonempty_if false rs h = absurd (h refl)

  -- What a trip says of the state before it.
  sustained_trip :
      (p : Policy) (history : List Observation) (o : Observation) (rs : List Reason)
      → p.config ≡ c
      → Streak c i p.since history
      → rs ≡ reasons_at c i o
      → (sustained p rs o.now).0 ≢ []
      → (t : ℕ) × Run c i t (history ++ o ∷ []) × (t + c.sustain ≤ o.now)
  unfolding sustained
  sustained_trip p history o [] e s k h = absurd (h refl)
  sustained_trip p history o (r ∷ rs) e s k h = (
    start_or p.since o.now,
    extend p.since history o s (λ z. cc),
    omega (
      arith,
      leb→le _ _ (nonempty_if (leb (start_or p.since o.now + p.config.sustain) o.now) (r ∷ rs) h),
      ap (λ (x : Config). x.sustain) e,
    ),
  )

  -- From a state that tracks its history, a trip has an unbroken run of breaches behind it, which
  -- has lasted for the time to sustain.
  trip-Run :
      (p : Policy) (history : List Observation) (o : Observation)
      → Tracks c i p history
      → (check_at p o).0 ≢ []
      → (t : ℕ) × Run c i t (history ++ o ∷ []) × (t + c.sustain ≤ o.now)
  unfolding check
  trip-Run p history o t h =
      sustained_trip (record p { initial_swap = some (initial_or p.initial_swap o.sample) }) history
        o (breaches p.config (initial_or p.initial_swap o.sample) o.sample o.alloc) t.config
        t.streak (rw (t.config, t.baseline)) h

started-Tracks : (c : Config) (i : ℤ) → Tracks c i (started c i) []
unfolding started
started-Tracks c i = record { config = refl; baseline = refl; streak = tt }

-- A new policy that has made any observations without an Xid trips at the next one only if the
-- observations end in an unbroken run of breaches, measured against the first observation's swap,
-- whose first lies at least the time to sustain before the last.
pub trip-IsSustained :
    (c : Config) (os : List Observation) (o : Observation)
    → (check_at (feed (new_policy c) os) o).0 ≢ []
    → (t : ℕ) × Run c (baseline os o) t (os ++ o ∷ []) × (t + c.sustain ≤ o.now)
trip-IsSustained c os o h =
    let i = baseline os o in
    trip-Run c i (feed (started c i) os) os o
      (feed-Tracks c i (started c i) [] os (started-Tracks c i)) (λ z. h (feed-started c os o ∙ z))
