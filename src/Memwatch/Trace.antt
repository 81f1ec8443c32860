-- ===== src/Memwatch/Trace.antt =====
-- Sequences of calls of `Policy.check`, without an Xid.
use qwen38_flash_next_sglang.Prelude.{
  ℕ, ◌≡◌, ◌≢◌, refl, Bool, false, none, some, List, [], ◌∷◌, ◌++◌,
}
use qwen38_flash_next_sglang.Prelude.Int.{ℤ}
use qwen38_flash_next_sglang.Memwatch.{Reason, Sample, Config, Policy, new_policy, breaches, check}

-- One call of `check` without an Xid.
pub record Observation : Type 0 where
  pub sample : Sample
  pub now : ℕ
  pub alloc : Bool

abbrev pub check_at : Policy → Observation → List Reason × Policy
check_at p o = check p o.sample o.now false o.alloc

-- The policy after a sequence of calls.
unfoldable pub feed : Policy → List Observation → Policy
feed p [] = p
feed p (o ∷ os) = feed (check_at p o).1 os

abbrev pub reasons_at : Config → ℤ → Observation → List Reason
reasons_at c i o = breaches c i o.sample o.alloc

abbrev pub AllBreach : Config → ℤ → List Observation → Type 0
AllBreach c i [] = Unit
AllBreach c i (o ∷ os) = (reasons_at c i o ≢ []) × AllBreach c i os

-- The swap in use when the policy first looks is its baseline.
abbrev pub baseline : List Observation → Observation → ℤ
baseline [] o = o.sample.swap_used
baseline (f ∷ os) o = f.sample.swap_used

unfoldable pub started : Config → ℤ → Policy
started c i = record { config = c; since = none; initial_swap = some i }

pub feed-started :
    (c : Config) (os : List Observation) (o : Observation)
    → (check_at (feed (new_policy c) os) o).0 ≡ (check_at (feed (started c (baseline os o)) os) o).0
unfolding feed check new_policy started
feed-started c [] o = refl
feed-started c (f ∷ os) o = refl

pub feed-append : (p : Policy) (xs ys : List Observation) → feed p (xs ++ ys) ≡ feed (feed p xs) ys
unfolding feed
feed-append p [] ys = refl
feed-append p (x ∷ xs) ys = feed-append (check_at p x).1 xs ys
