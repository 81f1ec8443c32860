-- ===== src/Memwatch.antt =====
-- scripts/memwatch.py: the memory watchdog's policy, its reading of the kernel log, and its loop.
-- Memory is in KiB, as /proc/meminfo gives it, and times are in milliseconds; thresholds are in
-- the same units. The source divides both sides by the same powers, in floating point.
pub mod Trace
pub mod Sustain
pub mod Prompt
pub mod Loop
pub mod Ends
mod Tests
use qwen38_flash_next_sglang.Prelude.{
  ℕ, ◌+◌, Bool, true, false, ◌&&◌, ◌||◌, Option, none, some, List, [], ◌∷◌, ◌++◌, ltb, leb,
  if◌then◌else◌, Text, codes, has_sub, any,
}
use qwen38_flash_next_sglang.Prelude.Int.{ℤ, ◌+ℤ◌, ltb_ℤ}

pub data Reason : Type 0 where
  new_xid : Reason
  available_below_floor : Reason
  free_below_gated_floor : Reason
  swap_growth_above_budget : Reason
  new_allocation_error : Reason

-- `memory()` of one moment
pub record Sample : Type 0 where
  pub available : ℕ
  pub free : ℕ
  pub swap_used : ℤ

-- the constructor's arguments
pub record Config : Type 0 where
  pub available : ℕ
  pub free : ℕ
  pub free_gate : ℕ
  pub sustain : ℕ
  pub swap_growth : ℤ

pub record Policy : Type 0 where
  pub config : Config
  pub since : Option ℕ
  pub initial_swap : Option ℤ

unfoldable pub new_policy : Config → Policy
new_policy c = record { config = c; since = none; initial_swap = none }

-- `if self.initial_swap is None: self.initial_swap = ...`
abbrev pub initial_or : Option ℤ → Sample → ℤ
initial_or none s = s.swap_used
initial_or (some i) s = i

abbrev pub when_reason : Bool → Reason → List Reason
when_reason true r = r ∷ []
when_reason false r = []

-- The four tests, in the order in which the source appends them.
pub breaches : Config → ℤ → Sample → Bool → List Reason
breaches c initial s alloc =
    when_reason (ltb s.available c.available) available_below_floor
    ++ (when_reason (ltb s.free c.free && ltb s.available c.free_gate) free_below_gated_floor
        ++ (when_reason (ltb_ℤ (initial +ℤ c.swap_growth) s.swap_used) swap_growth_above_budget
            ++ when_reason alloc new_allocation_error))

abbrev pub start_or : Option ℕ → ℕ → ℕ
start_or none now = now
start_or (some t) now = t

-- `if reasons: ... else: self.since = None`
pub sustained : Policy → List Reason → ℕ → List Reason × Policy
sustained p [] now = ([], record p { since = none })
sustained p (r ∷ rs) now =
    let start = start_or p.since now in
    (if leb (start + p.config.sustain) now then r ∷ rs else [], record p { since = some start })

unfoldable pub check : Policy → Sample → ℕ → Bool → Bool → List Reason × Policy
unfolding sustained breaches ◌+ℤ◌
check p s now xid alloc =
    let initial = initial_or p.initial_swap s in
    let p' : Policy = record p { initial_swap = some initial } in
    if xid then (new_xid ∷ [], p') else sustained p' (breaches p.config initial s alloc) now

-- `nvidia_signals`: the lines that name a GPU exception or an allocation failure
abbrev pub is_xid : Text → Bool
is_xid = has_sub (codes "NVRM: Xid")

abbrev pub is_alloc : Text → Bool
is_alloc ln = has_sub (codes "NV_ERR_NO_MEMORY") ln || has_sub (codes "Out of memory [NV_ERR") ln

unfoldable pub signal_lines : List Text → List Text
signal_lines [] = []
signal_lines (ln ∷ rest) =
    let kept = signal_lines rest in if is_xid ln || is_alloc ln then ln ∷ kept else kept

unfoldable pub nvidia_signals : List Text → Bool × Bool × List Text
unfolding signal_lines
nvidia_signals text = let lines = signal_lines text in (any is_xid lines, any is_alloc lines, lines)
