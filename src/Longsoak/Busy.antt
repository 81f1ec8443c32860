-- ===== src/Longsoak/Busy.antt =====
-- `Busy` of bench/longsoak.py and the pauses of `sample`, as moves of the worker threads and of the
-- main thread in any order.
use qwen38_flash_next_sglang.Prelude.{
  ℕ, zero, suc, ◌-◌, Bool, true, false, not, ◌||◌, Option, none, some, List, [], ◌∷◌, get_elem?,
  ◌==◌, if◌then◌else◌,
}

-- A worker before `Busy`, past the loop on `paused`, and in the body of the `with`.
pub data Phase : Type 0 where
  outside passed inside : Phase

pub record Soak : Type 0 where
  pub paused : Bool
  pub stop : Bool
  pub inflight : ℕ
  pub requests : ℕ
  pub workers : List Phase

-- A worker looks at `paused` (and sleeps if it has to wait), counts its request in, and counts it out.
-- The main thread sets and clears `paused`, and sets `stop`.
pub data Move : Type 0 where
  look enter leave : ℕ → Move
  pause resume halt : Move

unfoldable pub set_phase : ℕ → Phase → List Phase → List Phase
set_phase i q [] = []
set_phase zero q (p ∷ ps) = q ∷ ps
set_phase (suc i) q (p ∷ ps) = p ∷ set_phase i q ps

-- The worker goes on with `change` if it is in the phase that the move starts from.
abbrev pub same_phase : Phase → Phase → Bool
same_phase outside outside = true
same_phase passed passed = true
same_phase inside inside = true
same_phase p q = false

abbrev pub in_phase : Phase → Option Phase → Bool
in_phase p none = false
in_phase p (some q) = same_phase p q

abbrev pub moved : ℕ → Phase → ℕ → ℕ → Soak → Soak
moved i q n r s = record {
  paused = s.paused;
  stop = s.stop;
  inflight = n;
  requests = r;
  workers = set_phase i q s.workers;
}

-- `while paused.is_set() and not stop.is_set()` has ended.
abbrev pub may_pass : Soak → Bool
may_pass s = not s.paused || s.stop

unfoldable pub step : Move → Soak → Soak
unfolding set_phase
step (look i) s =
    if in_phase outside (get_elem? s.workers i)
    then (if may_pass s then moved i passed s.inflight s.requests s else s)
    else s
step (enter i) s =
    if in_phase passed (get_elem? s.workers i)
    then moved i inside (suc s.inflight) (suc s.requests) s
    else s
step (leave i) s =
    if in_phase inside (get_elem? s.workers i)
    then moved i outside (s.inflight - 1) s.requests s
    else s
step pause s = record s { paused = true }
step resume s = record s { paused = false }
step halt s = record s { stop = true }

unfoldable pub run : List Move → Soak → Soak
unfolding step
run [] s = s
run (m ∷ ms) s = run ms (step m s)

unfoldable pub all_outside : ℕ → List Phase
all_outside zero = []
all_outside (suc n) = outside ∷ all_outside n

-- As many workers as threads are started.
unfoldable pub begin : ℕ → Soak
unfolding all_outside
begin n = record {
  paused = false;
  stop = false;
  inflight = 0;
  requests = 0;
  workers = all_outside n;
}

-- What a sample writes as `drained`
abbrev pub drained : Soak → Bool
drained s = s.inflight == 0
