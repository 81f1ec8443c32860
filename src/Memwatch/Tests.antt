-- ===== src/Memwatch/Tests.antt =====
-- Runs of the watchdog, and the theorems at concrete observations.
use qwen38_flash_next_sglang.Prelude.{
  ℕ, ◌+◌, ◌≤◌, ◌≡◌, refl, false, some, [], ◌∷◌, arith, Text, codes,
}
use qwen38_flash_next_sglang.Prelude.Int.{pos}
use qwen38_flash_next_sglang.Memwatch.{available_below_floor, Sample, Config, new_policy, check}
use qwen38_flash_next_sglang.Memwatch.Trace.{Observation, check_at, feed, reasons_at}
use qwen38_flash_next_sglang.Memwatch.Sustain.{Run, trip-IsSustained}
use qwen38_flash_next_sglang.Memwatch.Prompt.{run_trips}
use qwen38_flash_next_sglang.Memwatch.Loop.{lines, called, Stopping, Round}

-- 6 GiB, 0.5 GiB, 10 GiB, 15 s and 0.5 GiB: the defaults of the constructor.
abbrev defaults : Config
defaults = record {
  available = 6291456;
  free = 524288;
  free_gate = 10485760;
  sustain = 15000;
  swap_growth = pos 524288;
}

abbrev healthy : Sample
healthy = record { available = 20000000; free = 9000000; swap_used = pos 0 }

abbrev starved : Sample
starved = record { available = 5000000; free = 700000; swap_used = pos 0 }

abbrev at : ℕ → Sample → Observation
at t s = record { sample = s; now = t; alloc = false }

trip_after_sustain :
    (check_at
      (feed (new_policy defaults) (at 0 healthy ∷ at 5000 starved ∷ []))
      (at 20000 starved)).0
    ≡ available_below_floor ∷ []
unfolding feed check new_policy
trip_after_sustain = refl

no_trip_before :
    (check_at
      (feed (new_policy defaults) (at 0 healthy ∷ at 5000 starved ∷ []))
      (at 19999 starved)).0
    ≡ []
unfolding feed check new_policy
no_trip_before = refl

trip-IsSustained_example :
    (t : ℕ) × Run defaults (pos 0) t (at 0 healthy ∷ at 5000 starved ∷ at 20000 starved ∷ [])
    × (t + 15000 ≤ 20000)
trip-IsSustained_example =
    trip-IsSustained defaults (at 0 healthy ∷ at 5000 starved ∷ []) (at 20000 starved)
      (λ z. cc (trip_after_sustain, z))

starved_breach : reasons_at defaults (pos 0) (at 5000 starved) ≡ available_below_floor ∷ []
unfolding check
starved_breach = refl

run_trips_example :
    (check_at
      (feed (new_policy defaults) (at 0 healthy ∷ at 5000 starved ∷ []))
      (at 20000 starved)).0
    ≡ reasons_at defaults (pos 0) (at 20000 starved)
run_trips_example =
    run_trips defaults (at 0 healthy ∷ []) (at 5000 starved) [] (at 20000 starved) (omega arith)
      ((λ z. cc (starved_breach, z)), tt) (omega arith)

abbrev xid_line : Text
xid_line = codes "kernel: NVRM: Xid (PCI:0000:01:00): 31"

abbrev stops : Stopping
stops = record { trip = called; logs = called; tail = called; stop = some (pos 0) }

abbrev quiet : Round
quiet = record {
  done = false;
  sample = some healthy;
  journal = lines [];
  monotonic = 0;
  stopping = stops;
}

abbrev faulty : Round
faulty = record quiet { journal = lines (codes "usb" ∷ xid_line ∷ []); monotonic = 5000 }
