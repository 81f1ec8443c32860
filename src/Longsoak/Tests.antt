-- ===== src/Longsoak/Tests.antt =====
-- A worker that has looked before a pause begins its request in it.
use qwen38_flash_next_sglang.Prelude.{
  ℕ, ◌+◌, ◌≤◌, ◌≡◌, refl, true, not, ◌&&◌, ◌↔◌, none, some, all, length, ◌==◌, List, [], ◌∷◌,
}
use qwen38_flash_next_sglang.Prelude.Int.{pos, ◌+ℤ◌}
use qwen38_flash_next_sglang.Longsoak.Busy.{
  Move, look, enter, leave, passed, inside, begin, drained, run,
}
use qwen38_flash_next_sglang.Longsoak.Pause.{at_pause, in_pause, number_in, pause-Held}
use qwen38_flash_next_sglang.Longsoak.Sample.{
  Row, Seen, empty_row, sample, flush_tries, same_ids, idle_step, compared,
}
use qwen38_flash_next_sglang.Longsoak.Report.{
  Counters, good_rows, hour_rates, sorted, twice_median, decayed, onset, reference_rate, write,
  exit_code,
}
use qwen38_flash_next_sglang.Longsoak.Judged.{is_clean, is_quiet, OnsetOf, write-Judged}

abbrev before : List Move
before = look 0 ∷ enter 0 ∷ look 1 ∷ []

pause-Held_example :
    ((in_pause 3 before (leave 0 ∷ enter 1 ∷ [])).inflight
      ≡ number_in inside (in_pause 3 before (leave 0 ∷ enter 1 ∷ [])).workers)
    × ((in_pause 3 before (leave 0 ∷ enter 1 ∷ [])).requests
          + number_in passed (in_pause 3 before (leave 0 ∷ enter 1 ∷ [])).workers
        ≤ (at_pause 3 before).requests + number_in passed (at_pause 3 before).workers)
    × ((in_pause 3 before (leave 0 ∷ enter 1 ∷ [])).inflight
          + number_in passed (in_pause 3 before (leave 0 ∷ enter 1 ∷ [])).workers
        ≤ (at_pause 3 before).inflight + number_in passed (at_pause 3 before).workers)
unfolding run begin
pause-Held_example = pause-Held 3 before (leave 0 ∷ enter 1 ∷ []) refl refl

-- The sample finds nothing in flight, and then the worker counts its request in.
drained_too_early :
    (drained (in_pause 3 before (leave 0 ∷ [])) ≡ true)
    × ((in_pause 3 before (leave 0 ∷ enter 1 ∷ [])).inflight ≡ 1)
unfolding run begin
drained_too_early = (refl, refl)

-- Rates of 40 and 20 tokens a second, twice over.
abbrev row_of : ℕ → ℕ → Row
row_of i rate = record (empty_row i 100 true) {
  probe_tok_s = some (pos rate);
  server_errors = some 0;
}

abbrev rows : List Row
rows = row_of 0 80000000 ∷ row_of 1 80000000 ∷ row_of 2 40000000 ∷ []

abbrev no_errors : Counters
no_errors = record {
  requests = 9;
  ok = 9;
  client_aborts = 0;
  errors = 0;
  invalid_tool_calls = 0;
  a3_bad_first_token = 0;
  a3_probe_sends = 0;
  a3_probe_drift = 0;
  a3_fixed_by_flush = 0;
  agent_sessions = 1;
}

write-Judged_example :
    ((exit_code (write (pos 1500000) 600000 rows no_errors true) ≡ 0)
      ↔ (is_quiet no_errors && (not (length rows == 0) && all is_clean rows) ≡ true))
    × OnsetOf
        (decayed (pos 1500000) 600000 (reference_rate rows))
        (good_rows rows)
        (write (pos 1500000) 600000 rows no_errors true).0.decay_onset
write-Judged_example = write-Judged (pos 1500000) 600000 rows no_errors true

slow_third :
    (write (pos 1500000) 600000 rows no_errors true).0.decay_onset ≡ some (row_of 2 40000000)
unfolding write good_rows hour_rates twice_median sorted onset decayed ◌+ℤ◌
slow_third = refl

abbrev seen : Seen
seen = record {
  gauges = some (record { running = some (pos 0); queue = none });
  rounds = [];
  cleared = 0;
  prefix = true;
  hit = some (1 ∷ []);
  flushes = some [];
  miss = some (1 ∷ []);
  rate1 = some (pos 40000000);
  rate2 = some (pos 40000000);
  probe_accept = some [];
  log = some ([], 0);
}

-- If the cache cannot be flushed before there is a reference, the sample raises.
no_reference :
    (sample 248077
      (λ lens. pos 0)
      seen
      (empty_row 0 0 true)
      (record {
        row = empty_row 0 0 true;
        reference = none;
        bad_first_token = 0;
        fixed_by_flush = 0;
      })).row.sample_error
    ≡ true
unfolding sample flush_tries compared same_ids idle_step
no_reference = refl
