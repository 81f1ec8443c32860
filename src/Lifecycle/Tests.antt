-- ===== src/Lifecycle/Tests.antt =====
-- One served experiment that passes, and one whose log reads fail.
use qwen38_flash_next_sglang.Prelude.{◌≡◌, refl, true, false, ◌&&◌, List, [], ◌∷◌, Text, codes}
use qwen38_flash_next_sglang.Lifecycle.{
  fine, raises, World, Options, Ending, refused, run, ◌>>=◌, prepare, logged, is_fact,
}
use qwen38_flash_next_sglang.Lifecycle.CleanUp.{run_passes, Checked}
use qwen38_flash_next_sglang.Lifecycle.Stop.{run_stops, sent, returns}

abbrev options : Options
options = record {
  first_build = false;
  kernel_check = true;
  token_map = false;
  prefetch = false;
  rss_budget = true;
  replay_check = true;
}

abbrev good_ending : Ending
good_ending = record {
  server_tail = fine tt;
  served_log = fine tt;
  stop = fine 0;
  watch_wait = fine tt;
  tripped = false;
}

abbrev good_log : List Text
good_log =
    codes "Triton SM121 QSA on"
    ∷ codes "PLE resident set capped"
    ∷ codes "committing PLE n-gram/short-conv state"
    ∷ []

abbrev world : Ending → World
world e = record {
  inventory = fine tt;
  preserve = fine tt;
  tag = fine tt;
  identity = fine true;
  bind = fine tt;
  unload = refused;
  names_ours = fine true;
  stop_prior = fine tt;
  occupied = fine false;
  start_watch = fine tt;
  kernel_check = fine 0;
  serve = fine 0;
  launch_info = fine tt;
  boot_deadline = 1500000;
  boot_turns =
      record { ready = false; guard = fine tt; now = 5000; running = fine true }
      ∷ record { ready = true; guard = fine tt; now = 10000; running = fine true }
      ∷ [];
  built_identity = fine tt;
  effective_info = fine tt;
  boot_log = fine good_log;
  launch_token_map = fine true;
  copy_report = fine tt;
  suites = fine 0;
  metrics = fine tt;
  late_log = raises;
  ending = e;
}

run_passes_example :
    Checked options (world good_ending) 0
    × ((world good_ending).ending.tripped ≡ false)
    × ((world good_ending).ending.stop ≡ fine 0)
unfolding run ◌>>=◌ logged is_fact
run_passes_example = run_passes options (world good_ending) refl

-- The reads of the log fail: the container is not told to stop.
abbrev left_running : Ending
left_running = record {
  server_tail = raises;
  served_log = fine tt;
  stop = fine 0;
  watch_wait = fine tt;
  tripped = false;
}

run_stops_example :
    sent (run options (world left_running) []).1
    ≡ returns (prepare options (world left_running) []).0
      && (returns (world left_running).start_watch
          && (returns left_running.server_tail && returns left_running.served_log))
run_stops_example = run_stops options (world left_running)
