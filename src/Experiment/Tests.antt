-- ===== src/Experiment/Tests.antt =====
-- Selections and runs of the suites, and the theorems at concrete environments.
use qwen38_flash_next_sglang.Prelude.{
  ℕ, ◌+◌, ◌≡◌, ◌≢◌, ◌↔◌, refl, inl, inr, true, false, Option, none, some, List, [], ◌∷◌, ◌++◌,
  arith, Text, codes, mem_text, =ₜ_iff,
}
use qwen38_flash_next_sglang.Prelude.Int.{ℤ, pos}
use qwen38_flash_next_sglang.Experiment.{Var, Env, Suite, Task}
use qwen38_flash_next_sglang.Experiment.Flags.{
  AllSafe, switch, one, many, launch_flags_from_argv, launch_flags_from_argv-AllSafe,
}
use qwen38_flash_next_sglang.Experiment.Select.{tasks, refused, only_matched_no_suites, selection}
use qwen38_flash_next_sglang.Experiment.Order.{IsOrdered, selection-IsOrdered}
use qwen38_flash_next_sglang.Experiment.Suites
use qwen38_flash_next_sglang.Experiment.Suites.{
  Ended, exited, timed_out, Verdict, valid, row_of, aborted, pass, returned, raised, suites,
  run_suite, deadline, row, Row,
}
use qwen38_flash_next_sglang.Experiment.Verdicts.{SelectedPass, suites_pass_iff}
use qwen38_flash_next_sglang.Experiment.Record.{IsWritten, suites-IsWritten, abort_ends}
use qwen38_flash_next_sglang.Json.{
  Value, bool, num, arr, obj, nil, cons, end, field, ok, item, iterate, truth, is_true, equals,
  all_of,
}
use qwen38_flash_next_sglang.Experiment.Validate.{rows_pass, validate}
use qwen38_flash_next_sglang.Experiment.Accepts.{Accepts, validate_fields_iff}
use qwen38_flash_next_sglang.Experiment.Flags.{is_flag, key_of, safe_flags}
use qwen38_flash_next_sglang.Experiment.Recorded.{
  Values, recorded, told, launch_flags_from_argv_records,
}
use qwen38_flash_next_sglang.Experiment.Bounded
use qwen38_flash_next_sglang.Experiment.Bounded.{
  Polled, IsReaped, bounded, loop, bounded_returns_iff, loop_ends,
}

abbrev no_number : Text → Option ℤ
no_number _ = none

-- `ONLY=decode, smoke`
abbrev only_two : Env
only_two Var.only = some (codes "decode, smoke")
only_two _ = none

abbrev smoke_task : Task
smoke_task = record { suite = Suite.smoke; overrides = [] }

abbrev decode_task : Task
decode_task = record {
  suite = Suite.decode;
  overrides = (Var.thinking, codes "both") ∷ (Var.n, codes "3") ∷ [];
}

selects_two : selection only_two ≡ tasks (smoke_task ∷ decode_task ∷ [])
unfolding selection
selects_two = refl

abbrev only_none : Env
only_none Var.only = some (codes "nothing")
only_none _ = none

selects_none : selection only_none ≡ refused only_matched_no_suites
unfolding selection
selects_none = refl

selection-IsOrdered_example : IsOrdered (selection only_two)
selection-IsOrdered_example = selection-IsOrdered only_two

abbrev no_float : Text → Option ℕ
no_float _ = none

abbrev all_exit : Suite → ℕ → Ended
all_exit _ _ = exited (pos 0)

abbrev all_valid : Suite → Verdict
all_valid _ = valid true

abbrev decode_hangs : Suite → ℕ → Ended
decode_hangs Suite.decode _ = timed_out
decode_hangs _ _ = exited (pos 0)

smoke_row :
    run_suite no_float decode_hangs all_valid only_two smoke_task
    ≡ row (row_of Suite.smoke (some (pos 0)) pass)
unfolding run_suite deadline Suites.after_end Suites.after_exit Suites.is_zero
smoke_row = refl

two_suites_return : (suites no_float all_exit all_valid only_two).end ≡ returned 0
unfolding suites selection run_suite deadline Suites.after_end Suites.after_exit Suites.judge
    Suites.is_zero
two_suites_return = refl

suites_pass_iff_example :
    ((suites no_float all_exit all_valid only_two).end ≡ returned 0)
    ↔ SelectedPass no_float all_exit all_valid only_two
suites_pass_iff_example = suites_pass_iff no_float all_exit all_valid only_two

suites-IsWritten_example : IsWritten (suites no_float decode_hangs all_valid only_two)
suites-IsWritten_example = suites-IsWritten no_float decode_hangs all_valid only_two

decode_deadline : deadline no_float decode_hangs all_valid only_two Suite.decode ≡ some 900000
unfolding deadline
decode_deadline = refl

abbrev smoke_rows : List Row
smoke_rows = row_of Suite.smoke (some (pos 0)) pass ∷ []

abort_ends_example : suites no_float decode_hangs all_valid only_two ≡ (
    let s : Suites.Summary = record {
      phase = Suites.failed;
      rows = smoke_rows ++ row_of Suite.decode none aborted ∷ [];
    } in
    record { summary = s; file = some s; end = raised })
abort_ends_example =
    abort_ends no_float decode_hangs all_valid only_two (smoke_task ∷ []) [] decode_task smoke_rows
      900000 selects_two (smoke_row, tt) decode_deadline (inl refl)

abbrev still_running : ℕ → Bounded.Round
still_running t = record { poll = none; guard_raises = false; now = t }

abbrev stubborn : Bounded.Cleanup
stubborn = record {
  poll = none;
  term_raises = false;
  term_wait_expires = true;
  kill_raises = false;
  kill_wait_expires = false;
}

-- It exits with 3 in the second round.
abbrev exits_late : List Bounded.Round
exits_late =
    still_running 120 ∷ record { poll = some (pos 3); guard_raises = false; now = 140 } ∷ []

loop_ends_example : loop (100 + 50) (still_running 120 ∷ still_running 150 ∷ []) ≢ Bounded.looping
loop_ends_example =
    loop_ends 100 50 (still_running 120 ∷ still_running 150 ∷ []) (inr (inl (omega arith)))

bounded_returns_iff_example :
    ((bounded 100 50 exits_late stubborn).exit ≡ Bounded.returned (pos 3))
    ↔ (Polled (100 + 50) exits_late (pos 3) × IsReaped stubborn)
bounded_returns_iff_example = bounded_returns_iff 100 50 exits_late stubborn (pos 3)

-- `{"results": [{"pass": true}], "failed": 0}`
abbrev quality_report : Value
quality_report = obj (
    field (codes "results") (arr (cons (obj (field (codes "pass") (bool true) end)) nil))
      (field (codes "failed") (num (pos 0)) end))

validate_fields_iff_example :
    (validate no_number Suite.quality quality_report ≡ ok true)
    ↔ Accepts Suite.quality quality_report
validate_fields_iff_example = validate_fields_iff no_number Suite.quality quality_report (λ h. cc)

quality_accepted : validate no_number Suite.quality quality_report ≡ ok true
unfolding validate rows_pass item iterate truth is_true equals all_of
quality_accepted = refl

abbrev argv : List Text
argv =
    codes "python3"
    ∷ codes "--model-path"
    ∷ codes "/m"
    ∷ codes "--api-key"
    ∷ codes "s"
    ∷ codes "--cuda-graph-bs-decode"
    ∷ codes "1"
    ∷ codes "2"
    ∷ codes "--disable-radix-cache"
    ∷ []

argv_flags :
    launch_flags_from_argv argv
    ≡ (codes "model_path", one (codes "/m"))
      ∷ (codes "cuda_graph_bs_decode", many (codes "1" ∷ codes "2" ∷ []))
      ∷ (codes "disable_radix_cache", switch)
      ∷ []
unfolding launch_flags_from_argv
argv_flags = refl

launch_flags_from_argv-AllSafe_example : AllSafe (launch_flags_from_argv argv)
launch_flags_from_argv-AllSafe_example = launch_flags_from_argv-AllSafe argv

abbrev bs_flag : Text
bs_flag = codes "--cuda-graph-bs-decode"

abbrev radix_flag : Text
radix_flag = codes "--disable-radix-cache"

both_flagged : (is_flag bs_flag ≡ true) × (is_flag radix_flag ≡ true)
unfolding is_flag
both_flagged = (refl, refl)

bs_flag_safe : mem_text (key_of bs_flag) safe_flags ≡ true
unfolding key_of safe_flags
bs_flag_safe = refl

one_two-Values : Values (codes "1" ∷ codes "2" ∷ [])
unfolding is_flag
one_two-Values = (refl, (refl, tt))

other_key : key_of radix_flag ≢ key_of bs_flag
unfolding key_of
other_key e = cc ((=ₜ_iff (key_of radix_flag) (key_of bs_flag)).1 e)

launch_flags_from_argv_records_example :
    recorded (key_of bs_flag) (
      launch_flags_from_argv
        ((codes "python3" ∷ []) ++ bs_flag ∷ ((codes "1" ∷ codes "2" ∷ []) ++ radix_flag ∷ [])))
    ≡ some (told (key_of bs_flag) (codes "1" ∷ codes "2" ∷ []))
launch_flags_from_argv_records_example =
    launch_flags_from_argv_records (codes "python3" ∷ []) bs_flag (codes "1" ∷ codes "2" ∷ [])
      (radix_flag ∷ []) both_flagged.0 bs_flag_safe one_two-Values both_flagged.1
      (λ f e. other_key e, tt)
