-- ===== src/Longsoak/Sample.antt =====
-- `generate`, `flush_cache` and the measurements of `sample` in bench/longsoak.py. What the server, the
-- clock and the log give is the input; where a call raises, the input is `none`, and the row keeps
-- what was measured before it. Rates and gauges are in millionths.
use qwen38_flash_next_sglang.Prelude.{
  ℕ, zero, suc, ◌+◌, Bool, true, false, not, ◌&&◌, ◌||◌, Option, none, some, List, [], ◌∷◌, length,
  Text, ◌=ₜ◌, mem_text, ◌==◌, leb, ltb, max, if◌then◌else◌,
}
use qwen38_flash_next_sglang.Prelude.Int.{ℤ, pos, ◌+ℤ◌}
use qwen38_flash_next_sglang.Json.{eq_ℤ}

-- The keys of a row that are read again; a key that was not set is `none`, or `some none` where the
-- row holds `None`.
pub record Row : Type 0 where
  pub i : ℕ
  pub elapsed_h : ℕ
  pub drained : Bool
  pub idle_running_reqs : Option ℤ
  pub idle_queue_reqs : Option ℤ
  pub zombie_clear_s : Option ℕ
  pub zombie_stuck : Option Bool
  pub a3_hit_equals_miss : Option Bool
  -- twice the median of the two rates
  pub probe_tok_s : Option ℤ
  pub probe_accept_len : Option (Option ℤ)
  pub zombie_log_lines : Option ℕ
  pub zombie_rids : Option ℕ
  pub zombie_outputs_max : Option ℕ
  pub server_errors : Option ℕ
  pub sample_error : Bool

-- The row, `state["reference"]`, and the counters that a sample changes.
pub record Sampling : Type 0 where
  pub row : Row
  pub reference : Option (List ℕ)
  pub bad_first_token : ℕ
  pub fixed_by_flush : ℕ

pub record Gauges : Type 0 where
  pub running : Option ℤ
  pub queue : Option ℤ

abbrev pub gauge_or_zero : Option ℤ → ℤ
gauge_or_zero none = pos 0
gauge_or_zero (some n) = n

abbrev pub is_some_truth : Option ℤ → Bool
is_some_truth none = false
is_some_truth (some n) = not (eq_ℤ n (pos 0))

abbrev pub still_runs : Gauges → Bool
still_runs m = is_some_truth m.running || is_some_truth m.queue

-- Whether the first token of an output is above the ids of the tokenizer.
abbrev pub is_bad_first : ℕ → List ℕ → Bool
is_bad_first first_bad [] = false
is_bad_first first_bad (t ∷ ts) = leb first_bad t

-- `flush_cache`, over the answers of its 30 tries: a status, or an HTTP error.
unfoldable pub flush_tries : ℕ → List (Option ℕ) → Bool
flush_tries zero answers = false
flush_tries (suc n) [] = false
flush_tries (suc n) (none ∷ answers) = flush_tries n answers
flush_tries (suc n) (some status ∷ answers) =
    let later = flush_tries n answers in if status == 200 then true else later

abbrev pub flush_cache : List (Option ℕ) → Bool
flush_cache answers = flush_tries 30 answers

-- The loop that waits for requests which the server still runs, over the seconds since its start
-- and the gauges of each round; `m` are the last ones that were read.
unfoldable pub wait_clear : Gauges → List (ℕ × Option Gauges) → Option Gauges
wait_clear m [] = some m
wait_clear m ((seconds, none) ∷ rounds) = if ltb seconds 300000 then none else some m
wait_clear m ((seconds, some now) ∷ rounds) =
    let later = wait_clear now rounds in
    if ltb seconds 300000 then (if still_runs now then later else some now) else some m

-- What the calls of one sample give.
pub record Seen : Type 0 where
  pub gauges : Option Gauges
  pub rounds : List (ℕ × Option Gauges)
  -- `round(time.monotonic() - t_zombie, 1)` after the loop, in tenths of a second
  pub cleared : ℕ
  -- `state["prefix"]` is set
  pub prefix : Bool
  pub hit : Option (List ℕ)
  pub flushes : Option (List (Option ℕ))
  pub miss : Option (List ℕ)
  pub rate1 : Option ℤ
  pub rate2 : Option ℤ
  -- the accept lengths of the probe; the ids of deleted requests and the errors in the log since the
  -- last sample, if its numbers can be read
  pub probe_accept : Option (List ℤ)
  pub log : Option (List Text × ℕ)

-- The steps of the body of `try`: one that raises ends it.
abbrev pub Body : Type 0
Body = Bool × Sampling

abbrev pub on_row : (Row → Row) → Sampling → Sampling
on_row f s = record s { row = f s.row }

abbrev pub raised : Sampling → Body
raised s = (true, s)

abbrev pub going_on : Body → (Sampling → Body) → Body
going_on (true, s) next = (true, s)
going_on (false, s) next = next s

abbrev pub read {ℓ} : {A : Type ℓ} → Option A → (A → Sampling → Body) → Sampling → Body
read none next s = raised s
read (some a) next s = next a s

abbrev pub set_cleared : ℕ → Gauges → Sampling → Body
set_cleared seconds m s = (
  false,
  on_row (λ r. record r { zombie_clear_s = some seconds; zombie_stuck = some (still_runs m) }) s,
)

abbrev pub set_gauges : Gauges → Row → Row
set_gauges m r = record r {
  idle_running_reqs = some (gauge_or_zero m.running);
  idle_queue_reqs = some (gauge_or_zero m.queue);
}

unfoldable pub idle_step : Seen → Sampling → Body
unfolding wait_clear
idle_step seen = read seen.gauges (λ m s.
    if still_runs m
    then read (wait_clear m seen.rounds) (set_cleared seen.cleared) (on_row (set_gauges m) s)
    else (false, on_row (set_gauges m) s))

unfoldable pub same_ids : List ℕ → List ℕ → Bool
same_ids [] [] = true
same_ids [] (y ∷ ys) = false
same_ids (x ∷ xs) [] = false
same_ids (x ∷ xs) (y ∷ ys) = (x == y) && same_ids xs ys

-- `generate`, as far as its counter
abbrev pub generated : ℕ → List ℕ → Sampling → Sampling
generated first_bad out s =
    if is_bad_first first_bad out then record s { bad_first_token = suc s.bad_first_token } else s

-- The reference is the first answer after a flush.
abbrev pub reference_or : Bool → List ℕ → Option (List ℕ) → Option (List ℕ)
reference_or flushed miss none = if flushed then some miss else none
reference_or flushed miss (some ids) = some ids

abbrev pub count_fixed : Bool → Sampling → Sampling
count_fixed fixed s = if fixed then record s { fixed_by_flush = suc s.fixed_by_flush } else s

-- The row has the comparison before `state["reference"]` is read, which raises where it was never set.
abbrev pub judged : Bool → List ℕ → List ℕ → Option (List ℕ) → Sampling → Body
judged flushed hit miss none s = raised s
judged flushed hit miss (some ids) s = (
  false,
  count_fixed (flushed && (not (same_ids hit miss) && same_ids miss ids))
      (record s { reference = some ids }),
)

unfoldable pub compared : Bool → List ℕ → List ℕ → Sampling → Body
unfolding same_ids
compared flushed hit miss s =
    judged flushed hit miss (reference_or flushed miss s.reference)
      (on_row (λ r. record r { a3_hit_equals_miss = some (same_ids hit miss) }) s)

unfoldable pub prefix_step : ℕ → Seen → Sampling → Body
unfolding flush_tries compared
prefix_step first_bad seen s =
    if seen.prefix
    then read seen.hit
        (λ hit s1.
          read seen.flushes
            (λ flushes s2.
              read seen.miss
                (λ miss s3. compared (flush_cache flushes) hit miss (generated first_bad miss s3))
                s2)
            (generated first_bad hit s1))
        s
    else (false, s)

-- `zombies.count(r)`, and the length of `set(zombies)`
abbrev pub count_text : Text → List Text → ℕ
count_text t [] = 0
count_text t (x ∷ xs) = (if x =ₜ t then 1 else 0) + count_text t xs

abbrev pub distinct_count : List Text → ℕ
distinct_count [] = 0
distinct_count (x ∷ xs) = (if mem_text x xs then 0 else 1) + distinct_count xs

-- `max(zombies.count(r) for r in rids)`, or 0
abbrev pub most_of : List Text → List Text → ℕ
most_of zombies [] = 0
most_of zombies (r ∷ rids) = max (count_text r zombies) (most_of zombies rids)

-- `mean lens` is the mean, rounded to three digits, of a list that is not empty.
abbrev pub mean_or_none : (List ℤ → ℤ) → List ℤ → Option ℤ
mean_or_none mean [] = none
mean_or_none mean (x ∷ xs) = some (mean (x ∷ xs))

abbrev pub set_probe : ℤ → ℤ → Option ℤ → Row → Row
set_probe a b accept r = record r { probe_tok_s = some (a +ℤ b); probe_accept_len = some accept }

abbrev pub set_log : List Text → ℕ → Row → Row
set_log zombies errors r = record r {
  zombie_log_lines = some (length zombies);
  zombie_rids = some (distinct_count zombies);
  zombie_outputs_max = some (most_of zombies zombies);
  server_errors = some errors;
}

unfoldable pub probe_step : (List ℤ → ℤ) → Seen → Sampling → Body
unfolding ◌+ℤ◌
probe_step mean seen = read seen.rate1 (λ a. read seen.rate2 (λ b. read seen.probe_accept (λ lens s.
    read seen.log (λ log s1. (false, on_row (set_log log.0 log.1) s1))
      (on_row (set_probe a b (mean_or_none mean lens)) s))))

abbrev pub empty_row : ℕ → ℕ → Bool → Row
empty_row i elapsed_h drained = record {
  i = i;
  elapsed_h = elapsed_h;
  drained = drained;
  idle_running_reqs = none;
  idle_queue_reqs = none;
  zombie_clear_s = none;
  zombie_stuck = none;
  a3_hit_equals_miss = none;
  probe_tok_s = none;
  probe_accept_len = none;
  zombie_log_lines = none;
  zombie_rids = none;
  zombie_outputs_max = none;
  server_errors = none;
  sample_error = false;
}

abbrev pub ended : Body → Sampling
ended (true, s) = on_row (λ r. record r { sample_error = true }) s
ended (false, s) = s

-- `sample`, from the row that it begins with after the traffic has been paused
unfoldable pub sample : ℕ → (List ℤ → ℤ) → Seen → Row → Sampling → Sampling
unfolding idle_step prefix_step probe_step
sample first_bad mean seen row s = ended (
    going_on (going_on (idle_step seen (record s { row = row })) (prefix_step first_bad seen))
      (probe_step mean seen))
