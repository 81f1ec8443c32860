-- ===== src/Longsoak/Report.antt =====
-- `write` of bench/longsoak.py and the exit code of `main`. Hours are in thousandths, rates and accept
-- lengths in millionths.
use qwen38_flash_next_sglang.Prelude.{
  ℕ, ◌+◌, ◌*◌, ◌/◌, ◌%◌, ◌-◌, Bool, true, false, not, ◌&&◌, ◌||◌, Option, none, some, List, [], ◌∷◌,
  length, get_elem?, ◌==◌, leb, max, if◌then◌else◌,
}
use qwen38_flash_next_sglang.Prelude.Int.{ℤ, pos, pos_part, neg_part, sub_ℕ, ◌+ℤ◌, ltb_ℤ}
use qwen38_flash_next_sglang.Json.{eq_ℤ}
use qwen38_flash_next_sglang.Longsoak.Sample.{Row, gauge_or_zero, is_some_truth}

-- `[r for r in rows if r.get("probe_tok_s")]`
unfoldable pub good_rows : List Row → List Row
good_rows [] = []
good_rows (r ∷ rs) =
    let later = good_rows rs in if is_some_truth r.probe_tok_s then r ∷ later else later

-- The rates of the rows of the first hour.
unfoldable pub hour_rates : List Row → List ℤ
hour_rates [] = []
hour_rates (r ∷ rs) =
    let later = hour_rates rs in
    if leb r.elapsed_h 1000 then gauge_or_zero r.probe_tok_s ∷ later else later

-- The list in ascending order.
abbrev pub insert : ℤ → List ℤ → List ℤ
insert x [] = x ∷ []
insert x (y ∷ ys) = let later = insert x ys in if ltb_ℤ y x then y ∷ later else x ∷ y ∷ ys

unfoldable pub sorted : List ℤ → List ℤ
sorted [] = []
sorted (x ∷ xs) = insert x (sorted xs)

abbrev pub at_or_zero : List ℤ → ℕ → ℤ
at_or_zero xs i = gauge_or_zero (get_elem? xs i)

-- Twice `statistics.median`, of a list that is not empty.
unfoldable pub twice_median : List ℤ → ℤ
unfolding sorted ◌+ℤ◌
twice_median xs =
    let ys = sorted xs in
    let half = length xs / 2 in
    if length xs % 2 == 1
    then at_or_zero ys half +ℤ at_or_zero ys half
    else at_or_zero ys (half - 1) +ℤ at_or_zero ys half

abbrev pub median_or_none : List ℤ → Option ℤ
median_or_none [] = none
median_or_none (x ∷ xs) = some (twice_median (x ∷ xs))

abbrev pub scaled : ℕ → ℤ → ℤ
scaled n a = sub_ℕ (n * pos_part a) (n * neg_part a)

abbrev pub is_below : ℤ → Option (Option ℤ) → Bool
is_below limit (some (some n)) = ltb_ℤ n limit
is_below limit accept = false

-- `ref and r["probe_tok_s"] < DECAY_RATIO * ref`: `ref` is twice the median, and the ratio is in
-- millionths.
abbrev pub is_slow : ℕ → Option ℤ → Option ℤ → Bool
is_slow ratio none rate = false
is_slow ratio (some ref) rate =
    not (eq_ℤ ref (pos 0)) && ltb_ℤ (scaled 2000000 (gauge_or_zero rate)) (scaled ratio ref)

unfoldable pub decayed : ℤ → ℕ → Option ℤ → Row → Bool
decayed accept ratio ref r = is_below accept r.probe_accept_len || is_slow ratio ref r.probe_tok_s

-- The first decayed row.
unfoldable pub onset : ℤ → ℕ → Option ℤ → List Row → Option Row
unfolding decayed
onset accept ratio ref [] = none
onset accept ratio ref (r ∷ rs) =
    let later = onset accept ratio ref rs in if decayed accept ratio ref r then some r else later

abbrev pub or_zero : Option ℕ → ℕ
or_zero none = 0
or_zero (some n) = n

abbrev pub total : (Row → ℕ) → List Row → ℕ
total f [] = 0
total f (r ∷ rs) = f r + total f rs

abbrev pub most : (Row → ℕ) → List Row → ℕ
most f [] = 0
most f (r ∷ rs) = max (f r) (most f rs)

abbrev pub one_if : Bool → ℕ
one_if b = if b then 1 else 0

abbrev pub is_set_to : Bool → Option Bool → Bool
is_set_to b none = false
is_set_to true (some c) = c
is_set_to false (some c) = not c

abbrev pub max_ℤ : ℤ → ℤ → ℤ
max_ℤ a b = if ltb_ℤ a b then b else a

-- `max((...), default=0)`
abbrev pub most_gauge : List Row → ℤ
most_gauge [] = pos 0
most_gauge (r ∷ []) = gauge_or_zero r.idle_running_reqs
most_gauge (r ∷ q ∷ rs) = max_ℤ (gauge_or_zero r.idle_running_reqs) (most_gauge (q ∷ rs))

pub record Counters : Type 0 where
  pub requests : ℕ
  pub ok : ℕ
  pub client_aborts : ℕ
  pub errors : ℕ
  pub invalid_tool_calls : ℕ
  pub a3_bad_first_token : ℕ
  pub a3_probe_sends : ℕ
  pub a3_probe_drift : ℕ
  pub a3_fixed_by_flush : ℕ
  pub agent_sessions : ℕ

pub record Summary : Type 0 where
  pub counters : Counters
  pub samples : ℕ
  pub first_hour_probe_tok_s : Option ℤ
  pub decay_onset : Option Row
  pub zombie_log_lines : ℕ
  pub zombie_rids : ℕ
  pub zombie_outputs_max : ℕ
  pub idle_running_max : ℤ
  pub zombie_stuck_samples : ℕ
  pub zombie_clear_s_max : ℕ
  pub a3_hit_ne_miss_samples : ℕ
  pub server_errors : ℕ
  pub sample_errors : ℕ
  pub final : Bool

abbrev pub reference_rate : List Row → Option ℤ
reference_rate rows = median_or_none (hour_rates (good_rows rows))

unfoldable pub summarised : ℤ → ℕ → List Row → Counters → Bool → Summary
unfolding onset good_rows hour_rates twice_median
summarised accept ratio rows c final = record {
  counters = c;
  samples = length rows;
  first_hour_probe_tok_s = reference_rate rows;
  decay_onset = onset accept ratio (reference_rate rows) (good_rows rows);
  zombie_log_lines = total (λ r. or_zero r.zombie_log_lines) rows;
  zombie_rids = total (λ r. or_zero r.zombie_rids) rows;
  zombie_outputs_max = most (λ r. or_zero r.zombie_outputs_max) rows;
  idle_running_max = most_gauge rows;
  zombie_stuck_samples = total (λ r. one_if (is_set_to true r.zombie_stuck)) rows;
  zombie_clear_s_max = most (λ r. or_zero r.zombie_clear_s) rows;
  a3_hit_ne_miss_samples = total (λ r. one_if (is_set_to false r.a3_hit_equals_miss)) rows;
  server_errors = total (λ r. or_zero r.server_errors) rows;
  sample_errors = total (λ r. one_if r.sample_error) rows;
  final = final;
}

abbrev pub one_if_empty : List Row → ℕ
one_if_empty [] = 1
one_if_empty (r ∷ rs) = 0

-- `report["failed"]`
abbrev pub failed : List Row → Summary → ℕ
failed rows s =
    s.counters.errors
    + s.counters.a3_bad_first_token
    + s.counters.a3_fixed_by_flush
    + s.server_errors
    + s.sample_errors
    + one_if_empty rows

-- `write`, and the exit code of `main` for the last report
unfoldable pub write : ℤ → ℕ → List Row → Counters → Bool → Summary × ℕ
unfolding summarised
write accept ratio rows c final =
    let summary = summarised accept ratio rows c final in (summary, failed rows summary)

abbrev pub exit_code : Summary × ℕ → ℕ
exit_code report = if report.1 == 0 then 0 else 1
