-- ===== src/Longsoak/Judged.antt =====
-- The exit code of bench/longsoak.py, and the onset of decay that its summary names.
use qwen38_flash_next_sglang.Prelude.{
  ℕ, ◌+◌, ◌≡◌, refl, ◌↔◌, inl, inr, Bool, true, false, not, ◌&&◌, Option, none, some, List, [], ◌∷◌,
  ◌++◌, all, length, Bool-cases, ◌==◌, arith,
}
use qwen38_flash_next_sglang.Prelude.Int.{ℤ}
use qwen38_flash_next_sglang.Longsoak.Sample.{Row}
use qwen38_flash_next_sglang.Longsoak.Report.{
  Counters, Summary, good_rows, decayed, onset, total, or_zero, one_if, one_if_empty, failed, write,
  exit_code, reference_rate, summarised,
}

-- A row whose sample did not raise, and that saw no error in the server's log.
abbrev pub is_clean : Row → Bool
is_clean r = not r.sample_error && (or_zero r.server_errors == 0)

abbrev pub is_quiet : Counters → Bool
is_quiet c = (c.errors == 0) && ((c.a3_bad_first_token == 0) && (c.a3_fixed_by_flush == 0))

-- What the summary names among rows: the first decayed one, or none if none is.
pub data OnsetOf (bad : Row → Bool) : List Row → Option Row → Type 0 where
  nowhere : (rs : List Row) → all (λ r. not (bad r)) rs ≡ true → OnsetOf bad rs none
  first :
      (before : List Row) (r : Row) (after : List Row)
      → all (λ q. not (bad q)) before ≡ true
      → bad r ≡ true
      → OnsetOf bad (before ++ r ∷ after) (some r)

OnsetOf-later :
    (bad : Row → Bool) (r : Row) (rs : List Row) (o : Option Row)
    → bad r ≡ false
    → OnsetOf bad rs o
    → OnsetOf bad (r ∷ rs) o
OnsetOf-later bad r _ _ h (nowhere rs q) = nowhere (r ∷ rs) (rw h q)
OnsetOf-later bad r _ _ h (first before q after none_before q_bad) =
    first (r ∷ before) q after (rw h none_before) q_bad

onset-OnsetOf :
    (accept : ℤ) (ratio : ℕ) (ref : Option ℤ) (rs : List Row)
    → OnsetOf (decayed accept ratio ref) rs (onset accept ratio ref rs)
unfolding onset
onset-OnsetOf accept ratio ref [] = nowhere [] refl
onset-OnsetOf accept ratio ref (r ∷ rs) = elim (Bool-cases (decayed accept ratio ref r)) [
  | inl p ↦ rw p (first [] r rs refl p)
  | inr p ↦
      rw p (OnsetOf-later (decayed accept ratio ref) r rs _ p (onset-OnsetOf accept ratio ref rs))
]

rows_clean_iff :
    (rows : List Row)
    → (all is_clean rows ≡ true)
      ↔ (total (λ r. or_zero r.server_errors) rows + total (λ r. one_if r.sample_error) rows ≡ 0)
rows_clean_iff [] = (λ h. omega arith, λ h. refl)
rows_clean_iff (r ∷ rs) = elim (Bool-cases r.sample_error) [
  | inl p ↦ rw p (ground (arith, rows_clean_iff rs))
  | inr p ↦ rw p (ground (arith, rows_clean_iff rs))
]

one_if_empty-length : (rows : List Row) → one_if_empty rows ≡ one_if (length rows == 0)
one_if_empty-length [] = refl
one_if_empty-length (r ∷ rs) = ground arith

exit_code_iff : (s : Summary) (n : ℕ) → (exit_code (s, n) ≡ 0) ↔ (n ≡ 0)
exit_code_iff s n = ground arith

-- The six counts of `failed`, as tests.
failed_iff :
    (a b c d e f : ℕ) (empty clean : Bool)
    → f ≡ one_if empty
    → ((clean ≡ true) ↔ (d + e ≡ 0))
    → (a + b + c + d + e + f ≡ 0)
      ↔ (((a == 0) && ((b == 0) && (c == 0))) && (not empty && clean) ≡ true)
failed_iff a b c d e f empty clean p q = ground arith

-- The last report of a soak gives 0 exactly if there is a row, no request failed, no output began
-- with a bad token and none was put right by a flush, and no row has an error of its sample or of the
-- server. The onset of decay that it names is the first row with a rate that is decayed, and none if
-- none is.
pub write-Judged :
    (accept : ℤ) (ratio : ℕ) (rows : List Row) (c : Counters) (final : Bool)
    → ((exit_code (write accept ratio rows c final) ≡ 0)
        ↔ (is_quiet c && (not (length rows == 0) && all is_clean rows) ≡ true))
      × OnsetOf
          (decayed accept ratio (reference_rate rows))
          (good_rows rows)
          (write accept ratio rows c final).0.decay_onset
unfolding write summarised
write-Judged accept ratio rows c final =
    let summary = summarised accept ratio rows c final in
    let code = exit_code_iff summary (failed rows summary) in
    let judged =
      failed_iff c.errors c.a3_bad_first_token c.a3_fixed_by_flush
        (total (λ r. or_zero r.server_errors) rows) (total (λ r. one_if r.sample_error) rows)
        (one_if_empty rows) (length rows == 0) (all is_clean rows) (one_if_empty-length rows)
        (rows_clean_iff rows) in
    (
      (λ h. judged.0 (code.0 h), λ h. code.1 (judged.1 h)),
      onset-OnsetOf accept ratio (reference_rate rows) (good_rows rows),
    )
