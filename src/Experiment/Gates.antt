-- ===== src/Experiment/Gates.antt =====
-- What a report must hold for `validate` to accept it.
use qwen38_flash_next_sglang.Prelude.{
  ◌≡◌, refl, ◌↔◌, Bool, true, false, Option, none, some, List, [], ◌∷◌, Text, codes,
}
use mathlib.Core.Path.{subst}
use mathlib.Core.Option.{some-injective}
use qwen38_flash_next_sglang.Prelude.Int.{ℤ}
use qwen38_flash_next_sglang.Json.Steps.{bind_ok}
use qwen38_flash_next_sglang.Json.{
  Value, Result, ok, err, ◌>>=◌, item, iterate, truth, ◌and_then◌, all_of,
}
use qwen38_flash_next_sglang.Experiment.{Suite}
use qwen38_flash_next_sglang.Experiment.Validate.{
  flagged, item_equals, rows_pass, table_passes, prefill_row, mixedload_row, validate,
}

pub and_then_iff :
    (a b : Result Bool) → ((a and_then b) ≡ ok true) ↔ ((a ≡ ok true) × (b ≡ ok true))
and_then_iff (ok true) b = (λ h. (refl, h), λ h. h.1)
and_then_iff (ok false) b = (λ h. cc, λ h. cc (h.0))
and_then_iff (err e) b = (λ h. cc, λ h. cc (h.0))

-- A test that holds of every member of a list.
abbrev pub Each : (Value → Result Bool) → List Value → Type 0
Each p [] = Unit
Each p (x ∷ xs) = (p x ≡ ok true) × Each p xs

all_of_iff : (p : Value → Result Bool) (xs : List Value) → (all_of p xs ≡ ok true) ↔ Each p xs
unfolding all_of
all_of_iff p [] = (λ _. tt, λ _. refl)
all_of_iff p (x ∷ xs) = (
  λ h. let both = (and_then_iff (p x) (all_of p xs)).0 h in (both.0, (all_of_iff p xs).0 both.1),
  λ h. (and_then_iff (p x) (all_of p xs)).1 (h.0, (all_of_iff p xs).1 h.1),
)

-- A report whose `results` is not empty, whose `failed` is 0, and each of whose results is good.
pub record Rows (good : Value → Result Bool) (report : Value) : Type 0 where
  pub results : Value
  pub found : item (codes "results") report ≡ ok results
  pub filled : truth results ≡ true
  pub none_failed : item_equals (codes "failed") 0 report ≡ ok true
  pub members : List Value
  pub listed : iterate results ≡ ok members
  pub each : Each good members

abbrev body : (Value → Result Bool) → Value → Value → Result Bool
body good report rows =
    ok (truth rows)
    and_then (item_equals (codes "failed") 0 report and_then (do rs ← iterate rows; all_of good rs))

body-Rows :
    (good : Value → Result Bool) (report rows : Value)
    → item (codes "results") report ≡ ok rows
    → body good report rows ≡ ok true
    → Rows good report
body-Rows good report rows e h =
    let a = (and_then_iff (ok (truth rows)) _).0 h in
    let b = (and_then_iff (item_equals (codes "failed") 0 report) _).0 a.1 in
    let c = bind_ok (iterate rows) (all_of good) b.1 in
    record {
      results = rows;
      found = e;
      filled = cc (a.0);
      none_failed = b.0;
      members = c.0;
      listed = c.1;
      each = (all_of_iff good c.0).0 c.2;
    }

Rows-body :
    (good : Value → Result Bool) (report : Value)
    → Rows good report
    → (do rows ← item (codes "results") report; body good report rows) ≡ ok true
Rows-body good report r =
    rw r.found (rw r.filled (rw r.none_failed (rw r.listed ((all_of_iff good r.members).1 r.each))))

body_iff :
    (good : Value → Result Bool) (report : Value)
    → ((do rows ← item (codes "results") report; body good report rows) ≡ ok true)
      ↔ Rows good report
body_iff good report = (
  λ h.
      let a = bind_ok (item (codes "results") report) (body good report) h in
      body-Rows good report a.0 a.1 a.2,
  Rows-body good report,
)

-- What a result of each of these suites must show.
abbrev pub good_row : Suite → Option (Value → Result Bool)
good_row Suite.quality = some (flagged (codes "pass"))
good_row Suite.longctx = some (flagged (codes "needle_pass"))
good_row Suite.ple_spec = some (flagged (codes "pass"))
good_row Suite.prefill = some prefill_row
good_row Suite.mixedload = some mixedload_row
good_row _ = none

-- A report of quality, longctx, ple_spec, prefill or mixedload is accepted exactly if it has
-- results, none of them failed, and each result is good by its suite's test.
pub validate_iff :
    (float_text : Text → Option ℤ) (s : Suite) (good : Value → Result Bool) (report : Value)
    → good_row s ≡ some good
    → (validate float_text s report ≡ ok true) ↔ Rows good report
unfolding validate rows_pass table_passes
validate_iff float_text Suite.quality good report e =
    subst (λ g. (validate float_text Suite.quality report ≡ ok true) ↔ Rows g report)
      (some-injective (flagged (codes "pass")) good e) (body_iff (flagged (codes "pass")) report)
validate_iff float_text Suite.longctx good report e =
    subst (λ g. (validate float_text Suite.longctx report ≡ ok true) ↔ Rows g report)
      (some-injective (flagged (codes "needle_pass")) good e)
      (body_iff (flagged (codes "needle_pass")) report)
validate_iff float_text Suite.ple_spec good report e =
    subst (λ g. (validate float_text Suite.ple_spec report ≡ ok true) ↔ Rows g report)
      (some-injective (flagged (codes "pass")) good e) (body_iff (flagged (codes "pass")) report)
validate_iff float_text Suite.prefill good report e =
    subst (λ g. (validate float_text Suite.prefill report ≡ ok true) ↔ Rows g report)
      (some-injective prefill_row good e) (body_iff prefill_row report)
validate_iff float_text Suite.mixedload good report e =
    subst (λ g. (validate float_text Suite.mixedload report ≡ ok true) ↔ Rows g report)
      (some-injective mixedload_row good e) (body_iff mixedload_row report)
validate_iff float_text _ good report e = cc
