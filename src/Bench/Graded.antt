-- ===== src/Bench/Graded.antt =====
-- The report of rows that pass or fail, as `validate` of scripts/experiment.py reads it.
use qwen38_flash_next_sglang.Prelude.{
  ℕ, ◌≡◌, refl, sym, ap, ◌∙◌, ◌↔◌, inl, inr, Bool, true, not, ◌&&◌, List, [], ◌∷◌, map, length, all,
  codes, Bool-cases, ◌==◌, arith,
}
use qwen38_flash_next_sglang.Json.Steps.{ok-inj}
use mathlib.Core.Path.{subst}
use qwen38_flash_next_sglang.Json.{
  Value, arr, Fields, Result, ok, list_of, item, iterate, truth, find_field, equals,
}
use qwen38_flash_next_sglang.Json.Objects.{items}
use qwen38_flash_next_sglang.Experiment.Validate.{item_equals}
use qwen38_flash_next_sglang.Experiment.Gates.{Each, Rows}
use qwen38_flash_next_sglang.Bench.{Grading, failures, report_with, graded}

pub list_of-items : (vs : List Value) → list_of (items vs) ≡ vs
unfolding list_of items
list_of-items [] = refl
list_of-items (v ∷ vs) = ap (◌∷◌ v) (list_of-items vs)

results_item :
    (vs : List Value) (n : ℕ) (more : Fields)
    → item (codes "results") (report_with vs n more) ≡ ok (arr (items vs))
unfolding item find_field
results_item vs n more = refl

failed_iff :
    (vs : List Value) (n : ℕ) (more : Fields)
    → (item_equals (codes "failed") 0 (report_with vs n more) ≡ ok true) ↔ (n ≡ 0)
unfolding item find_field equals
failed_iff vs n more = (λ h. ground arith, λ h. rw h refl)

iterate-items : (vs : List Value) → iterate (arr (items vs)) ≡ ok vs
unfolding iterate
iterate-items vs = ap ok (list_of-items vs)

truth-items :
    {R : Type 0} (value : R → Value) (rows : List R)
    → truth (arr (items (map value rows))) ≡ not (length rows == 0)
unfolding truth items
truth-items value [] = refl
truth-items value (r ∷ rs) = ground arith

-- The report is good if there is a row, none failed, and each row is good by the suite's test.
module _ {R : Type 0} (g : Grading R) (good : Value → Result Bool) (also : R → Bool)
    (law : (r : R) → (good (g.value r) ≡ ok true) ↔ (g.passed r && also r ≡ true)) where
  no_failures_iff :
      (rows : List R)
      → ((failures g.passed rows ≡ 0) × Each good (map g.value rows))
        ↔ ((failures g.passed rows ≡ 0) × (all also rows ≡ true))
  unfolding failures
  no_failures_iff [] = (λ h. (h.0, refl), λ h. (h.0, tt))
  no_failures_iff (r ∷ rs) = elim (Bool-cases (g.passed r)) [
    | inl p ↦ rw p (ground (arith, law r, no_failures_iff rs))
    | inr p ↦ rw p (ground (arith, law r, no_failures_iff rs))
  ]

  Rows-graded :
      (rows : List R) (n : ℕ) (more : Fields)
      → n ≡ failures g.passed rows
      → Rows good (report_with (map g.value rows) n more)
      → (n ≡ 0) × (not (length rows == 0) ≡ true) × (all also rows ≡ true)
  Rows-graded rows n more e h =
      let filled : arr (items (map g.value rows)) ≡ h.results =
        ok-inj (sym (results_item (map g.value rows) n more) ∙ h.found) in
      let members : map g.value rows ≡ h.members =
        ok-inj (sym (iterate-items (map g.value rows)) ∙ (ap iterate filled ∙ h.listed)) in
      let none_failed = (failed_iff (map g.value rows) n more).0 h.none_failed in
      let both =
        (no_failures_iff rows).0 (sym e ∙ none_failed, subst (Each good) (sym members) h.each) in
      (none_failed, sym (truth-items g.value rows) ∙ (ap truth filled ∙ h.filled), both.1)

  graded-Rows :
      (rows : List R) (n : ℕ) (more : Fields)
      → n ≡ failures g.passed rows
      → n ≡ 0
      → not (length rows == 0) ≡ true
      → all also rows ≡ true
      → Rows good (report_with (map g.value rows) n more)
  graded-Rows rows n more e zero filled extra = record {
    results = arr (items (map g.value rows));
    found = results_item (map g.value rows) n more;
    filled = truth-items g.value rows ∙ filled;
    none_failed = (failed_iff (map g.value rows) n more).1 zero;
    members = map g.value rows;
    listed = iterate-items (map g.value rows);
    each = ((no_failures_iff rows).1 (sym e ∙ zero, extra)).1;
  }

  pub graded_iff :
      (rows : List R) (more : Fields)
      → Rows good (graded g rows more).0
        ↔ (((graded g rows more).1 == 0) && (not (length rows == 0) && all also rows) ≡ true)
  unfolding graded
  graded_iff rows more =
      let n = failures g.passed rows in
      let there = Rows-graded rows n more refl in
      let back = graded-Rows rows n more refl in
      (
        λ h. let (zero, filled, extra) = there h in ground arith,
        λ h. back (ground arith) (ground arith) (ground arith),
      )
