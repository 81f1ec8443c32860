-- ===== src/Experiment/Accepts.antt =====
-- What the keys of a report and of its rows must hold for `validate` of scripts/experiment.py to accept
-- it.
use qwen38_flash_next_sglang.Prelude.{
  ◌≡◌, ◌≢◌, refl, sym, ap, ◌∙◌, ◌↔◌, Bool, true, Option, none, some, List, [], ◌∷◌, Text, codes,
}
use mathlib.Core.Path.{subst}
use qwen38_flash_next_sglang.Prelude.Int.{ℤ}
use qwen38_flash_next_sglang.Json.{
  Value, null, bool, num, str, arr, obj, Items, Fields, Result, ok, list_of, keys_of, item, get,
  iterate, truth, find_field, or_key_error,
}
use qwen38_flash_next_sglang.Json.Steps.{ok-inj}
use qwen38_flash_next_sglang.Experiment.{Suite}
use qwen38_flash_next_sglang.Experiment.Validate.{
  flagged, item_equals, get_positive, get_flagged, prefill_row, mixedload_row, validate,
}
use qwen38_flash_next_sglang.Experiment.Gates.{Rows, Each, good_row, and_then_iff, validate_iff}
use qwen38_flash_next_sglang.Experiment.Evidence.{
  Flag, HasNumber, is_positive, is_several, is_nought, get_flagged_iff, flagged_iff, positive_iff,
  several_iff, none_failed_iff,
}

-- What a row of a suite must hold.
abbrev pub GoodFields : Suite → Fields → Type 0
GoodFields Suite.quality fs = Flag (codes "pass") fs
GoodFields Suite.longctx fs = Flag (codes "needle_pass") fs
GoodFields Suite.ple_spec fs = Flag (codes "pass") fs
GoodFields Suite.prefill fs =
    HasNumber is_positive (codes "ttft_s") fs
    × HasNumber is_positive (codes "prompt_tokens") fs
    × Flag (codes "needle_pass") fs
GoodFields Suite.mixedload fs =
    Flag (codes "ok") fs
    × HasNumber is_positive (codes "prefill_ttft_s") fs
    × HasNumber is_positive (codes "prefill_prompt_tokens") fs
    × Flag (codes "prefill_needle_pass") fs
    × HasNumber is_several (codes "decode_streams") fs
GoodFields _ fs = ⊥

-- A row is good if it is an object with these fields.
abbrev pub GoodRow : Suite → Value → Type 0
GoodRow s (obj fs) = GoodFields s fs
GoodRow s v = ⊥

abbrev pub AllGood : Suite → List Value → Type 0
AllGood s [] = Unit {0}
AllGood s (v ∷ vs) = GoodRow s v × AllGood s vs

-- A report with a list of rows that is not empty, none of them failed, and each of them good
pub record Accepts (s : Suite) (report : Value) : Type 0 where
  pub fields : Fields
  pub is_object : report ≡ obj fields
  pub first : Value
  pub others : Items
  pub results : find_field (codes "results") fields ≡ some (arr (Items.cons first others))
  pub none_failed : HasNumber is_nought (codes "failed") fields
  pub all_good : AllGood s (first ∷ list_of others)

prefill_row_iff : (r : Value) → (prefill_row r ≡ ok true) ↔ GoodRow Suite.prefill r
unfolding prefill_row get
prefill_row_iff (obj fs) = (
  λ h.
      let a = (and_then_iff (get_positive (codes "ttft_s") (obj fs)) _).0 h in
      let b = (and_then_iff (get_positive (codes "prompt_tokens") (obj fs)) _).0 a.1 in
      (
        (positive_iff (codes "ttft_s") fs).0 a.0,
        (positive_iff (codes "prompt_tokens") fs).0 b.0,
        (get_flagged_iff (codes "needle_pass") fs).0 b.1,
      ),
  λ h. (and_then_iff (get_positive (codes "ttft_s") (obj fs)) _).1 (
    (positive_iff (codes "ttft_s") fs).1 h.0,
    (and_then_iff (get_positive (codes "prompt_tokens") (obj fs)) _).1 (
      (positive_iff (codes "prompt_tokens") fs).1 h.1,
      (get_flagged_iff (codes "needle_pass") fs).1 h.2,
    ),
  ),
)
prefill_row_iff v = (λ h. cc, λ h. absurd h)

mixedload_row_iff : (r : Value) → (mixedload_row r ≡ ok true) ↔ GoodRow Suite.mixedload r
unfolding mixedload_row get
mixedload_row_iff (obj fs) = (
  λ h.
      let a = (and_then_iff (get_flagged (codes "ok") (obj fs)) _).0 h in
      let b = (and_then_iff (get_positive (codes "prefill_ttft_s") (obj fs)) _).0 a.1 in
      let c = (and_then_iff (get_positive (codes "prefill_prompt_tokens") (obj fs)) _).0 b.1 in
      let d = (and_then_iff (get_flagged (codes "prefill_needle_pass") (obj fs)) _).0 c.1 in
      (
        (get_flagged_iff (codes "ok") fs).0 a.0,
        (positive_iff (codes "prefill_ttft_s") fs).0 b.0,
        (positive_iff (codes "prefill_prompt_tokens") fs).0 c.0,
        (get_flagged_iff (codes "prefill_needle_pass") fs).0 d.0,
        (several_iff (codes "decode_streams") fs).0 d.1,
      ),
  λ h. (and_then_iff (get_flagged (codes "ok") (obj fs)) _).1 (
    (get_flagged_iff (codes "ok") fs).1 h.0,
    (and_then_iff (get_positive (codes "prefill_ttft_s") (obj fs)) _).1 (
      (positive_iff (codes "prefill_ttft_s") fs).1 h.1,
      (and_then_iff (get_positive (codes "prefill_prompt_tokens") (obj fs)) _).1 (
        (positive_iff (codes "prefill_prompt_tokens") fs).1 h.2,
        (and_then_iff (get_flagged (codes "prefill_needle_pass") (obj fs)) _).1 (
          (get_flagged_iff (codes "prefill_needle_pass") fs).1 h.3,
          (several_iff (codes "decode_streams") fs).1 h.4,
        ),
      ),
    ),
  ),
)
mixedload_row_iff v = (λ h. cc, λ h. absurd h)

flagged_row_iff :
    (s : Suite) (k : Text)
    → ((fs : Fields) → GoodFields s fs ≡ Flag k fs)
    → (r : Value) → (flagged k r ≡ ok true) ↔ GoodRow s r
unfolding item
flagged_row_iff s k same (obj fs) =
    subst (λ T. (flagged k (obj fs) ≡ ok true) ↔ T) (sym (same fs)) (flagged_iff k fs)
flagged_row_iff s k same v = (λ h. cc, λ h. absurd h)

-- The test of a suite's rows holds exactly of its good rows.
abbrev Tests : Suite → (Value → Result Bool) → Type 0
Tests s good = (r : Value) → (good r ≡ ok true) ↔ GoodRow s r

Each-AllGood :
    (s : Suite) (good : Value → Result Bool) (vs : List Value)
    → Tests s good
    → Each good vs ↔ AllGood s vs
Each-AllGood s good [] each = (λ _. tt, λ _. tt)
Each-AllGood s good (v ∷ vs) each = (
  λ h. ((each v).0 h.0, (Each-AllGood s good vs each).0 h.1),
  λ h. ((each v).1 h.0, (Each-AllGood s good vs each).1 h.1),
)

-- The rows are those of a list.
record Listed (s : Suite) (results : Value) : Type 0 where
  first : Value
  others : Items
  as_list : results ≡ arr (Items.cons first others)
  all_good : AllGood s (first ∷ list_of others)

rows-Listed :
    (s : Suite) (results : Value) (members : List Value)
    → truth results ≡ true
    → iterate results ≡ ok members
    → AllGood s members
    → Listed s results
unfolding iterate truth list_of keys_of
rows-Listed s (arr (Items.cons v vs)) members t i h = record {
  first = v;
  others = vs;
  as_list = refl;
  all_good = subst (AllGood s) (sym (ok-inj i)) h;
}
rows-Listed s (obj (Fields.field k v fs)) members t i h =
    absurd ((subst (AllGood s) (sym (ok-inj i)) h).0)
rows-Listed s (str (c ∷ cs)) members t i h = absurd ((subst (AllGood s) (sym (ok-inj i)) h).0)
rows-Listed s (arr Items.nil) members t i h = cc
rows-Listed s (obj Fields.end) members t i h = cc
rows-Listed s (str []) members t i h = cc
rows-Listed s null members t i h = cc
rows-Listed s (bool b) members t i h = cc
rows-Listed s (num n) members t i h = cc

there : (o : Option Value) (v : Value) → or_key_error o ≡ ok v → o ≡ some v
there none v h = cc
there (some w) v h = ap (λ x. some x) (ok-inj h)

Rows-Accepts :
    (s : Suite) (good : Value → Result Bool) (report : Value)
    → Tests s good
    → Rows good report
    → Accepts s report
unfolding item
Rows-Accepts s good (obj fs) each r =
    let l =
      rows-Listed s r.results r.members r.filled r.listed
        ((Each-AllGood s good r.members each).0 r.each) in
    record {
      fields = fs;
      is_object = refl;
      first = l.first;
      others = l.others;
      results =
          there (find_field (codes "results") fs) r.results r.found ∙ ap (λ v. some v) l.as_list;
      none_failed = (none_failed_iff fs).0 r.none_failed;
      all_good = l.all_good;
    }
Rows-Accepts s good v each r = cc (r.found)

Accepts-Rows :
    (s : Suite) (good : Value → Result Bool) (report : Value)
    → Tests s good
    → Accepts s report
    → Rows good report
unfolding item truth iterate list_of
Accepts-Rows s good report each a = record {
  results = arr (Items.cons a.first a.others);
  found = ap (item (codes "results")) a.is_object ∙ ap or_key_error a.results;
  filled = refl;
  none_failed =
      ap (item_equals (codes "failed") 0) a.is_object ∙ (none_failed_iff a.fields).1 a.none_failed;
  members = a.first ∷ list_of a.others;
  listed = refl;
  each = (Each-AllGood s good (a.first ∷ list_of a.others) each).1 a.all_good;
}

by_rows_iff :
    (float_text : Text → Option ℤ) (s : Suite) (good : Value → Result Bool) (report : Value)
    → good_row s ≡ some good
    → Tests s good
    → (validate float_text s report ≡ ok true) ↔ Accepts s report
by_rows_iff float_text s good report e each =
    let v = validate_iff float_text s good report e in
    (λ h. Rows-Accepts s good report each (v.0 h), λ h. v.1 (Accepts-Rows s good report each h))

-- `validate` accepts a report of quality, longctx, ple_spec, prefill or mixedload exactly if the report
-- is an object, its `results` a list that is not empty, its `failed` the number 0, and each result an
-- object with the suite's evidence. For quality and ple_spec that is `pass`, for longctx `needle_pass`,
-- which is `true`; for prefill, `ttft_s` and `prompt_tokens` above 0 and `needle_pass`; for mixedload,
-- `ok` and `prefill_needle_pass`, `prefill_ttft_s` and `prefill_prompt_tokens` above 0, and
-- `decode_streams` of 2 or more. `True` counts as 1 among the numbers, and `False` as 0.
pub validate_fields_iff :
    (float_text : Text → Option ℤ) (s : Suite) (report : Value)
    → good_row s ≢ none
    → (validate float_text s report ≡ ok true) ↔ Accepts s report
validate_fields_iff float_text Suite.quality report h =
    by_rows_iff float_text Suite.quality _ report refl
      (flagged_row_iff Suite.quality (codes "pass") (λ fs. refl))
validate_fields_iff float_text Suite.longctx report h =
    by_rows_iff float_text Suite.longctx _ report refl
      (flagged_row_iff Suite.longctx (codes "needle_pass") (λ fs. refl))
validate_fields_iff float_text Suite.ple_spec report h =
    by_rows_iff float_text Suite.ple_spec _ report refl
      (flagged_row_iff Suite.ple_spec (codes "pass") (λ fs. refl))
validate_fields_iff float_text Suite.prefill report h =
    by_rows_iff float_text Suite.prefill _ report refl prefill_row_iff
validate_fields_iff float_text Suite.mixedload report h =
    by_rows_iff float_text Suite.mixedload _ report refl mixedload_row_iff
validate_fields_iff float_text s report h = absurd (h refl)
