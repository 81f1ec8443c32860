-- ===== src/Bench/Accepted.antt =====
-- The reports of the suites of bench/, their exit codes, and what `validate` of scripts/experiment.py
-- makes of them.
use qwen38_flash_next_sglang.Prelude.{
  ℕ, suc, ◌+◌, ◌<◌, ◌≡◌, refl, sym, ap, ◌∙◌, ◌↔◌, Bool, true, not, ◌&&◌, Option, none, some,
  split_on, List, [], ◌∷◌, length, all, Text, codes, ◌==◌, arith,
}
use mathlib.Core.Option.{some-injective}
use mathlib.Core.Path.{subst}
use qwen38_flash_next_sglang.Prelude.Int.{ℤ}
use qwen38_flash_next_sglang.Json.{Value, Fields, end, Result, ok, find_field, item, is_true}
use qwen38_flash_next_sglang.Json.Steps.{bind_ok, ok-inj}
use qwen38_flash_next_sglang.Client.Calls.{ChatReply}
use qwen38_flash_next_sglang.Experiment.{Suite}
use qwen38_flash_next_sglang.Experiment.Validate.{flagged, validate}
use qwen38_flash_next_sglang.Experiment.Gates.{good_row, validate_iff}
use qwen38_flash_next_sglang.Bench.{Grading, graded}
use qwen38_flash_next_sglang.Bench.Graded.{graded_iff}
use qwen38_flash_next_sglang.Bench.Longctx
use qwen38_flash_next_sglang.Bench.Longctx.{
  with_row, needle_and_cache, row_or_stop, report_or_stop, rows_of, longctx_main,
}
use qwen38_flash_next_sglang.Bench.Sizes.{parts_of, tokens_of}
use qwen38_flash_next_sglang.Bench.PleSpec.{
  generate, recall, accept_row, metrics_field, ple_spec_main,
}
use qwen38_flash_next_sglang.Bench.Quality.{
  Row, row_value, row_grading, math_smoke, tool_smoke, code_exec_smoke, multiturn_fact,
  vision_smoke, sweep_if, quality_main,
}

abbrev always : {R : Type 0} → R → Bool
always r = true

all-always : {R : Type 0} (rows : List R) → all always rows ≡ true
all-always [] = refl
all-always (r ∷ rs) = all-always rs

row_flagged :
    (r : Row) → (flagged (codes "pass") (row_value r) ≡ ok true) ↔ (r.passed && true ≡ true)
unfolding row_value item find_field is_true
row_flagged r = (λ h. ground (arith, ok-inj h), λ h. ground arith)

-- What `validate` accepts of a suite with rows that pass or fail.
pub suite_iff :
    {R : Type 0} (g : Grading R) (good : Value → Result Bool) (also : R → Bool)
    → ((r : R) → (good (g.value r) ≡ ok true) ↔ (g.passed r && also r ≡ true))
    → (s : Suite) (float_text : Text → Option ℤ) → good_row s ≡ some good
    → (rows : List R) (more : Fields)
    → (validate float_text s (graded g rows more).0 ≡ ok true)
      ↔ (((graded g rows more).1 == 0) && (not (length rows == 0) && all also rows) ≡ true)
suite_iff g good also law s float_text e rows more =
    let read = validate_iff float_text s good (graded g rows more).0 e in
    let made = graded_iff g good also law rows more in
    (λ h. made.0 (read.0 h), λ h. read.1 (made.1 h))

-- The rows of `ok` are never empty.
rows_report :
    (s : Suite) (more : Fields) (rows : List Row) (r : Row) (made : Value × ℕ)
    (float_text : Text → Option ℤ)
    → good_row s ≡ some (flagged (codes "pass"))
    → graded row_grading (r ∷ rows) more ≡ made
    → (validate float_text s made.0 ≡ ok true) ↔ (made.1 ≡ 0)
rows_report s more rows r made float_text g e =
    let both =
      suite_iff row_grading (flagged (codes "pass")) always row_flagged s float_text g (r ∷ rows)
        more in
    subst (λ m. (validate float_text s m.0 ≡ ok true) ↔ (m.1 ≡ 0)) e
      (λ h. ground (arith, both.0 h), λ h. both.1 (ground (arith, all-always rows)))

-- If `main` of bench/quality.py comes to its end, `validate` accepts the report that it wrote exactly
-- if its exit code is 0.
pub quality_main-Accepted :
    (ask : ℕ → List Value → Result ChatReply) (run : Text → Option (Text × ℕ)) (lower : Text → Text)
    (image : Value) (effort : Bool) (made : Value × ℕ) (float_text : Text → Option ℤ)
    → quality_main ask run lower image effort ≡ ok made
    → (validate float_text Suite.quality made.0 ≡ ok true) ↔ (made.1 ≡ 0)
unfolding quality_main
quality_main-Accepted ask run lower image effort made float_text h =
    let (math, _m, h1) = bind_ok (math_smoke ask) _ h in
    let (tool, _t, h2) = bind_ok (tool_smoke ask) _ h1 in
    let (code, _c, h3) = bind_ok (code_exec_smoke ask run) _ h2 in
    let (fact, _f, h4) = bind_ok (multiturn_fact ask) _ h3 in
    let (vision, _v, h5) = bind_ok (vision_smoke ask lower image) _ h4 in
    let (swept, _s, h6) = bind_ok (sweep_if ask effort) _ h5 in
    rows_report Suite.quality end (tool ∷ code ∷ fact ∷ vision ∷ swept) math made float_text refl
      (ok-inj h6)

-- If `main` of bench/ple_spec.py comes to its end, `validate` accepts the report that it wrote exactly
-- if its exit code is 0.
ple_spec_main-Accepted :
    (ask : ℕ → ℕ → List Value → Result ChatReply) (metrics : ℕ → Option (List Text))
    (made : Value × ℕ) (float_text : Text → Option ℤ)
    → ple_spec_main ask metrics float_text ≡ ok made
    → (validate float_text Suite.ple_spec made.0 ≡ ok true) ↔ (made.1 ≡ 0)
unfolding ple_spec_main
ple_spec_main-Accepted ask metrics made float_text h =
    let (heavy, _h, h1) =
      bind_ok (generate ask metrics float_text 0 0 (codes "ple_spec_accept_heavy") 0) _ h in
    let (rejected, _r, h2) =
      bind_ok (generate ask metrics float_text 1 2 (codes "ple_spec_reject_heavy") 14) _ h1 in
    let (recalled, _l, h3) = bind_ok (recall ask metrics float_text) _ h2 in
    rows_report Suite.ple_spec (metrics_field ask metrics float_text)
      (rejected ∷ recalled ∷ accept_row ask metrics float_text ∷ []) heavy made float_text refl
      (ok-inj h3)

needle_flagged :
    (r : Longctx.Row)
    → (flagged (codes "needle_pass") (Longctx.row_value r) ≡ ok true)
      ↔ (r.needle_pass && true ≡ true)
unfolding Longctx.row_value item find_field is_true
needle_flagged r = (λ h. ground (arith, ok-inj h), λ h. ground arith)

-- Each size has a row.
length-with_row :
    (ask : ℕ → Text → Result ChatReply) (ratio : ℕ → ℕ → ℤ) (r : Longctx.Row)
    (rest : Option (List Longctx.Row)) (rows : List Longctx.Row)
    → with_row ask ratio r rest ≡ some rows
    → (later : List Longctx.Row) × (rest ≡ some later) × (length rows ≡ suc (length later))
length-with_row ask ratio r none rows h = cc
length-with_row ask ratio r (some later) rows h =
    (later, refl, ap length (sym (some-injective _ rows h)))

length-row_or_stop :
    (ask : ℕ → Text → Result ChatReply) (ratio : ℕ → ℕ → ℤ) (n : ℕ) (part : Text) (found : Option ℕ)
    (later : Result (Option (List Longctx.Row))) (size : ℕ) (rows : List Longctx.Row)
    → ((rs : List Longctx.Row) → later ≡ ok (some rs) → length rs ≡ size)
    → row_or_stop ask ratio n part found later ≡ ok (some rows)
    → length rows ≡ suc size
length-row_or_stop ask ratio n part none later size rows law h = cc (ok-inj h)
length-row_or_stop ask ratio n part (some tokens) later size rows law h =
    let (r, _r, h1) = bind_ok (needle_and_cache ask ratio n part tokens) _ h in
    let (rest, e, h2) = bind_ok later _ h1 in
    let (others, same, more) = length-with_row ask ratio r rest rows (ok-inj h2) in
    more ∙ ap suc (law others (e ∙ ap ok same))

length-rows_of :
    (ask : ℕ → Text → Result ChatReply) (ratio : ℕ → ℕ → ℤ) (n : ℕ) (parts : List Text)
    (rows : List Longctx.Row)
    → rows_of ask ratio n parts ≡ ok (some rows)
    → length rows ≡ length parts
unfolding rows_of
length-rows_of ask ratio n [] rows h = ap length (sym (some-injective [] rows (ok-inj h)))
length-rows_of ask ratio n (part ∷ parts) rows h =
    length-row_or_stop ask ratio n part (tokens_of part) (rows_of ask ratio (n + 2) parts)
      (length parts) rows (λ rs e. length-rows_of ask ratio (n + 2) parts rs e) h

longctx_report :
    (ask : ℕ → Text → Result ChatReply) (ratio : ℕ → ℕ → ℤ) (parts : List Text)
    (found : Option (List Longctx.Row)) (report : Value) (code : ℕ) (float_text : Text → Option ℤ)
    → rows_of ask ratio 0 parts ≡ ok found
    → report_or_stop ask ratio found ≡ (some report, code)
    → (validate float_text Suite.longctx report ≡ ok true) ↔ ((code ≡ 0) × (0 < length parts))
longctx_report ask ratio parts none report code float_text e h = cc (ap (λ m. m.0) h)
longctx_report ask ratio parts (some rows) report code float_text e h =
    let made = graded Longctx.row_grading rows end in
    let both =
      suite_iff Longctx.row_grading (flagged (codes "needle_pass")) always needle_flagged
        Suite.longctx float_text refl rows end in
    let size = length-rows_of ask ratio 0 parts rows e in
    let here : (validate float_text Suite.longctx made.0 ≡ ok true)
        ↔ ((made.1 ≡ 0) × (0 < length parts)) =
      (
        λ h. ground (arith, size, both.0 h),
        λ h. both.1 (ground (arith, size, h, all-always rows)),
      ) in
    let same_report : made.0 ≡ report = some-injective _ _ (ap (λ m. m.0) h) in
    let same_code : made.1 ≡ code = ap (λ m. m.1) h in
    subst (λ v. (validate float_text Suite.longctx v ≡ ok true) ↔ ((code ≡ 0) × (0 < length parts)))
      same_report
      (subst
        (λ c. (validate float_text Suite.longctx made.0 ≡ ok true) ↔ ((c ≡ 0) × (0 < length parts)))
        same_code here)

-- If `main` of bench/longctx.py comes to its end and writes a report, `validate` accepts the report
-- exactly if the exit code is 0 and `SIZES` names a size.
longctx_main-Accepted :
    (ask : ℕ → Text → Result ChatReply) (ratio : ℕ → ℕ → ℤ) (sizes : Text) (report : Value)
    (code : ℕ) (float_text : Text → Option ℤ)
    → longctx_main ask ratio sizes ≡ ok (some report, code)
    → (validate float_text Suite.longctx report ≡ ok true)
      ↔ ((code ≡ 0) × (0 < length (parts_of (split_on 44 sizes))))
unfolding longctx_main
longctx_main-Accepted ask ratio sizes report code float_text h =
    let (found, e, h1) = bind_ok (rows_of ask ratio 0 (parts_of (split_on 44 sizes))) _ h in
    longctx_report ask ratio (parts_of (split_on 44 sizes)) found report code float_text e
      (ok-inj h1)
