-- ===== src/Bench.antt =====
-- The benchmark suites of bench/: the rows that each makes of the server's answers, the report that it
-- writes for `validate` of scripts/experiment.py, and its exit code.
pub mod Graded
pub mod Quality
pub mod Accepted
pub mod Haystack
pub mod Grown
pub mod Prompt
pub mod Bisect
pub mod Sized
pub mod Sizes
pub mod Longctx
pub mod PleSpec
pub mod Soak
pub mod Soaked
pub mod ToolCalls
pub mod Pieces
pub mod Agentic
pub mod Turns
pub mod Told
pub mod Session
pub mod Prefill
pub mod Groups
pub mod Prefilled
pub mod Times
pub mod Window
pub mod Percentiles
pub mod Mixedload
pub mod Mixed
pub mod Effort
pub mod Diverges
mod Tests
mod SizeTests
use qwen38_flash_next_sglang.Prelude.{
  ℕ, suc, ◌+◌, Bool, true, false, not, ◌&&◌, List, [], ◌∷◌, ◌++◌, map, length, all, Text, codes,
  has_sub, ◌==◌, if◌then◌else◌,
}
use qwen38_flash_next_sglang.Json.{Value, arr, obj, Fields, end, field}
use qwen38_flash_next_sglang.Json.Objects.{int, items}

-- `text.replace(" ", "")`
unfoldable pub without_spaces : Text → Text
without_spaces [] = []
without_spaces (c ∷ cs) = let rest = without_spaces cs in if c == 32 then rest else c ∷ rest

-- `"7K-QUARTZ-19" in text.replace(" ", "")`
unfoldable pub has_code : Text → Bool
unfolding without_spaces
has_code text = has_sub (codes "7K-QUARTZ-19") (without_spaces text)

-- `(r["content"] or "") + " " + (r["reasoning"] or "")`, of the two texts of a reply
abbrev pub both_texts : Text → Text → Text
both_texts content reasoning = content ++ (32 ∷ reasoning)

-- How a suite keeps its rows: what it writes of a row, and whether the row passes.
pub record Grading (R : Type 0) : Type 0 where
  pub value : R → Value
  pub passed : R → Bool

-- `len([r for r in rows if not r["pass"]])`
unfoldable pub failures : {R : Type 0} → (R → Bool) → List R → ℕ
failures passed [] = 0
failures passed (r ∷ rs) = (if passed r then 0 else 1) + failures passed rs

-- `0 if not failed else 1`
abbrev pub code_of : ℕ → ℕ
code_of failed = if failed == 0 then 0 else 1

-- `{"results": rows, "failed": failed, ...}`
abbrev pub report_with : List Value → ℕ → Fields → Value
report_with rows failed more =
    obj (field (codes "results") (arr (items rows)) (field (codes "failed") (int failed) more))

-- The report, and the exit code of the suite
unfoldable pub graded : {R : Type 0} → Grading R → List R → Fields → Value × ℕ
unfolding failures items
graded g rows more =
    let failed = failures g.passed rows in
    (report_with (map g.value rows) failed more, code_of failed)
