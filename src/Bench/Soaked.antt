-- ===== src/Bench/Soaked.antt =====
-- The loop of bench/soak.py ends, and what `validate` of scripts/experiment.py makes of its report.
use qwen38_flash_next_sglang.Prelude.{suc, ◌≡◌, refl, ap, Option, List, [], ◌∷◌, map, length}
use qwen38_flash_next_sglang.Json.{Value, arr, Items, ok, size, list_of, truth, or_else}
use qwen38_flash_next_sglang.Json.Objects.{items}

module _ {R : Type 0} (value : R → Value) where
  pub length-items : (rows : List R) → length (list_of (items (map value rows))) ≡ length rows
  unfolding items list_of
  length-items [] = refl
  length-items (r ∷ rs) = ap suc (length-items rs)

  pub size_items :
      (rows : List R)
      → size (or_else (arr (items (map value rows))) (arr Items.nil)) ≡ ok (length rows)
  unfolding size items list_of truth
  size_items [] = refl
  size_items (r ∷ rs) = ap (λ n. ok (suc n)) (length-items rs)
