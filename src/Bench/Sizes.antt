-- ===== src/Bench/Sizes.antt =====
-- The sizes of bench/longctx.py and bench/prefill.py: `SIZES.split(",")` and the mapping of the names.
use qwen38_flash_next_sglang.Prelude.{
  ℕ, Option, none, some, List, [], ◌∷◌, Text, codes, strip, ◌=ₜ◌, if◌then◌else◌,
}

abbrev mapping : List (Text × ℕ)
mapping =
    (codes "8k", 8000)
    ∷ (codes "32k", 32000)
    ∷ (codes "40k", 40000)
    ∷ (codes "120k", 120000)
    ∷ (codes "128k", 128000)
    ∷ (codes "190k", 190000)
    ∷ (codes "210k", 210000)
    ∷ (codes "250k", 250000)
    ∷ (codes "300k", 300000)
    ∷ (codes "400k", 400000)
    ∷ (codes "500k", 500000)
    ∷ (codes "600k", 600000)
    ∷ []

abbrev lookup : Text → List (Text × ℕ) → Option ℕ
lookup k [] = none
lookup k (e ∷ es) = let later = lookup k es in if e.0 =ₜ k then some e.1 else later

unfoldable pub tokens_of : Text → Option ℕ
tokens_of part = lookup part mapping

-- The parts that are not empty
unfoldable pub parts_of : List Text → List Text
unfolding strip
parts_of [] = []
parts_of (p ∷ ps) =
    let rest = parts_of ps in let part = strip p in if part =ₜ [] then rest else part ∷ rest
