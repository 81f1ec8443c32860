-- ===== src/Bench/Times.antt =====
-- `percentile` and `gaps_in_window` of bench/mixedload.py, of times in nanoseconds. The index is rounded
-- from the exact quotient.
use qwen38_flash_next_sglang.Prelude.{
  ℕ, ◌-◌, ◌*◌, ◌&&◌, Option, none, some, List, [], ◌∷◌, length, get_elem?, leb, ltb, min, max,
  if◌then◌else◌,
}
use qwen38_flash_next_sglang.Prelude.Rounding.{round_ratio}

-- The list in ascending order
abbrev pub insert : ℕ → List ℕ → List ℕ
insert x [] = x ∷ []
insert x (y ∷ ys) = let later = insert x ys in if ltb y x then y ∷ later else x ∷ y ∷ ys

unfoldable pub sorted : List ℕ → List ℕ
sorted [] = []
sorted (x ∷ xs) = insert x (sorted xs)

unfoldable pub index_of : ℕ → ℕ → ℕ
unfolding round_ratio
index_of p size = min (size - 1) (max 0 (round_ratio (p * (size - 1)) 100))

-- The time that a percentile picks
unfoldable pub nearest_rank : List ℕ → ℕ → Option ℕ
unfolding sorted index_of
nearest_rank [] p = none
nearest_rank (v ∷ vs) p = get_elem? (sorted (v ∷ vs)) (index_of p (length (sorted (v ∷ vs))))

-- The percentile in millionths of a second, to which it is rounded
unfoldable pub percentile : List ℕ → ℕ → Option ℕ
unfolding nearest_rank round_ratio
percentile values p = elim (nearest_rank values p) [
  | none ↦ none
  | some v ↦ some (round_ratio v 1000)
]

-- The gap of two times that follow each other, if it overlaps the window
abbrev pub with_gap : ℕ → ℕ → ℕ → ℕ → List ℕ → List ℕ
with_gap start until a b gaps = if leb start b && leb a until then (b - a) ∷ gaps else gaps

unfoldable pub overlapping : ℕ → ℕ → ℕ → List ℕ → List ℕ
overlapping start until a [] = []
overlapping start until a (b ∷ times) = with_gap start until a b (overlapping start until b times)

abbrev pub overlapping_all : ℕ → ℕ → List ℕ → List ℕ
overlapping_all start until [] = []
overlapping_all start until (a ∷ times) = overlapping start until a times

unfoldable pub gaps_in_window : List ℕ → ℕ → ℕ → List ℕ
unfolding sorted overlapping
gaps_in_window times start until = overlapping_all start until (sorted times)
