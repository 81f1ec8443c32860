-- ===== src/Bench/Percentiles.antt =====
-- Percentiles of bench/mixedload.py: a larger one is no less.
use qwen38_flash_next_sglang.Prelude.{
  ℕ, zero, suc, ◌-◌, ◌*◌, ◌≤◌, ◌<◌, ◌≡◌, refl, sym, ap, ◌∙◌, inl, inr, true, some, List, [], ◌∷◌,
  length, get_elem?, mem_nat, ltb, Bool-cases, arith,
}
use qwen38_flash_next_sglang.Prelude.Rounding.{round_ratio}
use qwen38_flash_next_sglang.Bench.Times.{insert, sorted, index_of, nearest_rank}
use qwen38_flash_next_sglang.Bench.Window.{sorted-Ascending, Ascending-get, mem_nat-sorted}

round_ratio_mono : (a b : ℕ) → a ≤ b → round_ratio a 100 ≤ round_ratio b 100
unfolding round_ratio
round_ratio_mono a b h = ground arith

length-insert : (x : ℕ) (ys : List ℕ) → length (insert x ys) ≡ suc (length ys)
length-insert x [] = refl
length-insert x (y ∷ ys) = elim (Bool-cases (ltb y x)) [
  | inl p ↦ rw p (ap suc (length-insert x ys))
  | inr p ↦ rw p refl
]

-- What is at an index within the list
at_index :
    (xs : List ℕ) (i : ℕ)
    → i < length xs
    → (v : ℕ) × (get_elem? xs i ≡ some v) × (mem_nat v xs ≡ true)
at_index [] i h = absurd (omega (arith, h))
at_index (x ∷ xs) zero h = (x, refl, ground arith)
at_index (x ∷ xs) (suc i) h =
    let (v, e, m) = at_index xs i (omega (arith, h)) in (v, e, ground (arith, m))

index_of-below : (p size : ℕ) → 0 < size → index_of p size < size
unfolding index_of
index_of-below p size h = omega (arith, h)

times_mono : (k p q : ℕ) → p ≤ q → p * k ≤ q * k
times_mono zero p q h = omega arith
times_mono (suc k) p q h = omega (arith, times_mono k p q h, h)

index_of_mono : (p q size : ℕ) → p ≤ q → index_of p size ≤ index_of q size
unfolding index_of
index_of_mono p q size h =
    omega (arith, round_ratio_mono (p * (size - 1)) (q * (size - 1)) (times_mono (size - 1) p q h))

-- Of times that are not none, each percentile of bench/mixedload.py, before it is rounded, is one of
-- them, and a larger percentile is no less.
nearest_rank-Ordered :
    (t : ℕ) (ts : List ℕ) (p q : ℕ)
    → p ≤ q
    → (v : ℕ) × (w : ℕ) × (nearest_rank (t ∷ ts) p ≡ some v)
      × (nearest_rank (t ∷ ts) q ≡ some w)
      × (v ≤ w)
      × (mem_nat v (t ∷ ts) ≡ true)
      × (mem_nat w (t ∷ ts) ≡ true)
unfolding nearest_rank sorted
nearest_rank-Ordered t ts p q h =
    let xs = sorted (t ∷ ts) in
    let size : 0 < length (sorted (t ∷ ts)) = omega (arith, length-insert t (sorted ts)) in
    let (v, e, m) = at_index xs (index_of p (length xs)) (index_of-below p (length xs) size) in
    let (w, f, n) = at_index xs (index_of q (length xs)) (index_of-below q (length xs) size) in
    (
      v,
      w,
      e,
      f,
      Ascending-get xs _ _ v w (sorted-Ascending (t ∷ ts)) (index_of_mono p q (length xs) h) e f,
      sym (mem_nat-sorted v (t ∷ ts)) ∙ m,
      sym (mem_nat-sorted w (t ∷ ts)) ∙ n,
    )
