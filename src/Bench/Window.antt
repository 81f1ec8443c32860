-- ===== src/Bench/Window.antt =====
-- The gaps that overlap a window cover it.
use qwen38_flash_next_sglang.Prelude.{
  ℕ, zero, suc, ◌+◌, ◌-◌, ◌≤◌, ◌≡◌, refl, ◌∙◌, inl, inr, true, ◌&&◌, some, List, [], ◌∷◌, get_elem?,
  mem_nat, ◌==◌, leb, ltb, max, Bool-cases, arith, if◌then◌else◌,
}
use mathlib.Core.Option.{some-injective}
use mathlib.Core.Path.{subst}
use qwen38_flash_next_sglang.Bench.Times.{
  insert, sorted, with_gap, overlapping, overlapping_all, gaps_in_window,
}

-- `x` is no more than the times, and they are in order.
abbrev pub Ascends : ℕ → List ℕ → Type 0
Ascends x [] = Unit
Ascends x (y ∷ ys) = (x ≤ y) × Ascends y ys

abbrev pub Ascending : List ℕ → Type 0
Ascending [] = Unit
Ascending (x ∷ xs) = Ascends x xs

insert-Ascends : (low x : ℕ) (ys : List ℕ) → low ≤ x → Ascends low ys → Ascends low (insert x ys)
insert-Ascends low x [] h a = (h, tt)
insert-Ascends low x (y ∷ ys) h a = elim (Bool-cases (ltb y x)) [
  | inl p ↦ rw p (a.0, insert-Ascends y x ys (ground arith) a.1)
  | inr p ↦ rw p (h, (ground arith, a.1))
]

insert-Ascending : (x : ℕ) (ys : List ℕ) → Ascending ys → Ascending (insert x ys)
insert-Ascending x [] a = tt
insert-Ascending x (y ∷ ys) a = elim (Bool-cases (ltb y x)) [
  | inl p ↦ rw p (insert-Ascends y x ys (ground arith) a)
  | inr p ↦ rw p (ground arith, a)
]

pub sorted-Ascending : (xs : List ℕ) → Ascending (sorted xs)
unfolding sorted
sorted-Ascending [] = tt
sorted-Ascending (x ∷ xs) = insert-Ascending x (sorted xs) (sorted-Ascending xs)

Ascends-get : (x : ℕ) (ys : List ℕ) (i v : ℕ) → Ascends x ys → get_elem? ys i ≡ some v → x ≤ v
Ascends-get x [] i v a h = cc
Ascends-get x (y ∷ ys) zero v a h = subst (λ n. x ≤ n) (some-injective y v h) (a.0)
Ascends-get x (y ∷ ys) (suc i) v a h = omega (arith, a.0, Ascends-get y ys i v a.1 h)

Ascends-Ascending : (x : ℕ) (xs : List ℕ) → Ascends x xs → Ascending xs
Ascends-Ascending x [] a = tt
Ascends-Ascending x (y ∷ ys) a = a.1

pub Ascending-get :
    (xs : List ℕ) (i j v w : ℕ)
    → Ascending xs
    → i ≤ j
    → get_elem? xs i ≡ some v
    → get_elem? xs j ≡ some w
    → v ≤ w
Ascending-get [] i j v w a h p q = cc
Ascending-get (x ∷ xs) zero zero v w a h p q =
    omega (arith, some-injective x v p, some-injective x w q)
Ascending-get (x ∷ xs) zero (suc j) v w a h p q =
    omega (arith, some-injective x v p, Ascends-get x xs j w a q)
Ascending-get (x ∷ xs) (suc i) zero v w a h p q = omega (arith, h)
Ascending-get (x ∷ xs) (suc i) (suc j) v w a h p q =
    Ascending-get xs i j v w (Ascends-Ascending x xs a) (omega (arith, h)) p q

abbrev pub total : List ℕ → ℕ
total [] = 0
total (x ∷ xs) = x + total xs

abbrev pub last_or : ℕ → List ℕ → ℕ
last_or x [] = x
last_or x (y ∷ ys) = last_or y ys

total-with_gap :
    (start until a b : ℕ) (gaps : List ℕ)
    → total (with_gap start until a b gaps)
      ≡ (if leb start b && leb a until then b - a else 0) + total gaps
total-with_gap start until a b gaps = elim (Bool-cases (leb start b && leb a until)) [
  | inl p ↦ rw p refl
  | inr p ↦ rw p (omega arith)
]

-- From the time `a` on, or from the start of the window
overlapping-covers :
    (start until a : ℕ) (times : List ℕ)
    → Ascends a times
    → start ≤ until
    → a ≤ until
    → until ≤ last_or a times
    → until ≤ max a start + total (overlapping start until a times)
unfolding overlapping
overlapping-covers start until a [] s h k l = omega (arith, k)
overlapping-covers start until a (b ∷ times) s h k l = elim (Bool-cases (leb b until)) [
  | inl p ↦
      let rest = overlapping-covers start until b times s.1 h (ground arith) l in
      elim (Bool-cases (leb start b)) [
        | inl q ↦
            ground (arith, rest, total-with_gap start until a b (overlapping start until b times))
        | inr q ↦
            ground (arith, rest, total-with_gap start until a b (overlapping start until b times))
      ]
  | inr p ↦ ground (arith, total-with_gap start until a b (overlapping start until b times))
]

mem_nat-insert : (v x : ℕ) (ys : List ℕ) → mem_nat v (insert x ys) ≡ mem_nat v (x ∷ ys)
mem_nat-insert v x [] = refl
mem_nat-insert v x (y ∷ ys) = elim (Bool-cases (ltb y x)) [
  | inl p ↦ rw p (ground (arith, mem_nat-insert v x ys))
  | inr p ↦ rw p refl
]

pub mem_nat-sorted : (v : ℕ) (xs : List ℕ) → mem_nat v (sorted xs) ≡ mem_nat v xs
unfolding sorted
mem_nat-sorted v [] = refl
mem_nat-sorted v (x ∷ xs) = mem_nat-insert v x (sorted xs) ∙ ground (arith, mem_nat-sorted v xs)

-- What is in a list in order is between its ends.
between :
    (x : ℕ) (xs : List ℕ) (v : ℕ)
    → Ascends x xs
    → mem_nat v (x ∷ xs) ≡ true
    → (x ≤ v) × (v ≤ last_or x xs) × (x ≤ last_or x xs)
between x [] v a h = (ground arith, ground arith, omega arith)
between x (y ∷ ys) v a h =
    let ends = between y ys y a.1 (ground arith) in
    elim (Bool-cases (x == v)) [
      | inl p ↦ (ground arith, ground (arith, a.0, ends), omega (arith, a.0, ends.2))
      | inr p ↦
          let there = between y ys v a.1 (ground (arith, h)) in
          (omega (arith, a.0, there.0), there.1, omega (arith, a.0, ends.2))
    ]

window_covered :
    (times : List ℕ) (start until early late : ℕ)
    → Ascending times
    → mem_nat early times ≡ true
    → mem_nat late times ≡ true
    → early ≤ start
    → start ≤ until
    → until ≤ late
    → until ≤ start + total (overlapping_all start until times)
window_covered [] start until early late a e l h k m = cc
window_covered (t ∷ ts) start until early late a e l h k m =
    let first = between t ts early a e in
    let last = between t ts late a l in
    omega (
      arith,
      first.0,
      last.1,
      h,
      m,
      overlapping-covers start until t ts a k (omega (arith, first.0, h, k))
          (omega (arith, last.1, m)),
    )

-- If a chunk came no later than the window of bench/mixedload.py starts, and one no earlier than it
-- ends, the gaps that `gaps_in_window` finds add up to the length of the window at least.
pub gaps_in_window-covers :
    (times : List ℕ) (start until early late : ℕ)
    → mem_nat early times ≡ true
    → mem_nat late times ≡ true
    → early ≤ start
    → start ≤ until
    → until ≤ late
    → until - start ≤ total (gaps_in_window times start until)
unfolding gaps_in_window
gaps_in_window-covers times start until early late e l h k m = omega (
  arith,
  window_covered (sorted times) start until early late (sorted-Ascending times)
      (mem_nat-sorted early times ∙ e) (mem_nat-sorted late times ∙ l) h k m,
)
