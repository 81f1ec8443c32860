-- ===== src/DraftVocab/Members.antt =====
-- Membership, distinctness and counting of lists of ids.
use qwen38_flash_next_sglang.Prelude.{
  ℕ, zero, suc, ◌+◌, ◌≤◌, ◌<◌, ◌≡◌, ◌≢◌, refl, ap, ◌∙◌, true, false, not, ◌&&◌, ◌||◌, List, [], ◌∷◌,
  ◌++◌, arith, ltb, ◌==◌, length, take, mem_nat, if◌then◌else◌, Bool-cases, inl, inr,
}
use qwen38_flash_next_sglang.DraftVocab.{in_vocab}
use qwen38_flash_next_sglang.DraftVocab.Stream.{fresh, range_from}

-- No id stands twice.
abbrev pub Distinct : List ℕ → Type 0
Distinct [] = Unit
Distinct (x ∷ xs) = (mem_nat x xs ≡ false) × Distinct xs

abbrev pub AllBelow : ℕ → List ℕ → Type 0
AllBelow n [] = Unit
AllBelow n (x ∷ xs) = (x < n) × AllBelow n xs

pub mem_nat-append :
    (v : ℕ) (xs ys : List ℕ) → mem_nat v (xs ++ ys) ≡ (mem_nat v xs || mem_nat v ys)
mem_nat-append v [] ys = refl
mem_nat-append v (x ∷ xs) ys = ground (arith, mem_nat-append v xs ys)

pub mem_nat-fresh :
    (v : ℕ) (seen xs : List ℕ) → mem_nat v (fresh seen xs) ≡ (mem_nat v xs && not (mem_nat v seen))
unfolding fresh
mem_nat-fresh v seen [] = refl
mem_nat-fresh v seen (x ∷ xs) =
    ground (arith, mem_nat-fresh v seen xs, mem_nat-fresh v (x ∷ seen) xs)

pub fresh-Distinct : (seen xs : List ℕ) → Distinct (fresh seen xs)
unfolding fresh
fresh-Distinct seen [] = tt
fresh-Distinct seen (x ∷ xs) = elim (Bool-cases (mem_nat x seen)) [
  | inl e ↦ rw e (fresh-Distinct seen xs)
  | inr e ↦ rw e (mem_nat-fresh x (x ∷ seen) xs ∙ ground arith, fresh-Distinct (x ∷ seen) xs)
]

mem_nat-take : (v n : ℕ) (xs : List ℕ) → mem_nat v xs ≡ false → mem_nat v (take n xs) ≡ false
mem_nat-take v zero xs h = refl
mem_nat-take v (suc n) [] h = refl
mem_nat-take v (suc n) (x ∷ xs) h = ground (arith, mem_nat-take v n xs)

pub take-Distinct : (n : ℕ) (xs : List ℕ) → Distinct xs → Distinct (take n xs)
take-Distinct zero xs h = tt
take-Distinct (suc n) [] h = tt
take-Distinct (suc n) (x ∷ xs) h = (mem_nat-take x n xs h.0, take-Distinct n xs h.1)

pub take-AllBelow : (n k : ℕ) (xs : List ℕ) → AllBelow n xs → AllBelow n (take k xs)
take-AllBelow n zero xs h = tt
take-AllBelow n (suc k) [] h = tt
take-AllBelow n (suc k) (x ∷ xs) h = (h.0, take-AllBelow n k xs h.1)

pub append-AllBelow :
    (n : ℕ) (xs ys : List ℕ) → AllBelow n xs → AllBelow n ys → AllBelow n (xs ++ ys)
append-AllBelow n [] ys h k = k
append-AllBelow n (x ∷ xs) ys h k = (h.0, append-AllBelow n xs ys h.1 k)

pub fresh-AllBelow : (n : ℕ) (seen xs : List ℕ) → AllBelow n xs → AllBelow n (fresh seen xs)
unfolding fresh
fresh-AllBelow n seen [] h = tt
fresh-AllBelow n seen (x ∷ xs) h = elim (Bool-cases (mem_nat x seen)) [
  | inl e ↦ rw e (fresh-AllBelow n seen xs h.1)
  | inr e ↦ rw e (h.0, fresh-AllBelow n (x ∷ seen) xs h.1)
]

pub in_vocab-AllBelow : (n : ℕ) (xs : List ℕ) → AllBelow n (in_vocab n xs)
unfolding in_vocab
in_vocab-AllBelow n [] = tt
in_vocab-AllBelow n (x ∷ xs) = elim (Bool-cases (ltb x n)) [
  | inl e ↦ rw e (ground arith, in_vocab-AllBelow n xs)
  | inr e ↦ rw e (in_vocab-AllBelow n xs)
]

pub range_from-AllBelow : (n k tid : ℕ) → tid + k ≤ n → AllBelow n (range_from k tid)
range_from-AllBelow n zero tid h = tt
range_from-AllBelow n (suc k) tid h = (omega arith, range_from-AllBelow n k (tid + 1) (omega arith))

pub mem_nat-range_from : (v k tid : ℕ) → tid ≤ v → v < tid + k → mem_nat v (range_from k tid) ≡ true
mem_nat-range_from v zero tid h l = absurd (omega arith)
mem_nat-range_from v (suc k) tid h l = elim (Bool-cases (tid == v)) [
  | inl e ↦ rw e
  | inr e ↦ ground (arith, mem_nat-range_from v k (tid + 1))
]

-- A list that holds every number below `n` has `n` entries or more.
remove_nat : ℕ → List ℕ → List ℕ
remove_nat v [] = []
remove_nat v (x ∷ xs) = if x == v then xs else x ∷ remove_nat v xs

length-remove_nat :
    (v : ℕ) (xs : List ℕ) → mem_nat v xs ≡ true → length (remove_nat v xs) + 1 ≡ length xs
unfolding remove_nat
length-remove_nat v [] h = cc
length-remove_nat v (x ∷ xs) h = ground (arith, length-remove_nat v xs)

mem_nat-remove_nat :
    (w v : ℕ) (xs : List ℕ) → v ≢ w → mem_nat w xs ≡ true → mem_nat w (remove_nat v xs) ≡ true
unfolding remove_nat
mem_nat-remove_nat w v [] n h = cc
mem_nat-remove_nat w v (x ∷ xs) n h = ground (arith, mem_nat-remove_nat w v xs)

pub length_of_all : (n : ℕ) (xs : List ℕ) → ((v : ℕ) → v < n → mem_nat v xs ≡ true) → n ≤ length xs
length_of_all zero xs h = omega arith
length_of_all (suc n) xs h =
    let shorter =
      length_of_all n (remove_nat n xs)
        (λ v l. mem_nat-remove_nat v n xs (omega arith) (h v (omega arith))) in
    omega (arith, shorter, length-remove_nat n xs (h n (omega arith)))

-- Distinct ids that were not seen are all fresh.
fresh_of_new :
    (seen xs : List ℕ)
    → Distinct xs
    → ((v : ℕ) → mem_nat v xs ≡ true → mem_nat v seen ≡ false)
    → fresh seen xs ≡ xs
unfolding fresh
fresh_of_new seen [] d h = refl
fresh_of_new seen (x ∷ xs) d h = rw (h x (ground arith)) (
    ap (◌∷◌ x) (
      fresh_of_new (x ∷ seen) xs d.1 (λ v m. elim (Bool-cases (x == v)) [
        | inl e ↦ absurd (ground (arith, d.0))
        | inr e ↦ rw e (h v (rw e m))
      ])))

pub fresh_of_Distinct : (xs : List ℕ) → Distinct xs → fresh [] xs ≡ xs
fresh_of_Distinct xs d = fresh_of_new [] xs d (λ v m. refl)
