-- ===== src/DraftVocab/Sizes.antt =====
-- The loops of `rank_ids` at two sizes, and what a fill adds.
use qwen38_flash_next_sglang.Prelude.{
  ℕ, zero, suc, ◌+◌, ◌-◌, ◌≤◌, ◌≡◌, refl, ◌⊎◌, List, [], ◌∷◌, ◌++◌, arith, leb, length,
  length-append, mem_nat, Bool-cases, inl, inr, leb→le, le→leb,
}
use qwen38_flash_next_sglang.DraftVocab.{Picked, pick, add_corpus, add_fill}
use qwen38_flash_next_sglang.DraftVocab.Bounds.{length-add_fill}

add_corpus_grows :
    (size : ℕ) (ranked : List ℕ) (p : Picked) (added : ℕ)
    → length p.chosen ≤ length (add_corpus size ranked p added).0.chosen
unfolding add_corpus
add_corpus_grows size [] p added = omega arith
add_corpus_grows size (tid ∷ rest) p added = elim (Bool-cases (mem_nat tid p.seen)) [
  | inl f ↦ simp f (add_corpus_grows size rest p added)
  | inr f ↦ elim (Bool-cases (leb size (length (p.chosen ++ tid ∷ [])))) [
    | inl e ↦ simp (e, f) (omega (arith, length-append p.chosen (tid ∷ [])))
    | inr e ↦
        simp (e, f)
          (omega (
            arith,
            length-append p.chosen (tid ∷ []),
            add_corpus_grows size rest (pick tid p) (added + 1),
          ))
  ]
]

-- At two sizes the corpus loop does the same, or it has reached the smaller one in both.
pub add_corpus_two_sizes :
    (n m : ℕ) (ranked : List ℕ) (p : Picked) (added : ℕ)
    → n ≤ m
    → (add_corpus n ranked p added ≡ add_corpus m ranked p added)
      ⊎ ((n ≤ length (add_corpus n ranked p added).0.chosen)
          × (n ≤ length (add_corpus m ranked p added).0.chosen))
unfolding add_corpus
add_corpus_two_sizes n m [] p added h = inl refl
add_corpus_two_sizes n m (tid ∷ rest) p added h = elim (Bool-cases (mem_nat tid p.seen)) [
  | inl f ↦ simp f (add_corpus_two_sizes n m rest p added h)
  | inr f ↦ elim (Bool-cases (leb n (length (p.chosen ++ tid ∷ [])))) [
    | inl e ↦ elim (Bool-cases (leb m (length (p.chosen ++ tid ∷ [])))) [
      | inl g ↦ simp (e, f, g) (inl refl)
      | inr g ↦
          simp (e, f, g)
            (inr (
              leb→le n (length (p.chosen ++ tid ∷ [])) e,
              omega (
                arith,
                leb→le n (length (p.chosen ++ tid ∷ [])) e,
                add_corpus_grows m rest (pick tid p) (added + 1),
              ),
            ))
    ]
    | inr e ↦ elim (Bool-cases (leb m (length (p.chosen ++ tid ∷ [])))) [
      | inl g ↦ absurd (ground arith)
      | inr g ↦ simp (e, f, g) (add_corpus_two_sizes n m rest (pick tid p) (added + 1) h)
    ]
  ]
]

add_fill_full :
    (size k tid : ℕ) (p : Picked) (added : ℕ)
    → size ≤ length p.chosen
    → add_fill size k tid p added ≡ (p, added)
unfolding add_fill
add_fill_full size zero tid p added h = refl
add_fill_full size (suc k) tid p added h = simp (le→leb size (length p.chosen) h)

length-add_fill-le :
    (size k tid : ℕ) (p : Picked) (added : ℕ)
    → length p.chosen ≤ size
    → length (add_fill size k tid p added).0.chosen ≤ size
unfolding add_fill
length-add_fill-le size zero tid p added h = h
length-add_fill-le size (suc k) tid p added h = elim (Bool-cases (leb size (length p.chosen))) [
  | inl e ↦ simp e h
  | inr e ↦ elim (Bool-cases (mem_nat tid p.seen)) [
    | inl f ↦ simp (e, f) (length-add_fill-le size k (tid + 1) p added h)
    | inr f ↦
        simp (e, f)
          (length-add_fill-le size k (tid + 1) (pick tid p) (added + 1)
            (ground (arith, length-append p.chosen (tid ∷ []))))
  ]
]

-- A fill that ends with `size` ids or more has added just the ids that were missing.
pub add_fill_count :
    (size k tid : ℕ) (p : Picked)
    → size ≤ length (add_fill size k tid p 0).0.chosen
    → (add_fill size k tid p 0).1 ≡ size - length p.chosen
add_fill_count size k tid p h = elim (Bool-cases (leb size (length p.chosen))) [
  | inl e ↦
      rw (add_fill_full size k tid p 0 (leb→le _ _ e))
        (omega (arith, leb→le size (length p.chosen) e))
  | inr e ↦
      let short : length p.chosen ≤ size = ground arith in
      omega (arith, length-add_fill size k tid p 0, length-add_fill-le size k tid p 0 short)
]
