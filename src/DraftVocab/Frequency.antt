-- ===== src/DraftVocab/Frequency.antt =====
-- Counting and ranking: `encode_texts`, and the order of `most_common`.
use qwen38_flash_next_sglang.Prelude.{
  ℕ, ◌+◌, ◌≤◌, ◌≡◌, refl, List, [], ◌∷◌, ◌++◌, map, arith, ltb, ◌==◌, ◌||◌, if◌then◌else◌, Text,
  all, is_space, Bool-cases, inl, inr,
}
use mathlib.Core.List.{Perm}
use mathlib.Core.List.Perm
use qwen38_flash_next_sglang.DraftVocab.Counts.{
  Counter, count_of, add_one, update, place, by_count, most_common,
}

-- How often an id stands in a list.
pub occurrences : ℕ → List ℕ → ℕ
occurrences tid [] = 0
occurrences tid (x ∷ xs) = (if x == tid then 1 else 0) + occurrences tid xs

occurrences-append :
    (tid : ℕ) (xs ys : List ℕ)
    → occurrences tid (xs ++ ys) ≡ occurrences tid xs + occurrences tid ys
unfolding occurrences
occurrences-append tid [] ys = omega arith
occurrences-append tid (x ∷ xs) ys = omega (arith, occurrences-append tid xs ys)

count_of-add_one :
    (tid x : ℕ) (c : Counter)
    → count_of tid (add_one x c) ≡ count_of tid c + (if x == tid then 1 else 0)
unfolding count_of add_one
count_of-add_one tid x [] = ground arith
count_of-add_one tid x ((j, n) ∷ c) = ground (arith, count_of-add_one tid x c)

count_of-update :
    (tid : ℕ) (ids : List ℕ) (c : Counter)
    → count_of tid (update ids c) ≡ count_of tid c + occurrences tid ids
unfolding update occurrences
count_of-update tid [] c = omega arith
count_of-update tid (x ∷ ids) c =
    omega (arith, count_of-update tid ids (add_one x c), count_of-add_one tid x c)

-- The tokenizer is not of this repository.
module _ (encode : Text → List ℕ) where
  -- `encode_texts`: a text whose `strip()` is empty is passed over.
  unfoldable pub encode_texts : List Text → Counter → Counter
  encode_texts [] counts = counts
  encode_texts (text ∷ rest) counts =
      encode_texts rest (if all is_space text then counts else update (encode text) counts)

  -- The tokens of the texts that are not blank, one after the other.
  unfoldable pub tokens_of : List Text → List ℕ
  tokens_of [] = []
  tokens_of (text ∷ rest) = (if all is_space text then [] else encode text) ++ tokens_of rest

  count_of-encode_texts_onto :
      (tid : ℕ) (texts : List Text) (c : Counter)
      → count_of tid (encode_texts texts c) ≡ count_of tid c + occurrences tid (tokens_of texts)
  unfolding encode_texts tokens_of occurrences
  count_of-encode_texts_onto tid [] c = omega arith
  count_of-encode_texts_onto tid (text ∷ rest) c = elim (Bool-cases (all is_space text)) [
    | inl e ↦ simp e (count_of-encode_texts_onto tid rest c)
    | inr e ↦ simp e (
        omega (
          arith,
          count_of-encode_texts_onto tid rest (update (encode text) c),
          count_of-update tid (encode text) c,
          occurrences-append tid (encode text) (tokens_of rest),
        ))
  ]

  -- The count of an id is the number of times that the tokenizer gives it, over all texts that are
  -- not blank.
  count_of-encode_texts :
      (tid : ℕ) (texts : List Text)
      → count_of tid (encode_texts texts []) ≡ occurrences tid (tokens_of texts)
  count_of-encode_texts tid texts =
      omega (arith, count_of-encode_texts_onto tid texts [], count_of_nil tid)
    where
      count_of_nil : (t : ℕ) → count_of t [] ≡ 0
      count_of_nil t = unfold count_of in refl

-- By descending counts.
abbrev Descending : Counter → Type 0
Descending [] = Unit
Descending (e ∷ []) = Unit
Descending (e ∷ f ∷ rest) = (f.1 ≤ e.1) × Descending (f ∷ rest)

place-Descending : (e : ℕ × ℕ) (c : Counter) → Descending c → Descending (place e c)
unfolding place
place-Descending e [] h = tt
place-Descending e (f ∷ []) h = ground arith
place-Descending e (f ∷ g ∷ rest) h = elim (Bool-cases (ltb f.1 e.1 || (f.1 == e.1))) [
  | inl t ↦ rw t (ground arith, h)
  | inr t ↦ ground (arith, place-Descending e (g ∷ rest) h.1)
]

place-perm : (e : ℕ × ℕ) (c : Counter) → Perm (place e c) (e ∷ c)
unfolding place
place-perm e [] = Perm.refl (e ∷ [])
place-perm e (f ∷ rest) = elim (Bool-cases (ltb f.1 e.1 || (f.1 == e.1))) [
  | inl t ↦ rw t (Perm.refl (e ∷ f ∷ rest))
  | inr t ↦ rw t (Perm.trans (Perm.cons f (place-perm e rest)) (Perm.swap e f rest))
]

by_count-Descending : (c : Counter) → Descending (by_count c)
unfolding by_count
by_count-Descending [] = tt
by_count-Descending (e ∷ c) = place-Descending e (by_count c) (by_count-Descending c)

by_count-perm : (c : Counter) → Perm (by_count c) c
unfolding by_count
by_count-perm [] = Perm.refl []
by_count-perm (e ∷ c) = Perm.trans (place-perm e (by_count c)) (Perm.cons e (by_count-perm c))

-- `most_common` lists the ids of a rearrangement of the counts, all of them, by descending counts.
most_common-IsRanking :
    (c : Counter)
    → (ranking : Counter) × (most_common c ≡ map (λ e. e.0) ranking)
      × Descending ranking
      × Perm ranking c
unfolding most_common
most_common-IsRanking c = (by_count c, refl, by_count-Descending c, by_count-perm c)
