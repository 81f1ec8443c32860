-- ===== src/DraftVocab/Stream.antt =====
-- The three loops of `rank_ids` as one: the first `size` new ids of a stream of candidates.
use qwen38_flash_next_sglang.Prelude.{
  ℕ, zero, suc, ◌+◌, ◌≤◌, ◌≡◌, refl, ap, sym, ◌∙◌, Bool, true, false, List, [], ◌∷◌, ◌++◌, arith,
  ltb, leb, length, take, mem_nat, if◌then◌else◌, append-nil, append_assoc, inl, inr, Bool-cases,
  take-append, leb→le,
}
use qwen38_flash_next_sglang.DraftVocab.Counts.{Counter, most_common}
use qwen38_flash_next_sglang.DraftVocab.{
  Picked, pick, add_specials, in_vocab, add_corpus, add_fill, fill_if, rank_ids,
}

-- The ids of a list that are not in `seen`, each once, in order.
unfoldable pub fresh : List ℕ → List ℕ → List ℕ
fresh seen [] = []
fresh seen (x ∷ xs) =
    let skip = fresh seen xs in
    let keep = x ∷ fresh (x ∷ seen) xs in if mem_nat x seen then skip else keep

-- `seen` after the ids of a list.
pub seen_after : List ℕ → List ℕ → List ℕ
seen_after seen [] = seen
seen_after seen (x ∷ xs) =
    let skip = seen_after seen xs in
    let keep = seen_after (x ∷ seen) xs in if mem_nat x seen then skip else keep

abbrev pub range_from : ℕ → ℕ → List ℕ
range_from zero tid = []
range_from (suc k) tid = tid ∷ range_from k (tid + 1)

fresh-append :
    (seen xs ys : List ℕ) → fresh seen (xs ++ ys) ≡ fresh seen xs ++ fresh (seen_after seen xs) ys
unfolding fresh seen_after
fresh-append seen [] ys = refl
fresh-append seen (x ∷ xs) ys =
    ground (arith, fresh-append seen xs ys, fresh-append (x ∷ seen) xs ys)

-- The specials' loop picks the fresh ones that lie in the vocabulary.
add_specials-chosen :
    (vocab : ℕ) (special : List ℕ) (p : Picked)
    → add_specials vocab special p ≡ record {
      chosen = p.chosen ++ fresh p.seen (in_vocab vocab special);
      seen = seen_after p.seen (in_vocab vocab special);
    }
unfolding add_specials in_vocab fresh seen_after
add_specials-chosen vocab [] p = rw append-nil
add_specials-chosen vocab (tid ∷ rest) p = elim (Bool-cases (ltb tid vocab)) [
  | inr e ↦ rw e (add_specials-chosen vocab rest p)
  | inl e ↦ elim (Bool-cases (mem_nat tid p.seen)) [
    | inl f ↦ simp (e, f) (add_specials-chosen vocab rest p)
    | inr f ↦ simp (e, f) (add_specials-chosen vocab rest (pick tid p) ∙ simp append_assoc)
  ]
]

-- Ids past the first `size` do not show.
take-append_long :
    (size : ℕ) (xs ys zs : List ℕ) → size ≤ length xs → take size (xs ++ ys) ≡ take size (xs ++ zs)
take-append_long size xs ys zs h = take-append size xs ys h ∙ sym (take-append size xs zs h)

take-add_fill :
    (size k tid : ℕ) (p : Picked) (added : ℕ)
    → take size (add_fill size k tid p added).0.chosen
      ≡ take size (p.chosen ++ fresh p.seen (range_from k tid))
unfolding add_fill fresh
take-add_fill size zero tid p added = rw append-nil
take-add_fill size (suc k) tid p added = elim (Bool-cases (leb size (length p.chosen))) [
  | inl e ↦ simp e (sym (take-append size p.chosen _ (leb→le _ _ e)))
  | inr e ↦ elim (Bool-cases (mem_nat tid p.seen)) [
    | inl f ↦ simp (e, f) (take-add_fill size k (tid + 1) p added)
    | inr f ↦
        simp (e, f) (take-add_fill size k (tid + 1) (pick tid p) (added + 1) ∙ simp append_assoc)
  ]
]

-- The candidates of the last loop.
abbrev pub fill_ids : Bool → ℕ → List ℕ
fill_ids true vocab = range_from vocab 0
fill_ids false vocab = []

take-fill_if :
    (fill : Bool) (size vocab : ℕ) (p : Picked)
    → take size (fill_if fill size vocab p).0.chosen
      ≡ take size (p.chosen ++ fresh p.seen (fill_ids fill vocab))
unfolding fresh
take-fill_if true size vocab p = take-add_fill size vocab 0 p 0
take-fill_if false size vocab p = rw append-nil

take-add_corpus :
    (fill : Bool) (size vocab : ℕ) (ranked : List ℕ) (p : Picked) (added : ℕ)
    → take size (fill_if fill size vocab (add_corpus size ranked p added).0).0.chosen
      ≡ take size (p.chosen ++ fresh p.seen (ranked ++ fill_ids fill vocab))
unfolding add_corpus fresh
take-add_corpus fill size vocab [] p added = take-fill_if fill size vocab p
take-add_corpus fill size vocab (tid ∷ rest) p added = elim (Bool-cases (mem_nat tid p.seen)) [
  | inl f ↦ simp f (take-add_corpus fill size vocab rest p added)
  | inr f ↦ elim (Bool-cases (leb size (length (p.chosen ++ tid ∷ [])))) [
    | inl e ↦
        simp (e, f)
          (take-fill_if fill size vocab (pick tid p)
            ∙ take-append_long size (p.chosen ++ tid ∷ []) _
                (fresh (tid ∷ p.seen) (rest ++ fill_ids fill vocab)) (leb→le _ _ e)
            ∙ simp append_assoc)
    | inr e ↦
        simp (e, f)
          (take-add_corpus fill size vocab rest (pick tid p) (added + 1) ∙ simp append_assoc)
  ]
]

-- All candidates in the order of their rank: the specials, the ids of the corpus by descending
-- counts, and the vocabulary in order if it fills.
abbrev pub candidates : List ℕ → Counter → ℕ → Bool → List ℕ
candidates special counts vocab fill =
    in_vocab vocab special ++ (in_vocab vocab (most_common counts) ++ fill_ids fill vocab)

-- The chosen ids are the first `size` distinct candidates: the specials that lie in the vocabulary,
-- then its corpus ids by descending counts, then, if the map is filled, the vocabulary in order.
pub rank_ids-eq-stream :
    (special : List ℕ) (counts : Counter) (vocab size : ℕ) (fill : Bool)
    → (rank_ids special counts vocab size fill).0
      ≡ take size (fresh [] (candidates special counts vocab fill))
unfolding rank_ids
rank_ids-eq-stream special counts vocab size fill =
    rw (add_specials-chosen vocab special (record { chosen = []; seen = [] })) (
      take-add_corpus fill size vocab (in_vocab vocab (most_common counts)) _ 0
      ∙ ap (take size) (sym (fresh-append [] (in_vocab vocab special) _)))
