-- ===== src/DraftVocab/Tests.antt =====
-- Maps at small sizes, after tests/test_draft_vocab.py, and the theorems at concrete counts.
use qwen38_flash_next_sglang.Prelude.{
  ℕ, ◌≡◌, refl, true, false, some, List, [], ◌∷◌, arith, Text, take,
}
use qwen38_flash_next_sglang.DraftVocab.Counts.{Counter}
use qwen38_flash_next_sglang.DraftVocab.{rank_ids}
use qwen38_flash_next_sglang.DraftVocab.Stream.{fresh, candidates, rank_ids-eq-stream}
use qwen38_flash_next_sglang.DraftVocab.Members.{Distinct, AllBelow}
use qwen38_flash_next_sglang.DraftVocab.Bounds.{rank_ids-IsMap}
use qwen38_flash_next_sglang.DraftVocab.Slice.{SliceReport, slice, saved, base_of, slice-rank_ids}

abbrev counts : Counter
counts = (7, 9) ∷ (3, 5) ∷ (1, 4) ∷ (99, 1) ∷ []

abbrev special : List ℕ
special = 3 ∷ 8 ∷ 3 ∷ []

specials_first : (rank_ids special counts 20 8 true).0 ≡ 3 ∷ 8 ∷ 7 ∷ 1 ∷ 0 ∷ 2 ∷ 4 ∷ 5 ∷ []
unfolding rank_ids
specials_first = refl

no_fill : (rank_ids (0 ∷ []) ((1, 2) ∷ (2, 1) ∷ []) 50 64 false).0 ≡ 0 ∷ 1 ∷ 2 ∷ []
unfolding rank_ids
no_fill = refl

corpus_end : (rank_ids special counts 20 8 true).1.n_after_specials_and_corpus ≡ 4
unfolding rank_ids
corpus_end = refl

rank_ids-eq-stream_example :
    (rank_ids special counts 20 8 true).0 ≡ take 8 (fresh [] (candidates special counts 20 true))
rank_ids-eq-stream_example = rank_ids-eq-stream special counts 20 8 true

rank_ids-IsMap_example :
    Distinct (rank_ids special counts 20 8 true).0
    × AllBelow 20 (rank_ids special counts 20 8 true).0
rank_ids-IsMap_example = rank_ids-IsMap special counts 20 8 true

slice-rank_ids_example :
    (r : SliceReport) × (slice
        (saved (rank_ids special counts 20 8 true))
        5
        (base_of (rank_ids special counts 20 8 true).1)
      ≡ some ((rank_ids special counts 20 5 true).0, r))
    × (r.n_fill ≡ some (rank_ids special counts 20 5 true).1.n_fill)
    × (r.n_final ≡ 5)
    × (r.unique ≡ 5)
slice-rank_ids_example =
    slice-rank_ids special counts 20 5 8 (omega arith) (omega arith) (omega arith)
      (omega (arith, corpus_end))

abbrev as_bytes : Text → List ℕ
as_bytes text = text
