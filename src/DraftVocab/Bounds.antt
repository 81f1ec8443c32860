-- ===== src/DraftVocab/Bounds.antt =====
-- What every map that `rank_ids` returns satisfies: no repetitions, ids of the vocabulary, its size
-- and its report.
use qwen38_flash_next_sglang.Prelude.{
  ℕ, zero, suc, ◌+◌, ◌≤◌, ◌<◌, ◌≡◌, refl, ap, ◌∙◌, Bool, true, false, List, [], ◌∷◌, ◌++◌, arith,
  leb, length, length-take, length-append, mem_nat, Bool-cases, inl, inr, min,
}
use qwen38_flash_next_sglang.DraftVocab.Counts.{Counter, most_common}
use qwen38_flash_next_sglang.DraftVocab.{Picked, pick, add_fill, fill_if, in_vocab, rank_ids}
use qwen38_flash_next_sglang.DraftVocab.Stream.{fresh, fill_ids, candidates, rank_ids-eq-stream}
use qwen38_flash_next_sglang.DraftVocab.Members.{
  Distinct, AllBelow, mem_nat-append, mem_nat-fresh, fresh-Distinct, take-Distinct, take-AllBelow,
  append-AllBelow, fresh-AllBelow, in_vocab-AllBelow, range_from-AllBelow, mem_nat-range_from,
  length_of_all,
}

fill_ids-AllBelow : (fill : Bool) (vocab : ℕ) → AllBelow vocab (fill_ids fill vocab)
fill_ids-AllBelow true vocab = range_from-AllBelow vocab vocab 0 (omega arith)
fill_ids-AllBelow false vocab = tt

module _ (special : List ℕ) (counts : Counter) (vocab size : ℕ) where
  candidates-AllBelow : (fill : Bool) → AllBelow vocab (candidates special counts vocab fill)
  candidates-AllBelow fill =
      append-AllBelow vocab (in_vocab vocab special) _ (in_vocab-AllBelow vocab special) (
        append-AllBelow vocab (in_vocab vocab (most_common counts)) (fill_ids fill vocab)
          (in_vocab-AllBelow vocab (most_common counts)) (fill_ids-AllBelow fill vocab))

  -- The map has no id twice, and each of its ids lies in the vocabulary.
  pub rank_ids-IsMap :
      (fill : Bool)
      → Distinct (rank_ids special counts vocab size fill).0
        × AllBelow vocab (rank_ids special counts vocab size fill).0
  rank_ids-IsMap fill = rw rank_ids-eq-stream (
    take-Distinct size _ (fresh-Distinct [] _),
    take-AllBelow vocab size _ (fresh-AllBelow vocab [] _ (candidates-AllBelow fill)),
  )

  all_candidates :
      (v : ℕ) → v < vocab → mem_nat v (fresh [] (candidates special counts vocab true)) ≡ true
  all_candidates v h =
      mem_nat-fresh v [] _
      ∙ ground (
        arith,
        mem_nat-append v (in_vocab vocab special)
            (in_vocab vocab (most_common counts) ++ fill_ids true vocab),
        mem_nat-append v (in_vocab vocab (most_common counts)) (fill_ids true vocab),
        mem_nat-range_from v vocab 0 (omega arith) (omega arith),
      )

  -- A filled map has exactly the requested size, if the vocabulary is that large.
  pub length-rank_ids_fill :
      size ≤ vocab → length (rank_ids special counts vocab size true).0 ≡ size
  length-rank_ids_fill h = rw rank_ids-eq-stream (
      omega (
        arith,
        length-take size (fresh [] (candidates special counts vocab true)),
        length_of_all vocab (fresh [] (candidates special counts vocab true)) all_candidates,
      ))

pub length-add_fill :
    (size k tid : ℕ) (p : Picked) (added : ℕ)
    → length (add_fill size k tid p added).0.chosen + added
      ≡ length p.chosen + (add_fill size k tid p added).1
unfolding add_fill
length-add_fill size zero tid p added = refl
length-add_fill size (suc k) tid p added = elim (Bool-cases (leb size (length p.chosen))) [
  | inl e ↦ simp e
  | inr e ↦ elim (Bool-cases (mem_nat tid p.seen)) [
    | inl f ↦ simp (e, f) (length-add_fill size k (tid + 1) p added)
    | inr f ↦
        simp (e, f)
          (omega (
            arith,
            length-add_fill size k (tid + 1) (pick tid p) (added + 1),
            length-append p.chosen (tid ∷ []),
          ))
  ]
]

length-fill_if :
    (fill : Bool) (size vocab : ℕ) (p : Picked)
    → length (fill_if fill size vocab p).0.chosen ≡ length p.chosen + (fill_if fill size vocab p).1
length-fill_if true size vocab p = omega (arith, length-add_fill size vocab 0 p 0)
length-fill_if false size vocab p = omega arith

-- The report is about the map: `n_final` is the map's length, and it is the number of ids after the
-- specials and the corpus with the number of filled ones, cut at the requested size.
pub rank_ids_report :
    (special : List ℕ) (counts : Counter) (vocab size : ℕ) (fill : Bool)
    → let (ids, report) = rank_ids special counts vocab size fill in
      (report.n_final ≡ length ids)
      × (report.n_final ≡ min size (report.n_after_specials_and_corpus + report.n_fill))
unfolding rank_ids
rank_ids_report special counts vocab size fill =
    (refl, length-take size _ ∙ ap (min size) (length-fill_if fill size vocab _))
