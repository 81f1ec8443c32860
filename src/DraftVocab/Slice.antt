-- ===== src/DraftVocab/Slice.antt =====
-- scripts/slice_draft_vocab.py: a smaller map as a prefix of a ranked one, and its report.
use qwen38_flash_next_sglang.Prelude.{
  ℕ, zero, suc, ◌-◌, ◌≤◌, ◌<◌, ◌≡◌, refl, ap, sym, ◌∙◌, true, false, ◌||◌, not, Option, none, some,
  List, [], arith, leb, ltb, ◌==◌, length, take, take-take, length-take, inl, inr, min,
  if◌then◌else◌,
}
use qwen38_flash_next_sglang.Prelude.Int.{ℤ, sub_ℕ}
use qwen38_flash_next_sglang.DraftVocab.Counts.{Counter, most_common}
use qwen38_flash_next_sglang.DraftVocab.{
  Picked, Report, add_specials, add_corpus, add_fill, in_vocab, rank_ids,
}
use qwen38_flash_next_sglang.DraftVocab.Sizes.{add_corpus_two_sizes, add_fill_count}
use qwen38_flash_next_sglang.DraftVocab.Stream.{fresh, rank_ids-eq-stream}
use qwen38_flash_next_sglang.DraftVocab.Bounds.{length-rank_ids_fill, rank_ids-IsMap}
use qwen38_flash_next_sglang.DraftVocab.Members.{fresh_of_Distinct}

-- A tensor of ids: its number of dimensions and its entries.
pub record IdTensor : Type 0 where
  pub dim : ℕ
  pub ids : List ℕ

-- What the report beside the source map says, `none` for a missing key.
pub record Base : Type 0 where
  pub corpus_end : Option ℕ
  pub n_special : Option ℕ

pub record SliceReport : Type 0 where
  pub requested_size : ℕ
  pub n_final : ℕ
  pub n_special : Option ℕ
  pub n_corpus_ranked : Option ℤ
  pub n_fill : Option ℕ
  pub unique : ℕ

-- A count that is missing or 0 is false in the source's conditional expressions.
abbrev pub truthy : Option ℕ → Option ℕ
truthy none = none
truthy (some zero) = none
truthy (some (suc n)) = some (suc n)

abbrev pub or_zero : Option ℕ → ℕ
or_zero none = 0
or_zero (some n) = n

abbrev pub corpus_ranked : ℕ → Base → Option ℤ
corpus_ranked n b = elim (truthy b.corpus_end) [
  | none ↦ none
  | some e ↦ some (sub_ℕ (min n e) (or_zero b.n_special))
]

abbrev pub sliced_fill : ℕ → Base → Option ℕ
sliced_fill n b = elim (truthy b.corpus_end) [ none ↦ none | some e ↦ some (n - e) ]

-- The map and its report, or `none` for the `SystemExit`.
unfoldable pub slice : IdTensor → ℕ → Base → Option (List ℕ × SliceReport)
unfolding fresh
slice ranked n b =
    if not (ranked.dim == 1) || leb n 0 || ltb (length ranked.ids) n
    then none
    else let out = take n ranked.ids in
      some (
        out,
        record {
          requested_size = n;
          n_final = length out;
          n_special = b.n_special;
          n_corpus_ranked = corpus_ranked n b;
          n_fill = sliced_fill n b;
          unique = length (fresh [] out);
        },
      )

-- What `build_draft_vocab.py` saves: the tensor, and the keys that `slice` reads of its report.
abbrev pub saved : List ℕ × Report → IdTensor
saved r = record { dim = 1; ids = r.0 }

abbrev pub base_of : Report → Base
base_of r = record { corpus_end = some r.n_after_specials_and_corpus; n_special = some r.n_special }

leb_ff : (a b : ℕ) → b < a → leb a b ≡ false
leb_ff a b h = ground arith

ltb_ff : (a b : ℕ) → b ≤ a → ltb a b ≡ false
ltb_ff a b h = ground arith

module _ (special : List ℕ) (counts : Counter) (vocab n m : ℕ) (n_le_m : n ≤ m) where
  abbrev specials_of : Picked
  specials_of = add_specials vocab special (record { chosen = []; seen = [] })

  abbrev corpus_at : ℕ → Picked × ℕ
  corpus_at size = add_corpus size (in_vocab vocab (most_common counts)) specials_of 0

  n_fill_of_build :
      n ≤ vocab
      → (rank_ids special counts vocab n true).1.n_fill ≡ n - length (corpus_at n).0.chosen
  unfolding rank_ids
  n_fill_of_build fits = add_fill_count n vocab 0 (corpus_at n).0 (
      omega (
        arith,
        length-rank_ids_fill special counts vocab n fits,
        length-take n (add_fill n vocab 0 (corpus_at n).0 0).0.chosen,
      ))

  corpus_end_of_build :
      (rank_ids special counts vocab m true).1.n_after_specials_and_corpus
      ≡ length (corpus_at m).0.chosen
  unfolding rank_ids
  corpus_end_of_build = refl

  same_missing : n - length (corpus_at n).0.chosen ≡ n - length (corpus_at m).0.chosen
  same_missing =
      elim (add_corpus_two_sizes n m (in_vocab vocab (most_common counts)) specials_of 0 n_le_m) [
        | inl e ↦ ap (λ (c : Picked × ℕ). n - length c.0.chosen) e
        | inr h ↦ omega (arith, h.0, h.1)
      ]

  sliced_fill_pos :
      (e : ℕ) (k : Option ℕ)
      → 0 < e
      → sliced_fill n (record { corpus_end = some e; n_special = k }) ≡ some (n - e)
  sliced_fill_pos zero k h = absurd (omega arith)
  sliced_fill_pos (suc e) k h = refl

  prefix-rank_ids :
      take n (rank_ids special counts vocab m true).0 ≡ (rank_ids special counts vocab n true).0
  prefix-rank_ids = simp rank_ids-eq-stream (take-take n m _ n_le_m)

  -- The slice of a filled map built at the larger size is the map built at the smaller size, and
  -- the number of filled ids that its report gives is the one that a build at that size reports.
  pub slice-rank_ids :
      0 < n
      → m ≤ vocab
      → 0 < (rank_ids special counts vocab m true).1.n_after_specials_and_corpus
      → (r : SliceReport) × (slice
            (saved (rank_ids special counts vocab m true))
            n
            (base_of (rank_ids special counts vocab m true).1)
          ≡ some ((rank_ids special counts vocab n true).0, r))
        × (r.n_fill ≡ some (rank_ids special counts vocab n true).1.n_fill)
        × (r.n_final ≡ n)
        × (r.unique ≡ n)
  unfolding slice
  slice-rank_ids pos fits corpus =
      let big = rank_ids special counts vocab m true in
      let small = rank_ids special counts vocab n true in
      let full : length small.0 ≡ n = length-rank_ids_fill special counts vocab n (omega arith) in
      (
        record {
          requested_size = n;
          n_final = length small.0;
          n_special = some big.1.n_special;
          n_corpus_ranked = corpus_ranked n (base_of big.1);
          n_fill = sliced_fill n (base_of big.1);
          unique = length (fresh [] small.0);
        },
        rw prefix-rank_ids (
            rw (
              leb_ff n 0 pos,
              ltb_ff (length big.0) n
                  (omega (arith, length-rank_ids_fill special counts vocab m fits)),
            )),
        sliced_fill_pos big.1.n_after_specials_and_corpus (some big.1.n_special) corpus
            ∙ ap some (
                ap (◌-◌ n) corpus_end_of_build
                ∙ sym same_missing
                ∙ sym (n_fill_of_build (omega arith))),
        full,
        ap length (fresh_of_Distinct small.0 (rank_ids-IsMap special counts vocab n true).0) ∙ full,
      )
