-- ===== src/DraftVocab.antt =====
-- scripts/build_draft_vocab.py: the ranking of token ids for the reduced draft vocabulary, its
-- report, and the coverage of held-out text. Token ids are natural numbers, as a tokenizer and
-- `special_ids` give them.
pub mod Counts
pub mod Stream
pub mod Members
pub mod Bounds
pub mod Sizes
pub mod Slice
pub mod Frequency
pub mod Coverage
mod Tests
use qwen38_flash_next_sglang.Prelude.{
  ℕ, zero, suc, ◌+◌, ◌-◌, Bool, true, false, not, ◌&&◌, List, [], ◌∷◌, ◌++◌, map, ltb, leb, length,
  take, mem_nat, if◌then◌else◌,
}
use qwen38_flash_next_sglang.DraftVocab.Counts.{Counter, most_common}

-- `chosen` and the set `seen` of the loops.
pub record Picked : Type 0 where
  pub chosen : List ℕ
  pub seen : List ℕ

abbrev pub pick : ℕ → Picked → Picked
pick tid p = record { chosen = p.chosen ++ tid ∷ []; seen = tid ∷ p.seen }

-- `for tid in special`
pub add_specials : ℕ → List ℕ → Picked → Picked
add_specials vocab [] p = p
add_specials vocab (tid ∷ rest) p =
    add_specials vocab rest (if ltb tid vocab && not (mem_nat tid p.seen) then pick tid p else p)

-- `ranked`
pub in_vocab : ℕ → List ℕ → List ℕ
in_vocab vocab [] = []
in_vocab vocab (tid ∷ rest) =
    let kept = in_vocab vocab rest in if ltb tid vocab then tid ∷ kept else kept

-- `for tid in ranked`, with the number of ids that it adds; it stops once there are `size` ids.
pub add_corpus : ℕ → List ℕ → Picked → ℕ → Picked × ℕ
add_corpus size [] p added = (p, added)
add_corpus size (tid ∷ rest) p added =
    let skip = add_corpus size rest p added in
    let more = add_corpus size rest (pick tid p) (added + 1) in
    if mem_nat tid p.seen
    then skip
    else if leb size (length (pick tid p).chosen)
    then (pick tid p, added + 1)
    else more

-- `for tid in range(vocab_size)`, with the number of ids that it adds. `k` ids are left, from `tid`.
pub add_fill : ℕ → ℕ → ℕ → Picked → ℕ → Picked × ℕ
add_fill size zero tid p added = (p, added)
add_fill size (suc k) tid p added =
    let skip = add_fill size k (tid + 1) p added in
    let more = add_fill size k (tid + 1) (pick tid p) (added + 1) in
    if leb size (length p.chosen) then (p, added) else if mem_nat tid p.seen then skip else more

pub record Report : Type 0 where
  pub requested_size : ℕ
  pub vocab_size : ℕ
  pub n_special : ℕ
  pub n_after_specials_and_corpus : ℕ
  pub n_corpus_rank_added : ℕ
  pub n_fill : ℕ
  pub n_final : ℕ
  pub filled_to_size : Bool

abbrev pub fill_if : Bool → ℕ → ℕ → Picked → Picked × ℕ
fill_if true size vocab p = add_fill size vocab 0 p 0
fill_if false size vocab p = (p, 0)

unfoldable pub rank_ids : List ℕ → Counter → ℕ → ℕ → Bool → List ℕ × Report
unfolding add_specials add_corpus add_fill in_vocab most_common
rank_ids special counts vocab size fill =
    let start : Picked = record { chosen = []; seen = [] } in
    let specials = add_specials vocab special start in
    let corpus = add_corpus size (in_vocab vocab (most_common counts)) specials 0 in
    let filled = fill_if fill size vocab corpus.0 in
    let chosen = take size filled.0.chosen in
    (
      chosen,
      record {
        requested_size = size;
        vocab_size = vocab;
        n_special = length special;
        n_after_specials_and_corpus = length corpus.0.chosen;
        n_corpus_rank_added = corpus.1;
        n_fill = filled.1;
        n_final = length chosen;
        filled_to_size = fill && ltb 0 filled.1;
      },
    )
