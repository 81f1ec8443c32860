-- ===== src/DraftVocab/Coverage.antt =====
-- `coverage`: how many tokens of held-out texts a map covers, and which ones it misses.
use qwen38_flash_next_sglang.Prelude.{
  ℕ, ◌+◌, ◌≡◌, refl, List, [], ◌∷◌, arith, if◌then◌else◌, Text, mem_nat, length, Bool-cases, inl,
  inr,
}
use qwen38_flash_next_sglang.DraftVocab.Counts.{Counter, add_one}

pub record Tally : Type 0 where
  pub tokens : ℕ
  pub in_map : ℕ
  pub missing : Counter

-- `for tid in ids`
pub tally_ids : List ℕ → List ℕ → Tally → Tally
tally_ids chosen [] t = t
tally_ids chosen (tid ∷ ids) t = tally_ids chosen ids (
    if mem_nat tid chosen
    then record t { in_map = t.in_map + 1 }
    else record t { missing = add_one tid t.missing })

-- The counts behind the report's `coverage`, which is `in_map / tokens`, and 0 where there is no
-- token. A text is `read_text(path)`, which is empty for a file that cannot be read.
unfoldable pub coverage : (Text → List ℕ) → List Text → List ℕ → Tally → Tally
unfolding tally_ids
coverage encode [] chosen t = t
coverage encode ([] ∷ rest) chosen t = coverage encode rest chosen t
coverage encode ((c ∷ text) ∷ rest) chosen t =
    let ids = encode (c ∷ text) in
    coverage encode rest chosen (tally_ids chosen ids (record t { tokens = t.tokens + length ids }))

abbrev pub no_tally : Tally
no_tally = record { tokens = 0; in_map = 0; missing = [] }

pub sum_counts : Counter → ℕ
sum_counts [] = 0
sum_counts ((j, n) ∷ c) = n + sum_counts c

sum_counts-add_one : (tid : ℕ) (c : Counter) → sum_counts (add_one tid c) ≡ sum_counts c + 1
unfolding sum_counts add_one
sum_counts-add_one tid [] = refl
sum_counts-add_one tid ((j, n) ∷ c) = ground (arith, sum_counts-add_one tid c)

-- How many ids of a list the map misses.
tally_ids_total :
    (chosen ids : List ℕ) (t : Tally)
    → (tally_ids chosen ids t).in_map + sum_counts (tally_ids chosen ids t).missing
      ≡ t.in_map + sum_counts t.missing + length ids
unfolding tally_ids
tally_ids_total chosen [] t = omega arith
tally_ids_total chosen (tid ∷ ids) t = elim (Bool-cases (mem_nat tid chosen)) [
  | inl e ↦ simp e (omega (arith, tally_ids_total chosen ids (record t { in_map = t.in_map + 1 })))
  | inr e ↦ simp e (
      omega (
        arith,
        tally_ids_total chosen ids (record t { missing = add_one tid t.missing }),
        sum_counts-add_one tid t.missing,
      ))
]

tally_ids_tokens : (chosen ids : List ℕ) (t : Tally) → (tally_ids chosen ids t).tokens ≡ t.tokens
unfolding tally_ids
tally_ids_tokens chosen [] t = refl
tally_ids_tokens chosen (tid ∷ ids) t = ground (
  arith,
  tally_ids_tokens chosen ids (record t { in_map = t.in_map + 1 }),
  tally_ids_tokens chosen ids (record t { missing = add_one tid t.missing }),
)

Balanced : Tally → Type 0
Balanced t = t.in_map + sum_counts t.missing ≡ t.tokens

coverage-Balanced :
    (encode : Text → List ℕ) (texts : List Text) (chosen : List ℕ) (t : Tally)
    → Balanced t
    → Balanced (coverage encode texts chosen t)
unfolding coverage Balanced
coverage-Balanced encode [] chosen t h = h
coverage-Balanced encode ([] ∷ rest) chosen t h = coverage-Balanced encode rest chosen t h
coverage-Balanced encode ((c ∷ text) ∷ rest) chosen t h =
    let ids = encode (c ∷ text) in
    let t' : Tally = record t { tokens = t.tokens + length ids } in
    coverage-Balanced encode rest chosen (tally_ids chosen ids t')
      (omega (arith, tally_ids_total chosen ids t', tally_ids_tokens chosen ids t'))

-- Every token of the texts is counted once, as covered or as missing.
pub coverage_total :
    (encode : Text → List ℕ) (texts : List Text) (chosen : List ℕ)
    → let t = coverage encode texts chosen no_tally in t.in_map + sum_counts t.missing ≡ t.tokens
unfolding Balanced sum_counts
coverage_total encode texts chosen = coverage-Balanced encode texts chosen no_tally refl
