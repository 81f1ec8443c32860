-- ===== src/DraftVocab/Counts.antt =====
-- The `Counter` of token ids: pairs of an id and its count, in the order in which ids came first.
use qwen38_flash_next_sglang.Prelude.{ℕ, ◌+◌, List, [], ◌∷◌, map, ltb, ◌==◌, ◌||◌, if◌then◌else◌}

abbrev pub Counter : Type 0
Counter = List (ℕ × ℕ)

-- `counts[tid]`, 0 for an id that is not there
unfoldable pub count_of : ℕ → Counter → ℕ
count_of tid [] = 0
count_of tid ((j, n) ∷ rest) = if j == tid then n else count_of tid rest

unfoldable pub add_one : ℕ → Counter → Counter
add_one tid [] = (tid, 1) ∷ []
add_one tid ((j, n) ∷ rest) = if j == tid then (j, n + 1) ∷ rest else (j, n) ∷ add_one tid rest

-- `counts.update(ids)`
unfoldable pub update : List ℕ → Counter → Counter
unfolding add_one
update [] c = c
update (tid ∷ ids) c = update ids (add_one tid c)

-- A stable insertion, by descending counts: an entry goes before the first with a smaller count.
unfoldable pub place : ℕ × ℕ → Counter → Counter
place e [] = e ∷ []
place e (f ∷ rest) = if ltb f.1 e.1 || (f.1 == e.1) then e ∷ f ∷ rest else f ∷ place e rest

unfoldable pub by_count : Counter → Counter
unfolding place
by_count [] = []
by_count (e ∷ rest) = place e (by_count rest)

-- The ids of `counts.most_common()`, as the standard library documents it: by descending counts, and
-- in order of insertion among equals.
unfoldable pub most_common : Counter → List ℕ
unfolding by_count
most_common c = map (λ e. e.0) (by_count c)
