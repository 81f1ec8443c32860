-- ===== src/Bench/Prompt.antt =====
-- `next_docs` and `real_prompt` of bench/prefill.py: a prompt of real documents, sized by bisection on
-- the number of their characters.
use qwen38_flash_next_sglang.Prelude.{
  ℕ, zero, suc, ◌+◌, ◌-◌, ◌*◌, ◌/◌, Bool, Option, none, some, List, [], ◌∷◌, ◌++◌, length, take,
  Text, codes, leb, ltb, min, if◌then◌else◌,
}
use qwen38_flash_next_sglang.Json.{Result, ok, err, runtime_error, ◌>>=◌}
use qwen38_flash_next_sglang.Bench.Haystack.{joined}

abbrev pub parts_or_end :
    Bool → Result (List Text × List Text) → List Text → Result (List Text × List Text)
parts_or_end go rest docs = if go then rest else ok ([], docs)

-- The parts, from `_DOCS` with the next one to pop first, and what is left of it; `n` characters have
-- been drawn.
unfoldable pub draw : ℕ → ℕ → List Text → Result (List Text × List Text)
draw chars n [] = if ltb n chars then err runtime_error else ok ([], [])
draw chars n (doc ∷ docs) =
    let part = take (chars - n) doc in
    let rest = draw chars (n + length part) docs in
    if ltb n chars then rest >>= (λ r. ok (part ∷ r.0, r.1)) else ok ([], doc ∷ docs)

-- `_DOCS`, which is loaded if it is empty
abbrev pub docs_or : List Text → List Text → List Text
docs_or loaded [] = loaded
docs_or loaded (doc ∷ docs) = doc ∷ docs

-- `loaded` are the documents as they are shuffled, the next one to pop first.
unfoldable pub next_docs : List Text → ℕ → List Text → Result (Text × List Text)
unfolding draw joined
next_docs loaded chars docs = do
  r ← draw chars 0 (docs_or loaded docs)
  ok (joined (codes "\n\n") r.0, r.1)

abbrev pub question : Text
question = codes "\n\nQuestion: What is the NIGHTINGALE access code? Reply with the code only."

abbrev pub fact : Text
fact =
    codes
      "\n\nThe invented fact is: NIGHTINGALE-ACCESS-CODE=7K-QUARTZ-19. Do not mention it until asked.\n\n"

unfoldable pub build : Text → Text → Text → ℕ → Text
build salt first second chars =
    (codes "Session marker " ++ (salt ++ codes ".\n\n"))
    ++ (take (chars / 2) first ++ (fact ++ (take (chars - chars / 2) second ++ question)))

-- `tokens >= 0.98 * budget`
abbrev pub is_close : ℕ → ℕ → Bool
is_close budget tokens = leb (98 * budget) (100 * tokens)

-- `count text` is the number of tokens that the server gives for a text.
module _ (count : Text → Result ℕ) where
  abbrev pub next_range :
      ℕ
      → ℕ
      → Text
      → ℕ
      → (Option Text → Result (Option Text))
      → Result (Option Text)
      → Result (Option Text)
  next_range budget tokens content mid longer shorter =
      if leb tokens budget
      then (if is_close budget tokens then ok (some content) else longer (some content))
      else shorter

  -- The loop over the rounds that are left.
  unfoldable pub bisect : (ℕ → Text) → ℕ → ℕ → ℕ → ℕ → Option Text → Result (Option Text)
  bisect make budget zero lo hi best = ok best
  bisect make budget (suc rounds) lo hi best =
      let mid = (lo + hi) / 2 in
      count (make mid) >>= (λ tokens.
        next_range budget tokens (make mid) mid (bisect make budget rounds (mid + 1) hi)
          (bisect make budget rounds lo (mid - 1) best))

  abbrev pub or_raise : Option Text → List Text → Result (Text × List Text)
  or_raise none docs = err runtime_error
  or_raise (some content) docs = ok (content, docs)

module _ (count : Text → Result ℕ) (loaded : List Text) where
  -- The prompt, and the documents that are left
  unfoldable pub real_prompt : ℕ → Text → List Text → Result (Text × List Text)
  unfolding next_docs build bisect
  real_prompt target salt docs = do
    first ← next_docs loaded ((target - 120) * 3) docs
    second ← next_docs loaded ((target - 120) * 3) first.1
    best ←
        bisect count (build salt first.0 second.0) (target - 120) 14 1000
          (min (length first.0) (length second.0) * 2) none
    or_raise count best second.1
