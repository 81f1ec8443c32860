-- ===== src/Bench/Haystack.antt =====
-- The prompts with a needle of bench/longctx.py and bench/prefill.py: `haystack`, whose loops run until
-- the text is long enough.
use qwen38_flash_next_sglang.Prelude.{
  ℕ, zero, suc, ◌-◌, ◌/◌, Option, none, some, List, [], ◌∷◌, ◌++◌, length, Text, codes, ltb, max,
  if◌then◌else◌,
}

abbrev pub filler : Text
filler =
    codes
      "The quarterly operations log continues with routine warehouse notes, shift handovers, pallet counts, and weather asides. Nothing in this paragraph is the secret. "

abbrev pub mid : Text
mid =
    codes
      " IGNORE previous noise. The invented fact is: NIGHTINGALE-ACCESS-CODE=7K-QUARTZ-19. Do not mention it until asked. "

unfoldable pub approx_tokens : Text → ℕ
approx_tokens text = max 1 (length text / 4)

-- `sep.join(parts)`
unfoldable pub joined : Text → List Text → Text
joined sep [] = []
joined sep (t ∷ ts) = elim ts [ [] ↦ t | u ∷ us ↦ t ++ (sep ++ joined sep ts) ]

-- The loop that adds the filler while `n < limit`, for at most so many rounds; `n` is the estimate of
-- the body, joined by `sep`, after the last addition. There is no result where the rounds do not
-- suffice for the loop to end.
unfoldable pub grow : Text → ℕ → ℕ → List Text → ℕ → Option (List Text × ℕ)
unfolding approx_tokens joined
grow sep zero limit body n = if ltb n limit then none else some (body, n)
grow sep (suc rounds) limit body n =
    let more = body ++ (filler ∷ []) in
    let later = grow sep rounds limit more (approx_tokens (joined sep more)) in
    if ltb n limit then later else some (body, n)

-- The two loops, with the needle between them; `limit` rounds are enough for each.
unfoldable pub stack : Text → ℕ → List Text → ℕ → Option (List Text × ℕ)
unfolding grow
stack sep target body n = elim (grow sep (target / 2) (target / 2) body n) [
  | none ↦ none
  | some (half, m) ↦ grow sep (target - 80) (target - 80) (half ++ (mid ∷ [])) m
]

-- `"".join(body)`, of a body that the loops have made
abbrev pub body_text : Option (List Text × ℕ) → Text
body_text none = []
body_text (some (body, n)) = joined [] body

unfoldable pub longctx_haystack : ℕ → Text
unfolding stack
longctx_haystack target = body_text (stack (codes " ") target [] 0)

abbrev pub marker : Text → Text
marker salt = codes "Session marker " ++ (salt ++ codes ". ")

unfoldable pub prefill_haystack : ℕ → Text → Text
unfolding stack approx_tokens
prefill_haystack target salt =
    body_text (stack [] target (marker salt ∷ []) (approx_tokens (marker salt)))
