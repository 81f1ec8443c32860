-- ===== src/Bench/Grown.antt =====
-- The loops of `haystack` end; where the fact stands in the text, and how long the text is.
use qwen38_flash_next_sglang.Prelude.{
  ℕ, zero, suc, ◌+◌, ◌-◌, ◌/◌, ◌≤◌, ◌<◌, ◌≡◌, refl, sym, ap, ◌∙◌, inl, inr, true, false, Option,
  some, List, [], ◌∷◌, ◌++◌, append_assoc, append-nil, length, length-append, Text, codes, ltb,
  Bool-cases, arith, has_sub,
}
use mathlib.Core.Path.{subst}
use qwen38_flash_next_sglang.Prelude.Subs.{has_sub-append, has_sub-prepend}
use qwen38_flash_next_sglang.Bench.Haystack.{
  filler, mid, approx_tokens, joined, grow, stack, body_text, marker, prefill_haystack,
}

joined-append :
    (sep : Text) (ts : List Text) (t : Text)
    → length (joined sep ts) + length t ≤ length (joined sep (ts ++ (t ∷ [])))
unfolding joined
joined-append sep [] t = omega arith
joined-append sep (u ∷ []) t = omega (arith, length-append u (sep ++ t), length-append sep t)
joined-append sep (u ∷ v ∷ ts) t = omega (
  arith,
  joined-append sep (v ∷ ts) t,
  length-append u (sep ++ joined sep (v ∷ ts)),
  length-append sep (joined sep (v ∷ ts)),
  length-append u (sep ++ joined sep (v ∷ (ts ++ (t ∷ [])))),
  length-append sep (joined sep (v ∷ (ts ++ (t ∷ [])))),
)

-- Each addition makes the estimate larger, by one token at least for the filler.
approx_tokens-adds :
    (sep : Text) (ts : List Text) (t : Text)
    → approx_tokens (joined sep ts) ≤ approx_tokens (joined sep (ts ++ (t ∷ [])))
unfolding approx_tokens
approx_tokens-adds sep ts t = omega (arith, joined-append sep ts t)

filler_long : 8 ≤ length filler
filler_long = omega arith

filler_grows :
    (sep : Text) (ts : List Text)
    → approx_tokens (joined sep ts) < approx_tokens (joined sep (ts ++ (filler ∷ [])))
unfolding approx_tokens
filler_grows sep ts = omega (arith, joined-append sep ts filler, filler_long)

-- So many copies of the filler.
abbrev pub copies : ℕ → List Text
copies zero = []
copies (suc k) = filler ∷ copies k

-- The loop ends, having added copies of the filler until the estimate, which is no more than that of
-- the body, is large enough.
record Filled (sep : Text) (limit : ℕ) (body : List Text) (result : Option (List Text × ℕ))
    : Type 0 where
  count : ℕ
  size : ℕ
  made : result ≡ some (body ++ copies count, size)
  reached : limit ≤ size
  estimated : size ≤ approx_tokens (joined sep (body ++ copies count))

one_filler :
    (sep : Text) (limit : ℕ) (body : List Text) (result : Option (List Text × ℕ))
    → Filled sep limit (body ++ (filler ∷ [])) result
    → Filled sep limit body result
one_filler sep limit body result e =
    let same = append_assoc body (filler ∷ []) (copies e.count) in
    record {
      count = suc e.count;
      size = e.size;
      made = e.made ∙ ap (λ l. some (l, e.size)) same;
      reached = e.reached;
      estimated = subst (λ l. e.size ≤ approx_tokens (joined sep l)) same e.estimated;
    }

long_enough :
    (sep : Text) (limit : ℕ) (body : List Text) (n : ℕ)
    → ltb n limit ≡ false
    → n ≤ approx_tokens (joined sep body)
    → Filled sep limit body (some (body, n))
long_enough sep limit body n p e = record {
  count = 0;
  size = n;
  made = ap (λ l. some (l, n)) (sym (append-nil body));
  reached = ground arith;
  estimated = subst (λ l. n ≤ approx_tokens (joined sep l)) (sym (append-nil body)) e;
}

grow-Filled :
    (sep : Text) (rounds limit : ℕ) (body : List Text) (n : ℕ)
    → limit ≤ n + rounds
    → n ≤ approx_tokens (joined sep body)
    → Filled sep limit body (grow sep rounds limit body n)
unfolding grow
grow-Filled sep zero limit body n h e = elim (Bool-cases (ltb n limit)) [
  | inl p ↦ absurd (ground arith)
  | inr p ↦ rw p (long_enough sep limit body n p e)
]
grow-Filled sep (suc rounds) limit body n h e = elim (Bool-cases (ltb n limit)) [
  | inl p ↦ rw p (
      one_filler sep limit body _ (
        grow-Filled sep rounds limit (body ++ (filler ∷ [])) _
          (omega (arith, h, e, filler_grows sep body)) (omega arith)))
  | inr p ↦ rw p (long_enough sep limit body n p e)
]

-- The two loops, one after the other.
record Stacked (sep : Text) (target : ℕ) (body : List Text) (n : ℕ) : Type 0 where
  before : ℕ
  after : ℕ
  size : ℕ
  made :
      stack sep target body n ≡ some (((body ++ copies before) ++ (mid ∷ [])) ++ copies after, size)
  deep : target / 2 ≤ approx_tokens (joined sep (body ++ copies before))
  reached :
      target - 80
      ≤ approx_tokens (joined sep (((body ++ copies before) ++ (mid ∷ [])) ++ copies after))

stack-Stacked :
    (sep : Text) (target : ℕ) (body : List Text) (n : ℕ)
    → n ≤ approx_tokens (joined sep body)
    → Stacked sep target body n
unfolding stack
stack-Stacked sep target body n h =
    let half = grow-Filled sep (target / 2) (target / 2) body n (omega arith) h in
    let rest =
      grow-Filled sep (target - 80) (target - 80) ((body ++ copies half.count) ++ (mid ∷ []))
        half.size (omega arith)
        (omega (arith, half.estimated, approx_tokens-adds sep (body ++ copies half.count) mid)) in
    record {
      before = half.count;
      after = rest.count;
      size = rest.size;
      made = rw (stack, half.made) rest.made;
      deep = omega (arith, half.reached, half.estimated);
      reached = omega (arith, rest.reached, rest.estimated);
    }

joined-cons : (t : Text) (ts : List Text) → joined [] (t ∷ ts) ≡ t ++ joined [] ts
unfolding joined
joined-cons t [] = sym (append-nil t)
joined-cons t (u ∷ us) = refl

joined_parts : (ts us : List Text) → joined [] (ts ++ us) ≡ joined [] ts ++ joined [] us
unfolding joined
joined_parts [] us = refl
joined_parts (t ∷ ts) us =
    joined-cons t (ts ++ us)
    ∙ ap (λ l. t ++ l) (joined_parts ts us)
    ∙ sym (append_assoc t (joined [] ts) (joined [] us))
    ∙ ap (λ l. l ++ joined [] us) (sym (joined-cons t ts))

-- The text is the session's marker and fillers, then the fact, then fillers.
pub record Hidden (target : ℕ) (salt : Text) : Type 0 where
  pub before : ℕ
  pub after : ℕ
  pub size : ℕ
  -- the loops end
  pub ended :
      stack [] target (marker salt ∷ []) (approx_tokens (marker salt))
      ≡ some ((marker salt ∷ copies before) ++ (mid ∷ copies after), size)
  pub split :
      prefill_haystack target salt
      ≡ (marker salt ++ joined [] (copies before)) ++ (mid ++ joined [] (copies after))
  pub deep : target / 2 ≤ approx_tokens (marker salt ++ joined [] (copies before))
  pub large : target - 80 ≤ approx_tokens (prefill_haystack target salt)

-- The loops of `haystack` of bench/prefill.py end, and the prompt is the session's marker, copies of
-- the filler, the fact, and copies of the filler. What stands before the fact is estimated at no less
-- than half the target, and the whole at no less than 80 tokens under the target.
pub prefill_haystack-Hidden : (target : ℕ) (salt : Text) → Hidden target salt
unfolding prefill_haystack
prefill_haystack-Hidden target salt =
    let made =
      stack-Stacked [] target (marker salt ∷ []) (approx_tokens (marker salt)) (omega arith) in
    let list = append_assoc (marker salt ∷ copies made.before) (mid ∷ []) (copies made.after) in
    let text = ap body_text made.made in
    let start = joined-cons (marker salt) (copies made.before) in
    record {
      before = made.before;
      after = made.after;
      size = made.size;
      ended = made.made ∙ ap (λ l. some (l, made.size)) list;
      split =
          text
          ∙ ap (λ l. joined [] l) list
          ∙ joined_parts (marker salt ∷ copies made.before) (mid ∷ copies made.after)
          ∙ ap (λ l. l ++ joined [] (mid ∷ copies made.after)) start
          ∙ ap (λ l. (marker salt ++ joined [] (copies made.before)) ++ l)
              (joined-cons mid (copies made.after));
      deep = subst (λ l. target / 2 ≤ approx_tokens l) start made.deep;
      large = subst (λ l. target - 80 ≤ approx_tokens l) (sym text) made.reached;
    }

mid_has : has_sub (codes "7K-QUARTZ-19") mid ≡ true
mid_has = refl

pub prefill_haystack_has_code :
    (target : ℕ) (salt : Text)
    → has_sub (codes "7K-QUARTZ-19") (prefill_haystack target salt) ≡ true
prefill_haystack_has_code target salt =
    let h = prefill_haystack-Hidden target salt in
    subst (λ t. has_sub (codes "7K-QUARTZ-19") t ≡ true) (sym h.split)
      (has_sub-prepend (codes "7K-QUARTZ-19") (marker salt ++ joined [] (copies h.before))
        (mid ++ joined [] (copies h.after))
        (has_sub-append (codes "7K-QUARTZ-19") mid (joined [] (copies h.after)) mid_has))
