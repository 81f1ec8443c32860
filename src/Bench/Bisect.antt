-- ===== src/Bench/Bisect.antt =====
-- The prompt that the bisection of bench/prefill.py finds.
use qwen38_flash_next_sglang.Prelude.{
  ℕ, zero, suc, ◌+◌, ◌-◌, ◌*◌, ◌/◌, ◌≤◌, ◌<◌, ◌≡◌, sym, ap, ◌∙◌, inl, inr, ◌⊎◌, Option, some, Text,
  leb, Bool-cases, arith,
}
use mathlib.Core.Option.{some-injective}
use mathlib.Core.Path.{subst}
use qwen38_flash_next_sglang.Json.{Result, ok}
use qwen38_flash_next_sglang.Json.Steps.{bind_ok, ok-inj}
use qwen38_flash_next_sglang.Bench.Prompt.{is_close, next_range, bisect}

-- Half of a number, so many times
abbrev pub halved : ℕ → ℕ → ℕ
halved zero w = w
halved (suc r) w = halved r (w / 2)

halved_mono : (r v w : ℕ) → v ≤ w → halved r v ≤ halved r w
halved_mono zero v w h = h
halved_mono (suc r) v w h = halved_mono r (v / 2) (w / 2) (omega arith)

halved-14 : (w : ℕ) → halved 14 w ≡ w / 16384
halved-14 w = omega arith

module _ (count : Text → Result ℕ) (make : ℕ → Text) (budget : ℕ) where
  -- The text of so many characters fits the budget, or has been seen not to.
  pub record Fits (chars : ℕ) : Type 0 where
    pub tokens : ℕ
    pub counted : count (make chars) ≡ ok tokens
    pub within : tokens ≤ budget

  pub record Exceeds (chars : ℕ) : Type 0 where
    pub tokens : ℕ
    pub counted : count (make chars) ≡ ok tokens
    pub above : budget < tokens

  pub record Close (chars : ℕ) : Type 0 where
    pub tokens : ℕ
    pub counted : count (make chars) ≡ ok tokens
    pub near : 98 * budget ≤ 100 * tokens

  -- A text that fits, and is close to the budget or at most `gap` characters shorter than one that
  -- does not fit or is longer than all.
  pub record Found (top gap : ℕ) (content : Text) : Type 0 where
    pub chars : ℕ
    pub made : content ≡ make chars
    pub fits : Fits chars
    pub tight :
        Close chars
        ⊎ ((over : ℕ) × (over ≤ chars + gap) × (chars < over) × ((over ≡ suc top) ⊎ Exceeds over))

  -- The text just below the range fits, if a text was found, and the one just above does not, or there
  -- is none; a range with no text left is one that a text which does not fit closed.
  pub record Range (top lo hi : ℕ) (best : Option Text) : Type 0 where
    pub over : (hi ≡ top) ⊎ Exceeds (suc hi)
    pub fitting : (content : Text) → best ≡ some content → (content ≡ make (lo - 1)) × Fits (lo - 1)
    pub ordered : (lo ≤ suc hi) ⊎ ((lo ≡ suc (suc hi)) × Exceeds (suc hi))
    pub positive : 2 ≤ lo

  Fits-not-Exceeds : (chars other : ℕ) → chars ≡ other → Fits chars → Exceeds other → ⊥
  Fits-not-Exceeds chars other e f x =
      let same = ok-inj (sym f.counted ∙ (ap (λ c. count (make c)) e ∙ x.counted)) in
      omega (arith, same, f.within, x.above)

  Range-ordered :
      {top lo hi : ℕ} {best : Option Text} {content : Text}
      → Range top lo hi best
      → best ≡ some content
      → lo ≤ suc hi
  Range-ordered {top} {lo} {hi} {best} {content} r e = elim r.ordered [
    | inl h ↦ h
    | inr (same, x) ↦
        absurd (Fits-not-Exceeds (lo - 1) (suc hi) (omega (arith, same)) (r.fitting content e).1 x)
  ]

  Found-mono :
      {top gap wider : ℕ} {content : Text}
      → gap ≤ wider
      → Found top gap content
      → Found top wider content
  Found-mono h f = record {
    chars = f.chars;
    made = f.made;
    fits = f.fits;
    tight = elim f.tight [
      | inl c ↦ inl c
      | inr (over, near, longer, bound) ↦ inr (over, omega (arith, h, near), longer, bound)
    ];
  }

  -- The three ways on from a count
  next_range_cases :
      (tokens mid : ℕ) (content found : Text) (longer : Option Text → Result (Option Text))
      (shorter : Result (Option Text))
      → next_range count budget tokens content mid longer shorter ≡ ok (some found)
      → ((tokens ≤ budget) × (98 * budget ≤ 100 * tokens) × (content ≡ found))
        ⊎ (((tokens ≤ budget) × (longer (some content) ≡ ok (some found)))
            ⊎ ((budget < tokens) × (shorter ≡ ok (some found))))
  next_range_cases tokens mid content found longer shorter = elim (Bool-cases (leb tokens budget)) [
    | inl p ↦ elim (Bool-cases (is_close budget tokens)) [
      | inl q ↦
          rw p
            (rw q (λ h. inl (ground arith, ground arith, some-injective content found (ok-inj h))))
      | inr q ↦ rw p (rw q (λ h. inr (inl (ground arith, h))))
    ]
    | inr p ↦ rw p (λ h. inr (inr (ground arith, h)))
  ]

  -- A text that fits moves the lower end, one that does not the upper end.
  Range-up :
      {top lo hi : ℕ} {best : Option Text} (tokens : ℕ)
      → count (make ((lo + hi) / 2)) ≡ ok tokens
      → tokens ≤ budget
      → Range top lo hi best
      → Range top ((lo + hi) / 2 + 1) hi (some (make ((lo + hi) / 2)))
  Range-up {top} {lo} {hi} {best} tokens counted within r =
      let fits : Fits ((lo + hi) / 2) = record {
        tokens = tokens;
        counted = counted;
        within = within;
      } in
      let same : (lo + hi) / 2 ≡ (lo + hi) / 2 + 1 - 1 = omega arith in
      let low : lo ≤ suc (suc hi) = elim r.ordered [
        | inl h ↦ omega (arith, h)
        | inr h ↦ omega (arith, h.0)
      ] in
      record {
        over = r.over;
        fitting =
            λ content e. (sym (some-injective _ content e) ∙ ap make same, subst Fits same fits);
        ordered = elim r.ordered [
          | inl h ↦ inl (omega (arith, h))
          | inr (e, x) ↦
              absurd (Fits-not-Exceeds ((lo + hi) / 2) (suc hi) (omega (arith, e)) fits x)
        ];
        positive = omega (arith, r.positive, low);
      }

  Range-down :
      {top lo hi : ℕ} {best : Option Text} (tokens : ℕ)
      → count (make ((lo + hi) / 2)) ≡ ok tokens
      → budget < tokens
      → Range top lo hi best
      → Range top lo ((lo + hi) / 2 - 1) best
  Range-down {top} {lo} {hi} {best} tokens counted above r =
      let low : lo ≤ suc (suc hi) = elim r.ordered [
        | inl h ↦ omega (arith, h)
        | inr h ↦ omega (arith, h.0)
      ] in
      let same : (lo + hi) / 2 ≡ suc ((lo + hi) / 2 - 1) = omega (arith, low, r.positive) in
      let exceeds : Exceeds (suc ((lo + hi) / 2 - 1)) =
        subst Exceeds same (record { tokens = tokens; counted = counted; above = above }) in
      record {
        over = inr exceeds;
        fitting = r.fitting;
        ordered = elim (Bool-cases (leb lo ((lo + hi) / 2))) [
          | inl p ↦ inl (ground arith)
          | inr p ↦ inr (ground arith, exceeds)
        ];
        positive = r.positive;
      }

  pub bisect-Found :
      (top rounds lo hi : ℕ) (best : Option Text) (content : Text)
      → Range top lo hi best
      → bisect count make budget rounds lo hi best ≡ ok (some content)
      → Found top (halved rounds (suc hi - lo) + 1) content
  unfolding bisect
  bisect-Found top zero lo hi best content r h =
      let (made, fits) = r.fitting content (ok-inj h) in
      let low = Range-ordered r (ok-inj h) in
      record {
        chars = lo - 1;
        made = made;
        fits = fits;
        tight = inr (
          suc hi,
          omega (arith, low, r.positive),
          omega (arith, low, r.positive),
          elim r.over [ inl e ↦ inl (ap suc e) | inr x ↦ inr x ],
        );
      }
  bisect-Found top (suc rounds) lo hi best content r h =
      let (tokens, counted, h1) = bind_ok (count (make ((lo + hi) / 2))) _ h in
      let half : (v : ℕ)
          → v ≤ (suc hi - lo) / 2
          → halved rounds v + 1 ≤ halved rounds ((suc hi - lo) / 2) + 1 =
        λ v e. omega (arith, halved_mono rounds v ((suc hi - lo) / 2) e) in
      elim (next_range_cases tokens ((lo + hi) / 2) (make ((lo + hi) / 2)) content
        (bisect count make budget rounds ((lo + hi) / 2 + 1) hi)
        (bisect count make budget rounds lo ((lo + hi) / 2 - 1) best) h1) [
          | inl (within, near, same) ↦ record {
            chars = (lo + hi) / 2;
            made = sym same;
            fits = record { tokens = tokens; counted = counted; within = within };
            tight = inl (record { tokens = tokens; counted = counted; near = near });
          }
          | inr (inl (within, later)) ↦
              Found-mono (half (suc hi - ((lo + hi) / 2 + 1)) (omega arith)) (
                bisect-Found top rounds ((lo + hi) / 2 + 1) hi _ content
                  (Range-up tokens counted within r) later)
          | inr (inr (above, later)) ↦
              Found-mono (half (suc ((lo + hi) / 2 - 1) - lo) (omega (arith, r.positive))) (
                bisect-Found top rounds lo ((lo + hi) / 2 - 1) best content
                  (Range-down tokens counted above r) later)
        ]
