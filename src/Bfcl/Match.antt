-- ===== src/Bfcl/Match.antt =====
-- `ast_match` of bench/bfcl.py against an assignment of the ground truths to the calls.
use qwen38_flash_next_sglang.Prelude.{
  ◌≡◌, refl, ◌∙◌, Bool, true, false, Option, none, some, List, [], ◌∷◌, length, Text, mem_text,
  ◌==◌, ==_iff, if◌then◌else◌, arith,
}
use qwen38_flash_next_sglang.Prelude.Int.{ℤ}
use qwen38_flash_next_sglang.Bfcl.{
  Call, Truth, Problem, fits, find_hit, match_all, ast_match, put_back,
}
use mathlib.Core.List.{Permᴰ}
use mathlib.Core.List.Permᴰ
use mathlib.Core.Option.{some-injective}
use mathlib.Core.Path.{subst}

perm_length : {A : Type 0} {xs ys : List A} → Permᴰ xs ys → length xs ≡ length ys
perm_length Permᴰ.nil = refl
perm_length (Permᴰ.cons e d) = omega (arith, perm_length d)
perm_length (Permᴰ.swap e e') = refl
perm_length (Permᴰ.trans d d') = perm_length d ∙ perm_length d'

if-none :
    (b : Bool) (x : Option Problem) (p : Problem)
    → (if b then x else some p) ≡ none
    → (b ≡ true) × (x ≡ none)
if-none true x p e = (refl, e)
if-none false x p e = cc

hit-none :
    (o : Option (Truth × List Truth)) (p : Problem) (k : Truth × List Truth → Option Problem)
    → elim o [ none ↦ some p | some r ↦ k r ] ≡ none
    → (r : Truth × List Truth) × (o ≡ some (r.0, r.1)) × (k r ≡ none)
hit-none none p k e = cc
hit-none (some r) p k e = (r, refl, e)

module _ (lower : Text → Text) (float_text : Text → Option ℤ) where
  -- Each call fits the ground truth at its place, and calls a tool of the case.
  pub data Assigned (names : List Text) : List Call → List Truth → Type 0 where
    unassigned : Assigned names [] []
    assign :
        {c : Call} {g : Truth} {cs : List Call} {gs : List Truth}
        → mem_text c.name names ≡ true
        → fits lower float_text c g ≡ true
        → Assigned names cs gs
        → Assigned names (c ∷ cs) (g ∷ gs)

  find_hit-Permᴰ :
      (c : Call) (gs : List Truth) (g : Truth) (rest : List Truth)
      → find_hit lower float_text c gs ≡ some (g, rest)
      → (fits lower float_text c g ≡ true) × Permᴰ (g ∷ rest) gs
  unfolding find_hit
  find_hit-Permᴰ c [] g rest e = cc
  find_hit-Permᴰ c (x ∷ xs) g rest e =
      first (find_hit-Permᴰ c xs) (fits lower float_text c x) refl e
    where
      behind :
          ((h : Truth) (tail : List Truth)
            → find_hit lower float_text c xs ≡ some (h, tail)
            → (fits lower float_text c h ≡ true) × Permᴰ (h ∷ tail) xs)
          → (later : Option (Truth × List Truth)) → find_hit lower float_text c xs ≡ later
          → put_back x later ≡ some (g, rest)
          → (fits lower float_text c g ≡ true) × Permᴰ (g ∷ rest) (x ∷ xs)
      behind _ none _ q = cc
      behind ind (some r) p q =
          let ih = ind r.0 r.1 p in
          let same_pair = some-injective (r.0, x ∷ r.1) (g, rest) q in
          subst (λ h. (fits lower float_text c h.0 ≡ true) × Permᴰ (h.0 ∷ h.1) (x ∷ xs)) same_pair
            (ih.0, Permᴰ.trans (Permᴰ.swap refl refl) (Permᴰ.cons refl ih.1))

      first :
          ((h : Truth) (tail : List Truth)
            → find_hit lower float_text c xs ≡ some (h, tail)
            → (fits lower float_text c h ≡ true) × Permᴰ (h ∷ tail) xs)
          → (b : Bool) → fits lower float_text c x ≡ b
          → (if b then some (x, xs) else put_back x (find_hit lower float_text c xs))
            ≡ some (g, rest)
          → (fits lower float_text c g ≡ true) × Permᴰ (g ∷ rest) (x ∷ xs)
      first ind true p q =
          subst (λ h. (fits lower float_text c h.0 ≡ true) × Permᴰ (h.0 ∷ h.1) (x ∷ xs))
            (some-injective (x, xs) (g, rest) q) (p, Permᴰ.refl (x ∷ xs))
      first ind false p q = behind ind (find_hit lower float_text c xs) refl q

  match_all-Assigned :
      (names : List Text) (cs : List Call) (gs : List Truth)
      → length cs ≡ length gs
      → match_all lower float_text cs gs names ≡ none
      → (order : List Truth) × Permᴰ order gs × Assigned names cs order
  unfolding match_all
  match_all-Assigned names [] [] l e = ([], Permᴰ.nil, unassigned)
  match_all-Assigned names [] (g ∷ gs) l e = absurd (omega arith)
  match_all-Assigned names (c ∷ cs) gs l e =
      let known = if-none (mem_text c.name names) _ _ e in
      let hit = hit-none (find_hit lower float_text c gs) _ _ known.1 in
      let found = find_hit-Permᴰ c gs hit.0.0 hit.0.1 hit.1 in
      let others =
        match_all-Assigned names cs hit.0.1 (omega (arith, perm_length found.1, l)) hit.2 in
      (
        hit.0.0 ∷ others.0,
        Permᴰ.trans (Permᴰ.cons refl others.1) found.1,
        assign known.0 found.0 others.2,
      )

  -- An answer is accepted only if the ground truths can be given to its calls, each to one call that
  -- fits it, and every call names a tool of the case.
  pub ast_match-Assigned :
      (names : List Text) (cs : List Call) (gs : List Truth)
      → ast_match lower float_text cs gs names ≡ none
      → (order : List Truth) × Permᴰ order gs × Assigned names cs order
  unfolding ast_match
  ast_match-Assigned names cs gs e =
      let counted = if-none (length cs == length gs) _ _ e in
      match_all-Assigned names cs gs ((==_iff _ _).0 counted.0) counted.1
