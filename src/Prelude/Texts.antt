-- ===== src/Prelude/Texts.antt =====
-- Python's `str` as the list of its code points, and the methods of `str` that the program calls.
use Prim.Native.Nat.{ℕ}
use Prim.Native.Char.{code}
use Prim.Native.String.{String}
use mathlib.Core.Path.{◌≡◌, refl}
use mathlib.Core.Logic.{◌↔◌}
use mathlib.Core.Bool.{Bool, true, false, ◌&&◌, ◌||◌}
use mathlib.Core.List.{List, [], ◌∷◌, map}
use native.Mathlib.Omega.{arith}
use qwen38_flash_next_sglang.Prelude.Tests.{◌==◌, leb, if◌then◌else◌}

abbrev pub Text : Type 0
Text = List ℕ

-- A literal of the source.
abbrev pub codes : String → Text
codes String.[] = []
codes (String.◌∷◌ c s) = code c ∷ codes s

infix 50 ◌=ₜ◌
abbrev pub ◌=ₜ◌ : Text → Text → Bool
[] =ₜ [] = true
[] =ₜ (y ∷ ys) = false
(x ∷ xs) =ₜ [] = false
(x ∷ xs) =ₜ (y ∷ ys) = (x == y) && (xs =ₜ ys)

pub =ₜ_iff : (s t : Text) → ((s =ₜ t) ≡ true) ↔ (s ≡ t)
=ₜ_iff [] [] = (λ _. refl, λ _. refl)
=ₜ_iff [] (y ∷ ys) = (λ h. cc, λ h. cc)
=ₜ_iff (x ∷ xs) [] = (λ h. cc, λ h. cc)
=ₜ_iff (x ∷ xs) (y ∷ ys) = ground (arith, =ₜ_iff xs ys)

pub =ₜ_refl : (s : Text) → (s =ₜ s) ≡ true
=ₜ_refl s = (=ₜ_iff s s).1 refl

-- `t in texts`
abbrev pub mem_text : Text → List Text → Bool
mem_text t [] = false
mem_text t (x ∷ xs) = (x =ₜ t) || mem_text t xs

-- `text.startswith(prefix)`
abbrev pub starts_with : Text → Text → Bool
starts_with text [] = true
starts_with [] (p ∷ ps) = false
starts_with (x ∷ xs) (p ∷ ps) = (x == p) && starts_with xs ps

-- `sub in text`
abbrev pub has_sub : Text → Text → Bool
has_sub sub [] = starts_with [] sub
has_sub sub (x ∷ xs) = starts_with (x ∷ xs) sub || has_sub sub xs

-- `text.replace(c, d)` for single characters
abbrev pub replace_char : ℕ → ℕ → Text → Text
replace_char c d = map (λ x. if x == c then d else x)

-- `str.isspace` of one character
abbrev pub is_space : ℕ → Bool
is_space c =
    (leb 9 c && leb c 13)
    || (leb 28 c && leb c 32)
    || (c == 133)
    || (c == 160)
    || (c == 5760)
    || (leb 8192 c && leb c 8202)
    || (c == 8232)
    || (c == 8233)
    || (c == 8239)
    || (c == 8287)
    || (c == 12288)

-- `text.lstrip()`, `text.rstrip()` and `text.strip()`
unfoldable pub lstrip : Text → Text
lstrip [] = []
lstrip (x ∷ xs) = let rest = lstrip xs in if is_space x then rest else x ∷ xs

unfoldable pub rstrip : Text → Text
rstrip [] = []
rstrip (x ∷ xs) = elim (rstrip xs) [ [] ↦ if is_space x then [] else x ∷ [] | y ∷ ys ↦ x ∷ y ∷ ys ]

unfoldable pub strip : Text → Text
unfolding lstrip rstrip
strip text = rstrip (lstrip text)

abbrev cons_head : ℕ → List Text → List Text
cons_head x [] = (x ∷ []) ∷ []
cons_head x (t ∷ ts) = (x ∷ t) ∷ ts

-- `text.split(c)` for a single character
unfoldable pub split_on : ℕ → Text → List Text
split_on c [] = [] ∷ []
split_on c (x ∷ xs) = let rest = split_on c xs in if x == c then [] ∷ rest else cons_head x rest
