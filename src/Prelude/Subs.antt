-- ===== src/Prelude/Subs.antt =====
-- `sub in text` of a text that is put together.
use qwen38_flash_next_sglang.Prelude.{
  ◌≡◌, refl, true, [], ◌∷◌, ◌++◌, Text, starts_with, has_sub, arith,
}

starts_with-append : (t p u : Text) → starts_with t p ≡ true → starts_with (t ++ u) p ≡ true
starts_with-append t [] [] h = refl
starts_with-append t [] (y ∷ u) h = refl
starts_with-append [] (p ∷ ps) u h = cc
starts_with-append (x ∷ xs) (p ∷ ps) u h = ground (arith, starts_with-append xs ps u)

pub has_sub-empty : (m u : Text) → starts_with [] m ≡ true → has_sub m u ≡ true
has_sub-empty [] [] h = refl
has_sub-empty [] (y ∷ u) h = refl
has_sub-empty (p ∷ ps) u h = cc

pub has_sub-append : (m t u : Text) → has_sub m t ≡ true → has_sub m (t ++ u) ≡ true
has_sub-append m [] u h = has_sub-empty m u h
has_sub-append m (x ∷ xs) u h =
    ground (arith, starts_with-append (x ∷ xs) m u, has_sub-append m xs u)

pub has_sub-prepend : (m t u : Text) → has_sub m u ≡ true → has_sub m (t ++ u) ≡ true
has_sub-prepend m [] u h = h
has_sub-prepend m (x ∷ xs) u h = rw (has_sub-prepend m xs u h) (ground arith)
