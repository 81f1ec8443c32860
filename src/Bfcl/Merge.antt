-- ===== src/Bfcl/Merge.antt =====
-- `parse_calls` of bench/bfcl.py: the calls do not depend on how the arguments are cut into parts.
use qwen38_flash_next_sglang.Prelude.{
  ℕ, suc, ◌+◌, ◌≡◌, refl, sym, ap, ◌∙◌, inl, inr, true, Option, some, List, [], ◌∷◌, ◌++◌,
  append_assoc, length, map, Text, ◌==◌, Bool-cases, arith,
}
use qwen38_flash_next_sglang.Json.{Value}
use qwen38_flash_next_sglang.Bfcl.{
  Fragment, Slot, Merged, update, add_fragment, merge, name_or, parse_calls, call_of, bad_names,
  empty_slot,
}

-- Every part carries its index.
unfoldable pub AllIndexed : List Fragment → Type 0
AllIndexed [] = Unit {0}
AllIndexed (f ∷ fs) = ((k : ℕ) × (f.index ≡ some k)) × AllIndexed fs

merge-position :
    (i j : ℕ) (fs : List Fragment) (merged : Merged)
    → AllIndexed fs
    → merge i fs merged ≡ merge j fs merged
unfolding merge AllIndexed
merge-position i j [] merged h = refl
merge-position i j (f ∷ fs) merged ((k, e), h) =
    simp e (merge-position (suc i) (suc j) fs (update k (add_fragment f) merged) h)

merge-append :
    (i : ℕ) (fs gs : List Fragment) (merged : Merged)
    → merge i (fs ++ gs) merged ≡ merge (i + length fs) gs (merge i fs merged)
unfolding merge
merge-append i [] gs merged = ap (λ n. merge n gs merged) (omega arith)
merge-append i (f ∷ fs) gs merged =
    merge-append (suc i) fs gs _ ∙ ap (λ n. merge n gs (merge i (f ∷ fs) merged)) (omega arith)

==_refl : (k : ℕ) → (k == k) ≡ true
==_refl k = ground arith

update-update :
    (k : ℕ) (f g h : Slot → Slot) (merged : Merged)
    → ((s : Slot) → g (f s) ≡ h s)
    → update k g (update k f merged) ≡ update k h merged
unfolding update
update-update k f g h [] e = rw (==_refl k) (ap (λ s. (k, s) ∷ []) (e empty_slot))
update-update k f g h (entry ∷ rest) e = elim (Bool-cases (entry.0 == k)) [
  | inl p ↦ rw (p, p) (ap (λ s. (entry.0, s) ∷ rest) (e entry.1))
  | inr p ↦ rw (p, p) (ap (◌∷◌ entry) (update-update k f g h rest e))
]

merge-cut :
    (i : ℕ) (after : List Fragment) (k : ℕ) (name a b : Text) (merged : Merged)
    → AllIndexed after
    → merge i
        (record { index = some k; name = name; arguments = a }
          ∷ record { index = some k; name = []; arguments = b }
          ∷ after)
        merged
      ≡ merge i (record { index = some k; name = name; arguments = a ++ b } ∷ after) merged
unfolding merge
merge-cut i after k name a b merged h =
    ap (merge (suc (suc i)) after) (
      update-update k _ _ _ merged
        (λ s. ap (λ t. record { name = name_or name s.name; args = t }) (append_assoc s.args a b)))
    ∙ merge-position (suc (suc i)) (suc i) after _ h

-- A part whose arguments come in two pieces, the second without a name, gives the calls that the
-- whole part gives, if the part and those after it carry their index.
parse_calls-cut :
    (loads : Text → Option Value) (before after : List Fragment) (k : ℕ) (name a b : Text)
    → AllIndexed after
    → parse_calls loads (
        before
        ++ record { index = some k; name = name; arguments = a }
          ∷ record { index = some k; name = []; arguments = b }
          ∷ after)
      ≡ parse_calls loads
          (before ++ record { index = some k; name = name; arguments = a ++ b } ∷ after)
unfolding parse_calls
parse_calls-cut loads before after k name a b h =
    ap (λ merged. (map (call_of loads) merged, bad_names loads merged))
      (merge-append 0 before _ []
        ∙ merge-cut (0 + length before) after k name a b (merge 0 before []) h
        ∙ sym (merge-append 0 before _ []))
