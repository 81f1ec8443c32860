-- ===== src/Bench/Groups.antt =====
-- The rows of the groups of a run of bench/prefill.py, and those that failed.
use qwen38_flash_next_sglang.Prelude.{
  ℕ, zero, suc, ◌+◌, ◌*◌, ◌≡◌, refl, sym, ap, ◌∙◌, Bool, Option, none, some, List, [], ◌∷◌, ◌++◌,
  length, length-append, Text, arith, if◌then◌else◌,
}
use mathlib.Core.Path.{subst}
use mathlib.Core.Option.{some-injective}
use qwen38_flash_next_sglang.Json.{Value, Result, ok, null}
use qwen38_flash_next_sglang.Json.Steps.{bind_ok, ok-inj}
use qwen38_flash_next_sglang.Client.Calls.{StreamReply}
use qwen38_flash_next_sglang.Bench.{failures}
use qwen38_flash_next_sglang.Bench.Sizes.{tokens_of}
use qwen38_flash_next_sglang.Bench.Prefill.{
  Row, Group, Numbers, prefix_warm, with_size, sizes_of, all_rows, all_failed, one_message, row_of,
  content_of, cold_rows, run_size, groups_of,
}

failures-append :
    {R : Type 0} (passed : R → Bool) (xs ys : List R)
    → failures passed (xs ++ ys) ≡ failures passed xs + failures passed ys
unfolding failures
failures-append passed [] ys = omega arith
failures-append passed (x ∷ xs) ys =
    ap (λ n. (if passed x then 0 else 1) + n) (failures-append passed xs ys) ∙ omega arith

length-with_size :
    (part : Text) (found : Option ℕ) (rest : Option (List (Text × ℕ))) (sizes : List (Text × ℕ))
    → with_size part found rest ≡ some sizes
    → (later : List (Text × ℕ)) × (rest ≡ some later) × (length sizes ≡ suc (length later))
length-with_size part none rest sizes h = cc
length-with_size part (some tokens) none sizes h = cc
length-with_size part (some tokens) (some later) sizes h =
    (later, refl, ap length (sym (some-injective _ sizes h)))

pub length-sizes_of :
    (parts : List Text) (sizes : List (Text × ℕ))
    → sizes_of parts ≡ some sizes
    → length sizes ≡ length parts
unfolding sizes_of
length-sizes_of [] sizes h = ap length (sym (some-injective [] sizes h))
length-sizes_of (part ∷ parts) sizes h =
    let (later, e, size) = length-with_size part (tokens_of part) (sizes_of parts) sizes h in
    size ∙ ap suc (length-sizes_of parts later e)

module _ (ask : ℕ → Value → Result StreamReply) (count : Text → Result ℕ) (loaded : List Text)
    (numbers : Numbers) (pid repeats : ℕ) (real : Bool) where
  length-cold_rows :
      (left : ℕ) (label : Text) (tokens n i : ℕ) (msgs : Value) (docs : List Text)
      (made : List Row × (Value × List Text))
      → cold_rows ask count loaded numbers pid repeats real left label tokens n i msgs docs
        ≡ ok made
      → length made.0 ≡ left
  unfolding cold_rows
  length-cold_rows zero label tokens n i msgs docs made h = sym (ap (λ m. length m.0) (ok-inj h))
  length-cold_rows (suc left) label tokens n i msgs docs made h =
      let (content, _c, h1) =
        bind_ok (content_of ask count loaded numbers pid repeats real label tokens i docs) _ h in
      let (r, _r, h2) = bind_ok (ask n (one_message content.0)) _ h1 in
      let (rest, e, h3) =
        bind_ok
          (cold_rows ask count loaded numbers pid repeats real left label tokens (suc n) (suc i)
            (one_message content.0) content.1)
          _ h2 in
      sym (ap (λ m. length m.0) (ok-inj h3))
      ∙ ap suc (
          length-cold_rows left label tokens (suc n) (suc i) (one_message content.0) content.1 rest
            e)

  -- A group has a row for each repeat and one more, and counts those that failed.
  record Counted (g : Group) : Type 0 where
    rowed : length g.rows ≡ repeats + 1
    counted : g.failed ≡ failures (λ x. x.needle_pass) g.rows

  run_size-Counted :
      (n : ℕ) (label : Text) (tokens : ℕ) (docs : List Text) (made : Group × List Text)
      → run_size ask count loaded numbers pid repeats real n label tokens docs ≡ ok made
      → Counted made.0
  unfolding run_size
  run_size-Counted n label tokens docs made h =
      let (cold, e, h1) =
        bind_ok
          (cold_rows ask count loaded numbers pid repeats real repeats label tokens n 0 null docs) _
          h in
      let (r, _r, h2) = bind_ok (ask (n + repeats) cold.1.0) _ h1 in
      let last = row_of ask count loaded numbers pid repeats real label repeats prefix_warm r in
      subst (λ m. Counted m.0) (ok-inj h2)
        (record {
          rowed = omega (
            arith,
            length-append cold.0 (last ∷ []),
            length-cold_rows repeats label tokens n 0 null docs cold e,
          );
          counted = refl;
        })

  -- So have the groups together.
  pub groups_of-Counted :
      (n : ℕ) (sizes : List (Text × ℕ)) (docs : List Text) (groups : List Group)
      → groups_of ask count loaded numbers pid repeats real n sizes docs ≡ ok groups
      → (length (all_rows groups) ≡ length sizes * (repeats + 1))
        × (all_failed groups ≡ failures (λ x. x.needle_pass) (all_rows groups))
  unfolding groups_of all_rows all_failed failures
  groups_of-Counted n [] docs groups h =
      subst
        (λ gs.
          (length (all_rows gs) ≡ 0 * (repeats + 1))
          × (all_failed gs ≡ failures (λ x. x.needle_pass) (all_rows gs)))
        (ok-inj h) (omega arith, refl)
  groups_of-Counted n (s ∷ sizes) docs groups h =
      let (g, e, h1) =
        bind_ok (run_size ask count loaded numbers pid repeats real n s.0 s.1 docs) _ h in
      let (rest, f, h2) =
        bind_ok (groups_of ask count loaded numbers pid repeats real (n + repeats + 1) sizes g.1) _
          h1 in
      let first = run_size-Counted n s.0 s.1 docs g e in
      let later = groups_of-Counted (n + repeats + 1) sizes g.1 rest f in
      subst
        (λ gs.
          (length (all_rows gs) ≡ suc (length sizes) * (repeats + 1))
          × (all_failed gs ≡ failures (λ x. x.needle_pass) (all_rows gs)))
        (ok-inj h2)
        (
          omega (arith, length-append g.0.rows (all_rows rest), first.rowed, later.0),
          omega (
            arith,
            first.counted,
            later.1,
            failures-append (λ x. x.needle_pass) g.0.rows (all_rows rest),
          ),
        )
