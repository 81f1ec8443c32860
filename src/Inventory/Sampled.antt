-- ===== src/Inventory/Sampled.antt =====
-- What `ple_identity` of scripts/inventory.py has seen of a table that it accepts.
use qwen38_flash_next_sglang.Prelude.{
  ℕ, ◌+◌, ◌≡◌, refl, sym, ap, ◌∙◌, inl, inr, Bool, true, false, Option, none, some, List, [], ◌∷◌,
  all, length, ◌==◌, Bool-cases, arith, if◌then◌else◌,
}
use mathlib.Core.Path.{subst}
use qwen38_flash_next_sglang.Json.{Result, ok, err, runtime_error}
use qwen38_flash_next_sglang.Json.Steps.{bind_ok, ok-inj}
use qwen38_flash_next_sglang.Inventory.Table.{
  Bytes, Tensor, Shard, Place, place_at, placed, tensor_of, place, layout, samples, of_size,
  only_one, backing, present, sampled, sorted, ple_identity,
}
use qwen38_flash_next_sglang.Inventory.Windows.{Ends, samples-Ends}

-- The shards fill the table from one place to another, one after the other, and the table has the
-- first, the middle and the last window of each.
pub data Sampled (table : Bytes) : ℕ → List Shard → ℕ → Type 0 where
  finished : (n : ℕ) → Sampled table n [] n
  shard :
      (n m : ℕ) (s : Shard) (t : Tensor) (ss : List Shard)
      → s.tensor ≡ some t
      → t.is_fp8 ≡ true
      → Ends table (place_at s t n)
      → Sampled table (n + t.size) ss m
      → Sampled table n (s ∷ ss) m

-- A guarded result is one where the guard holds.
guard_ok :
    {A : Type 0} (b : Bool) (r : Result A) (a : A)
    → (if b then r else err runtime_error) ≡ ok a
    → (b ≡ true) × (r ≡ ok a)
guard_ok true r a h = (refl, h)
guard_ok false r a h = cc

tensor_of-some : (o : Option Tensor) (t : Tensor) → tensor_of o ≡ ok t → o ≡ some t
tensor_of-some none t h = cc
tensor_of-some (some u) t h = cc

some-inj : {A : Type 0} {a b : A} → some a ≡ some b → a ≡ b
some-inj e = cc

place-made :
    (s : Shard) (total : ℕ) (p : Place)
    → place s total ≡ ok p
    → (t : Tensor) × (s.tensor ≡ some t) × (t.is_fp8 ≡ true) × (place_at s t total ≡ p)
unfolding place
place-made s total p h =
    let (_small, h1) = guard_ok _ _ p h in
    let (t, e, h2) = bind_ok (tensor_of s.tensor) _ h1 in
    let (fp8, h3) = guard_ok _ _ p h2 in (t, tensor_of-some s.tensor t e, fp8, ok-inj h3)

layout-Sampled :
    (table : Bytes) (total : ℕ) (ss : List Shard) (ps : List Place) (m : ℕ) (found : List Bytes)
    → layout total ss ≡ ok (ps, m)
    → samples table ps ≡ ok found
    → Sampled table total ss m
unfolding layout
layout-Sampled table total [] ps m found h q =
    subst (λ r. Sampled table total [] r.1) (ok-inj h) (finished total)
layout-Sampled table total (s ∷ ss) ps m found h q =
    let (p, e, h1) = bind_ok (place s total) _ h in
    let (rest, e1, h2) = bind_ok (layout (total + p.size) ss) _ h1 in
    let (t, has, fp8, made) = place-made s total p e in
    let (ends, more, e2) =
      samples-Ends table p rest.0 found
        (subst (λ r. samples table r.0 ≡ ok found) (sym (ok-inj h2)) q) in
    let later = layout-Sampled table (total + p.size) ss rest.0 rest.1 more e1 e2 in
    subst (λ r. Sampled table total (s ∷ ss) r.1) (ok-inj h2)
      (shard total rest.1 s t ss has fp8 (subst (Ends table) (sym made) ends)
        (subst (λ q. Sampled table (total + q.size) ss rest.1) (sym made) later))

all-of_size : (n : ℕ) (fs : List Bytes) → all (λ f. length f == n) (of_size n fs) ≡ true
unfolding of_size
all-of_size n [] = refl
all-of_size n (f ∷ fs) = elim (Bool-cases (length f == n)) [
  | inl p ↦ rw p (rw p (all-of_size n fs))
  | inr p ↦ rw p (all-of_size n fs)
]

only_one-fits :
    (n : ℕ) (fs : List Bytes) (table : Bytes)
    → all (λ f. length f == n) fs ≡ true
    → only_one fs ≡ ok (some table)
    → length table ≡ n
only_one-fits n [] table h e = cc
only_one-fits n (f ∷ []) table h e = ap length (some-inj (sym (ok-inj e))) ∙ ground arith
only_one-fits n (f ∷ g ∷ fs) table h e = cc

named_or-fits :
    (b : Bool) (n : ℕ) (f : Bytes) (fs : List Bytes) (table : Bytes)
    → (b ≡ true → length f ≡ n)
    → all (λ g. length g == n) fs ≡ true
    → (if b then ok (some f) else only_one fs) ≡ ok (some table)
    → length table ≡ n
named_or-fits true n f fs table fits h e = ap length (some-inj (sym (ok-inj e))) ∙ fits refl
named_or-fits false n f fs table fits h e = only_one-fits n fs table h e

backing-fits :
    (n : ℕ) (named : Option Bytes) (others : List Bytes) (table : Bytes)
    → backing n named others ≡ ok (some table)
    → length table ≡ n
unfolding backing
backing-fits n none others table h =
    only_one-fits n (of_size n others) table (all-of_size n others) h
backing-fits n (some f) others table h =
    named_or-fits (length f == n) n f (of_size n others) table (λ e. ground arith)
      (all-of_size n others) h

present-inj :
    {a b m n : ℕ} {t u : Bytes} {x y : List Bytes}
    → ok (present a m t x) ≡ ok (present b n u y)
    → (t ≡ u) × (x ≡ y)
present-inj e = (cc, cc)

sampled-present :
    (required : Bool) (total : ℕ) (ps : List Place) (o : Option Bytes) (b n : ℕ) (table : Bytes)
    (found : List Bytes)
    → sampled required total ps o ≡ ok (present b n table found)
    → (o ≡ some table) × (samples table ps ≡ ok found)
sampled-present true total ps none b n table found h = cc
sampled-present false total ps none b n table found h = cc
sampled-present required total ps (some t) b n table found h =
    let (more, e, made) = bind_ok (samples t ps) _ h in
    let same = present-inj made in
    (ap some same.0, subst (λ u. samples u ps ≡ ok found) same.0 (e ∙ ap ok same.1))

-- A table that `ple_identity` reports as present is filled by the shards of the checkpoint in the
-- order of their numbers: each is FP8 and begins where the one before it ends, the last one ends where
-- the table ends, and the first, the middle and the last window of up to 4096 bytes of each shard lie
-- in its file and are the bytes of the table at the shard's place.
pub ple_identity-Sampled :
    (files : List Bool) (shards : List Shard) (named : Option Bytes) (others : List Bytes)
    (required : Bool) (total n : ℕ) (table : Bytes) (found : List Bytes)
    → ple_identity files shards named others required ≡ ok (present total n table found)
    → Sampled table 0 (sorted shards) (length table)
unfolding ple_identity
ple_identity-Sampled files shards named others required total n table found h =
    let (_supported, h1) = guard_ok _ _ _ h in
    let (placed, e, h2) = bind_ok (layout 0 (sorted shards)) _ h1 in
    let (o, e1, h3) = bind_ok (backing placed.1 named others) _ h2 in
    let (is_table, e2) = sampled-present required placed.1 placed.0 o total n table found h3 in
    let fits =
      backing-fits placed.1 named others table
        (subst (λ q. backing placed.1 named others ≡ ok q) is_table e1) in
    subst (λ m. Sampled table 0 (sorted shards) m) (sym fits)
      (layout-Sampled table 0 (sorted shards) placed.0 placed.1 found e e2)
