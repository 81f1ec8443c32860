-- ===== src/Inventory/Windows.antt =====
-- The bytes of a table that `ple_identity` of scripts/inventory.py has compared.
use qwen38_flash_next_sglang.Prelude.{
  ℕ, zero, suc, ◌+◌, ◌-◌, ◌/◌, ◌<◌, ◌≤◌, ◌≡◌, refl, sym, ap, ◌∙◌, Bool, true, false, List, [], ◌∷◌,
  length, length-take, all, take, drop, get_elem?, =ₜ_iff, ◌==◌, arith, if◌then◌else◌,
}
use qwen38_flash_next_sglang.Json.{Result, ok, err, runtime_error}
use qwen38_flash_next_sglang.Json.Steps.{bind_ok}
use qwen38_flash_next_sglang.Inventory.Table.{
  Bytes, Place, width_of, offsets, read_at, window_matches, windows, samples, without_same,
  prefixed,
}

zero_add : (k : ℕ) → 0 + k ≡ k
zero_add k = omega arith

suc_add : (o k : ℕ) → suc o + k ≡ suc (o + k)
suc_add o k = omega arith

get_elem?-drop : (o k : ℕ) (xs : Bytes) → get_elem? (drop o xs) k ≡ get_elem? xs (o + k)
get_elem?-drop zero k xs = rw (zero_add k) refl
get_elem?-drop (suc o) k [] = refl
get_elem?-drop (suc o) k (x ∷ xs) = rw (suc_add o k) (get_elem?-drop o k xs)

get_elem?-take : (w k : ℕ) (xs : Bytes) → k < w → get_elem? (take w xs) k ≡ get_elem? xs k
get_elem?-take zero k xs h = absurd (omega arith)
get_elem?-take (suc w) k [] h = refl
get_elem?-take (suc w) zero (x ∷ xs) h = refl
get_elem?-take (suc w) (suc k) (x ∷ xs) h = get_elem?-take w k xs (omega arith)

get_elem?-read_at :
    (o w k : ℕ) (xs : Bytes) → k < w → get_elem? (read_at o w xs) k ≡ get_elem? xs (o + k)
get_elem?-read_at o w k xs h = get_elem?-take w k (drop o xs) h ∙ get_elem?-drop o k xs

length-drop : (o : ℕ) (xs : Bytes) → length (drop o xs) ≡ length xs - o
length-drop zero xs = omega arith
length-drop (suc o) [] = omega arith
length-drop (suc o) (x ∷ xs) = omega (arith, length-drop o xs)

-- A window that is full lies in the file.
read_at-fits : (o w : ℕ) (xs : Bytes) → length (read_at o w xs) ≡ w → 0 < w → o + w ≤ length xs
read_at-fits o w xs h p = omega (arith, h, length-take w (drop o xs), length-drop o xs)

-- A window of the shard lies in its file, and the table has its bytes at the same distance from the
-- shard's place.
pub record Window (table : Bytes) (p : Place) (offset : ℕ) : Type 0 where
  pub fits : 0 < width_of p → p.src_start + offset + width_of p ≤ length p.bytes
  pub agrees :
      (k : ℕ)
      → k < width_of p
      → get_elem? table (p.dst_start + offset + k) ≡ get_elem? p.bytes (p.src_start + offset + k)

-- The first, the middle and the last window.
pub record Ends (table : Bytes) (p : Place) : Type 0 where
  pub at_start : Window table p 0
  pub at_middle : Window table p ((p.size - width_of p) / 2)
  pub at_end : Window table p (p.size - width_of p)

window_matches-Window :
    (table : Bytes) (p : Place) (o : ℕ) → window_matches table p o ≡ true → Window table p o
window_matches-Window table p o h =
    let full = read_at (p.src_start + o) (width_of p) p.bytes in
    let same = (=ₜ_iff full (read_at (p.dst_start + o) (width_of p) table)).0 (ground arith) in
    record {
      fits = λ some. read_at-fits (p.src_start + o) (width_of p) p.bytes (ground arith) some;
      agrees = λ k lt.
          sym (get_elem?-read_at (p.dst_start + o) (width_of p) k table lt)
          ∙ (ap (λ bytes. get_elem? bytes k) (sym same)
              ∙ get_elem?-read_at (p.src_start + o) (width_of p) k p.bytes lt);
    }

window-taken :
    (b : Bool) (a : Bytes) (later : Result (List Bytes)) (found : List Bytes)
    → (if b then prefixed a later else err runtime_error) ≡ ok found
    → (b ≡ true) × (more : List Bytes) × (later ≡ ok more)
window-taken true a later found h = let (more, e, _last) = bind_ok later _ h in (refl, more, e)
window-taken false a later found h = cc

windows-all :
    (table : Bytes) (p : Place) (os : List ℕ) (rest : Result (List Bytes)) (found : List Bytes)
    → windows table p os rest ≡ ok found
    → (all (window_matches table p) os ≡ true) × (more : List Bytes) × (rest ≡ ok more)
unfolding windows
windows-all table p [] rest found h = (refl, found, h)
windows-all table p (o ∷ os) rest found h =
    let (matches, more, e) = window-taken (window_matches table p o) _ _ found h in
    let (others, last, ended) = windows-all table p os rest more e in (ground arith, last, ended)

all-same_or :
    (f : ℕ → Bool) (b : Bool) (x y : ℕ) (ys : List ℕ)
    → (b ≡ true → x ≡ y)
    → all f (if b then y ∷ ys else x ∷ y ∷ ys) ≡ true
    → (f x ≡ true) × (all f (y ∷ ys) ≡ true)
all-same_or f true x y ys e h = (rw (e refl) (ground arith), h)
all-same_or f false x y ys e h = (ground arith, ground arith)

all-without_same :
    (f : ℕ → Bool) (x : ℕ) (ys : List ℕ)
    → all f (without_same x ys) ≡ true
    → (f x ≡ true) × (all f ys ≡ true)
all-without_same f x [] h = (ground arith, refl)
all-without_same f x (y ∷ ys) h = all-same_or f (x == y) x y ys (λ e. ground arith) h

offsets-Ends :
    (table : Bytes) (p : Place) → all (window_matches table p) (offsets p) ≡ true → Ends table p
offsets-Ends table p h =
    let (start, rest) =
      all-without_same (window_matches table p) 0
        (without_same ((p.size - width_of p) / 2) (without_same (p.size - width_of p) [])) h in
    let (middle, last) =
      all-without_same (window_matches table p) _ (without_same (p.size - width_of p) []) rest in
    record {
      at_start = window_matches-Window table p _ start;
      at_middle = window_matches-Window table p _ middle;
      at_end =
          window_matches-Window table p _ (all-without_same (window_matches table p) _ [] last).0;
    }

pub samples-Ends :
    (table : Bytes) (p : Place) (ps : List Place) (found : List Bytes)
    → samples table (p ∷ ps) ≡ ok found
    → Ends table p × (more : List Bytes) × (samples table ps ≡ ok more)
unfolding samples
samples-Ends table p ps found h =
    let (matches, more, e) = windows-all table p (offsets p) (samples table ps) found h in
    (offsets-Ends table p matches, more, e)
