-- ===== src/Inventory/Table.antt =====
-- `ple_identity` of scripts/inventory.py: the layout of the table in the shards of a checkpoint, and
-- the windows of the backing file that are compared with it. Files are lists of bytes.
use qwen38_flash_next_sglang.Prelude.{
  ℕ, suc, ◌+◌, ◌-◌, ◌/◌, Bool, true, false, ◌&&◌, Option, none, some, List, [], ◌∷◌, length, take,
  drop, ◌=ₜ◌, ◌==◌, leb, ltb, min, if◌then◌else◌,
}
use qwen38_flash_next_sglang.Json.{Result, ok, err, runtime_error, key_error, ◌>>=◌}

abbrev pub Bytes : Type 0
Bytes = List ℕ

-- A tensor of a header: its type, and where its bytes are among the file's data. The format puts the
-- end after the start, so that the second is their distance.
pub record Tensor : Type 0 where
  pub is_fp8 : Bool
  pub begin : ℕ
  pub size : ℕ

-- A key `...ngram_embedding.shard_<number>.weight` of the index, with the file that holds it: the size
-- of the file's header, the key's tensor in it, and the bytes of the file.
pub record Shard : Type 0 where
  pub number : ℕ
  pub header_size : ℕ
  pub tensor : Option Tensor
  pub bytes : Bytes

-- `sorted`, by the numbers
abbrev pub insert : Shard → List Shard → List Shard
insert s [] = s ∷ []
insert s (t ∷ ts) =
    let later = insert s ts in if ltb t.number s.number then t ∷ later else s ∷ t ∷ ts

unfoldable pub sorted : List Shard → List Shard
sorted [] = []
sorted (s ∷ ss) = insert s (sorted ss)

-- The numbers are `n`, `n + 1` and so on.
unfoldable pub counts_up : ℕ → List Shard → Bool
counts_up n [] = true
counts_up n (s ∷ ss) = (s.number == n) && counts_up (suc n) ss

-- A file, where the shard is in it, its size, and where it is in the table.
pub record Place : Type 0 where
  pub bytes : Bytes
  pub src_start : ℕ
  pub size : ℕ
  pub dst_start : ℕ

abbrev pub place_at : Shard → Tensor → ℕ → Place
place_at s t total = record {
  bytes = s.bytes;
  src_start = 8 + s.header_size + t.begin;
  size = t.size;
  dst_start = total;
}

abbrev pub placed : Shard → ℕ → Tensor → Result Place
placed s total t = if t.is_fp8 then ok (place_at s t total) else err runtime_error

-- `header[key]`
abbrev pub tensor_of : Option Tensor → Result Tensor
tensor_of none = err key_error
tensor_of (some t) = ok t

unfoldable pub place : Shard → ℕ → Result Place
place s total =
    if leb s.header_size 67108864 then tensor_of s.tensor >>= placed s total else err runtime_error

-- `layout`, from the total so far, and the new total
unfoldable pub layout : ℕ → List Shard → Result (List Place × ℕ)
unfolding place
layout total [] = ok ([], total)
layout total (s ∷ ss) = do
  p ← place s total
  rest ← layout (total + p.size) ss
  ok (p ∷ rest.0, rest.1)

-- `sorted({0, (size - width) // 2, size - width})`
abbrev pub without_same : ℕ → List ℕ → List ℕ
without_same x [] = x ∷ []
without_same x (y ∷ ys) = if x == y then y ∷ ys else x ∷ y ∷ ys

abbrev pub width_of : Place → ℕ
width_of p = min p.size 4096

abbrev pub offsets : Place → List ℕ
offsets p =
    without_same 0
      (without_same ((p.size - width_of p) / 2) (without_same (p.size - width_of p) []))

-- `f.seek(start)` and `f.read(width)`
abbrev pub read_at : ℕ → ℕ → Bytes → Bytes
read_at start width bytes = take width (drop start bytes)

abbrev pub window_matches : Bytes → Place → ℕ → Bool
window_matches table p offset =
    (length (read_at (p.src_start + offset) (width_of p) p.bytes) == width_of p)
    && (read_at (p.src_start + offset) (width_of p) p.bytes
        =ₜ read_at (p.dst_start + offset) (width_of p) table)

abbrev pub prefixed : Bytes → Result (List Bytes) → Result (List Bytes)
prefixed a rest = rest >>= (λ more. ok (a ∷ more))

-- The windows of a place, and then those of the next ones: what the digest is made of
unfoldable pub windows : Bytes → Place → List ℕ → Result (List Bytes) → Result (List Bytes)
windows table p [] rest = rest
windows table p (o ∷ os) rest =
    let later = windows table p os rest in
    if window_matches table p o
    then prefixed (read_at (p.src_start + o) (width_of p) p.bytes) later
    else err runtime_error

unfoldable pub samples : Bytes → List Place → Result (List Bytes)
unfolding windows
samples table [] = ok []
samples table (p ∷ ps) = windows table p (offsets p) (samples table ps)

-- The file with the compat name, if it has the size, or the only one of the other `.bin` files that
-- has it.
unfoldable pub of_size : ℕ → List Bytes → List Bytes
of_size n [] = []
of_size n (f ∷ fs) = let later = of_size n fs in if length f == n then f ∷ later else later

abbrev pub only_one : List Bytes → Result (Option Bytes)
only_one [] = ok none
only_one (f ∷ []) = ok (some f)
only_one (f ∷ g ∷ fs) = err runtime_error

unfoldable pub backing : ℕ → Option Bytes → List Bytes → Result (Option Bytes)
unfolding of_size
backing total none others = only_one (of_size total others)
backing total (some named) others =
    if length named == total then ok (some named) else only_one (of_size total others)

-- A table that is not there may be built later, if it is not required.
pub data Table : Type 0 where
  absent : ℕ → ℕ → Table
  present : ℕ → ℕ → Bytes → List Bytes → Table

abbrev pub sampled : Bool → ℕ → List Place → Option Bytes → Result Table
sampled required total places none =
    if required then err runtime_error else ok (absent total (length places))
sampled required total places (some table) =
    samples table places >>= (λ found. ok (present total (length places) table found))

-- The checks of the numbers; `files` says whether each file of the index exists.
abbrev pub is_supported : List Shard → Bool
is_supported [] = false
is_supported (s ∷ ss) = counts_up 0 (s ∷ ss)

abbrev pub all_exist : List Bool → Bool
all_exist [] = true
all_exist (b ∷ bs) = b && all_exist bs

unfoldable pub ple_identity :
    List Bool → List Shard → Option Bytes → List Bytes → Bool → Result Table
unfolding sorted counts_up layout backing samples
ple_identity files shards named others required =
    if all_exist files && is_supported (sorted shards)
    then layout 0 (sorted shards) >>= (λ found.
      backing found.1 named others >>= (λ table. sampled required found.1 found.0 table))
    else err runtime_error
