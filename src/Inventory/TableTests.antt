-- ===== src/Inventory/TableTests.antt =====
-- A table of two shards, which the index names in another order.
use qwen38_flash_next_sglang.Prelude.{ℕ, ◌≡◌, refl, true, none, some, List, [], ◌∷◌, length}
use qwen38_flash_next_sglang.Json.{ok, err, runtime_error}
use qwen38_flash_next_sglang.Inventory.Table.{Bytes, Shard, present, ple_identity, sorted}
use qwen38_flash_next_sglang.Inventory.Sampled.{Sampled, ple_identity-Sampled}

-- A file with eight bytes of size, a header of none, and `n` bytes from `first` on.
abbrev shard_of : ℕ → ℕ → Bytes → Shard
shard_of number n bytes = record {
  number = number;
  header_size = 0;
  tensor = some (record { is_fp8 = true; begin = 0; size = n });
  bytes = 0 ∷ 0 ∷ 0 ∷ 0 ∷ 0 ∷ 0 ∷ 0 ∷ 0 ∷ bytes;
}

abbrev shards : List Shard
shards = shard_of 1 1 (7 ∷ []) ∷ shard_of 0 2 (5 ∷ 6 ∷ []) ∷ []

abbrev table : Bytes
table = 5 ∷ 6 ∷ 7 ∷ []

accepted :
    ple_identity (true ∷ []) shards none (table ∷ (1 ∷ []) ∷ []) true
    ≡ ok (present 3 2 table ((5 ∷ 6 ∷ []) ∷ (7 ∷ []) ∷ []))
unfolding ple_identity
accepted = refl

refused : ple_identity (true ∷ []) shards none ((5 ∷ 6 ∷ 8 ∷ []) ∷ []) true ≡ err runtime_error
unfolding ple_identity
refused = refl

ple_identity-Sampled_example : Sampled table 0 (sorted shards) (length table)
ple_identity-Sampled_example =
    ple_identity-Sampled (true ∷ []) shards none (table ∷ (1 ∷ []) ∷ []) true 3 2 table
      ((5 ∷ 6 ∷ []) ∷ (7 ∷ []) ∷ []) accepted
