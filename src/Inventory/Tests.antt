-- ===== src/Inventory/Tests.antt =====
-- Two checkpoints in one directory.
use qwen38_flash_next_sglang.Prelude.{refl, Text, codes, [], ◌∷◌}
use qwen38_flash_next_sglang.Inventory.{Binding, Registry, registry_after, bind_identity, lookup}
use qwen38_flash_next_sglang.Inventory.Bind.{Holds, bind_identity-Holds}

abbrev digest : Text → Text
digest t = t

abbrev binding : Text → Text → Binding
binding backing revision = record {
  backing = backing;
  directory = codes "/ple";
  identity = record {
    model = codes "m";
    revision = revision;
    index_sha256 = codes "a";
    config_sha256 = codes "b";
    bytes = 4096;
  };
}

abbrev first : Binding
first = binding (codes "/ple/t.bin") (codes "r1")

abbrev second : Binding
second = binding (codes "/ple/u.bin") (codes "r2")

abbrev registry : Registry
registry = (codes "/ple", first.identity) ∷ (codes "/ple/t.bin", first.identity) ∷ []

bind_identity-Holds_example :
    Holds (registry_after (bind_identity digest second registry)) (codes "/ple") first.identity
unfolding lookup
bind_identity-Holds_example =
    bind_identity-Holds digest second registry (codes "/ple") first.identity refl
