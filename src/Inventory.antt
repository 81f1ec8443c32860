-- ===== src/Inventory.antt =====
-- `bind_identity` of scripts/inventory.py: a registry of files that binds a backing file and its
-- directory to one checkpoint.
pub mod Bind
pub mod Table
pub mod Windows
pub mod Sampled
mod Tests
mod TableTests
use qwen38_flash_next_sglang.Prelude.{
  ℕ, Bool, true, false, ◌&&◌, Option, none, some, List, [], ◌∷◌, Text, ◌=ₜ◌, ◌==◌, if◌then◌else◌,
}

-- The fields that must agree.
pub record Identity : Type 0 where
  pub model : Text
  pub revision : Text
  pub index_sha256 : Text
  pub config_sha256 : Text
  pub bytes : ℕ

-- `record`, with the empty text for a directory that it does not have
pub record Binding : Type 0 where
  pub backing : Text
  pub directory : Text
  pub identity : Identity

-- The files of the registry, by the digest in their name.
abbrev pub Registry : Type 0
Registry = List (Text × Identity)

unfoldable pub lookup : Text → Registry → Option Identity
lookup k [] = none
lookup k (e ∷ rest) = let later = lookup k rest in if e.0 =ₜ k then some e.1 else later

-- The registry after the call, and whether the call raised.
pub data Outcome : Type 0 where
  bound : Registry → Outcome
  refused : Registry → Outcome

abbrev pub registry_after : Outcome → Registry
registry_after (bound reg) = reg
registry_after (refused reg) = reg

unfoldable pub agrees : Identity → Identity → Bool
agrees old new =
    (old.model =ₜ new.model)
    && ((old.revision =ₜ new.revision)
        && ((old.index_sha256 =ₜ new.index_sha256)
            && ((old.config_sha256 =ₜ new.config_sha256) && (old.bytes == new.bytes))))

abbrev pub compare_or_write : Text → Identity → Registry → Option Identity → Outcome
compare_or_write key new reg none = bound ((key, new) ∷ reg)
compare_or_write key new reg (some old) = if agrees old new then bound reg else refused reg

abbrev pub then_bind : Outcome → (Registry → Outcome) → Outcome
then_bind (bound reg) f = f reg
then_bind (refused reg) f = refused reg

-- `digest` is the hexadecimal SHA-256 of a text.
module _ (digest : Text → Text) where
  -- One turn of the loop; an empty value is passed over.
  unfoldable pub bind_one : Identity → Text → Registry → Outcome
  bind_one new [] reg = bound reg
  bind_one new (c ∷ cs) reg =
      compare_or_write (digest (c ∷ cs)) new reg (lookup (digest (c ∷ cs)) reg)

  unfoldable pub bind_identity : Binding → Registry → Outcome
  unfolding bind_one lookup agrees
  bind_identity b reg =
      then_bind (bind_one b.identity b.backing reg) (λ reg'. bind_one b.identity b.directory reg')
