-- ===== src/Inventory/Bind.antt =====
-- `bind_identity` of scripts/inventory.py: what is bound stays bound, to one checkpoint.
use qwen38_flash_next_sglang.Prelude.{
  ◌≡◌, ◌≢◌, refl, sym, ap, ◌∙◌, inl, inr, Bool, true, false, ◌&&◌, Option, none, some, [], ◌∷◌,
  Text, ◌=ₜ◌, =ₜ_iff, =ₜ_refl, ==_iff, if◌then◌else◌, Bool-cases, arith,
}
use mathlib.Core.Path.{subst}
use qwen38_flash_next_sglang.Inventory.{
  Identity, Binding, Registry, lookup, Outcome, bound, refused, registry_after, agrees,
  compare_or_write, then_bind, bind_one, bind_identity,
}

split_and : (a b : Bool) → (a && b) ≡ true → (a ≡ true) × (b ≡ true)
split_and a b h = ground arith

agrees→eq : (a b : Identity) → agrees a b ≡ true → a ≡ b
unfolding agrees
agrees→eq a b h =
    let (m, h1) = split_and _ _ h in
    let (r, h2) = split_and _ _ h1 in
    let (i, h3) = split_and _ _ h2 in
    let (c, n) = split_and _ _ h3 in
    same_fields ((=ₜ_iff _ _).0 m) ((=ₜ_iff _ _).0 r) ((=ₜ_iff _ _).0 i) ((=ₜ_iff _ _).0 c)
      ((==_iff _ _).0 n)
  where
    same_fields :
        {a b : Identity}
        → a.model ≡ b.model
        → a.revision ≡ b.revision
        → a.index_sha256 ≡ b.index_sha256
        → a.config_sha256 ≡ b.config_sha256
        → a.bytes ≡ b.bytes
        → a ≡ b
    same_fields e1 e2 e3 e4 e5 = λ i. record {
      model = e1 i;
      revision = e2 i;
      index_sha256 = e3 i;
      config_sha256 = e4 i;
      bytes = e5 i;
    }

-- The entry of a key.
abbrev pub Holds : Registry → Text → Identity → Type 0
Holds reg k i = lookup k reg ≡ some i

write-Holds :
    (reg : Registry) (key k : Text) (new i : Identity)
    → lookup key reg ≡ none
    → Holds reg k i
    → Holds ((key, new) ∷ reg) k i
unfolding lookup
write-Holds reg key k new i e h = elim (Bool-cases (key =ₜ k)) [
  | inl p ↦ (let w = sym e ∙ (ap (λ x. lookup x reg) ((=ₜ_iff key k).0 p) ∙ h) in cc)
  | inr p ↦ rw p h
]

bound-inj : {r s : Registry} → bound r ≡ bound s → r ≡ s
bound-inj e = ap registry_after e

then_bind-inv :
    (o : Outcome) (f : Registry → Outcome) (reg' : Registry)
    → then_bind o f ≡ bound reg'
    → (r : Registry) × (o ≡ bound r) × (f r ≡ bound reg')
then_bind-inv (bound r) f reg' h = (r, refl, h)
then_bind-inv (refused r) f reg' h = cc

write-head : (reg : Registry) (key : Text) (new : Identity) → Holds ((key, new) ∷ reg) key new
unfolding lookup
write-head reg key new = rw (=ₜ_refl key) refl

module _ (digest : Text → Text) where
  bind_one-Holds :
      (new : Identity) (value : Text) (reg : Registry) (k : Text) (i : Identity)
      → Holds reg k i
      → Holds (registry_after (bind_one digest new value reg)) k i
  unfolding bind_one
  bind_one-Holds new [] reg k i h = h
  bind_one-Holds new (c ∷ cs) reg k i h = go (lookup (digest (c ∷ cs)) reg) refl
    where
      go :
          (o : Option Identity)
          → lookup (digest (c ∷ cs)) reg ≡ o
          → Holds (registry_after (compare_or_write (digest (c ∷ cs)) new reg o)) k i
      go none e = write-Holds reg (digest (c ∷ cs)) k new i e h
      go (some old) e = elim (Bool-cases (agrees old new)) [ inl p ↦ rw p h | inr p ↦ rw p h ]

  -- Whether the call raises or not, every entry of the registry is as it was.
  pub bind_identity-Holds :
      (b : Binding) (reg : Registry) (k : Text) (i : Identity)
      → Holds reg k i
      → Holds (registry_after (bind_identity digest b reg)) k i
  unfolding bind_identity
  bind_identity-Holds b reg k i h =
      go (bind_one digest b.identity b.backing reg) (bind_one-Holds b.identity b.backing reg k i h)
    where
      go :
          (o : Outcome)
          → Holds (registry_after o) k i
          → Holds
              (registry_after (then_bind o (λ reg'. bind_one digest b.identity b.directory reg')))
              k
              i
      go (bound reg') h = bind_one-Holds b.identity b.directory reg' k i h
      go (refused reg') h = h

  bind_one-bound :
      (new : Identity) (value : Text) (reg reg' : Registry)
      → value ≢ []
      → bind_one digest new value reg ≡ bound reg'
      → Holds reg' (digest value) new
  unfolding bind_one
  bind_one-bound new [] reg reg' n h = absurd (n refl)
  bind_one-bound new (c ∷ cs) reg reg' n h = go (lookup (digest (c ∷ cs)) reg) refl h
    where
      go :
          (o : Option Identity)
          → lookup (digest (c ∷ cs)) reg ≡ o
          → compare_or_write (digest (c ∷ cs)) new reg o ≡ bound reg'
          → Holds reg' (digest (c ∷ cs)) new
      go none e h =
          subst (λ r. Holds r (digest (c ∷ cs)) new) (bound-inj h)
            (write-head reg (digest (c ∷ cs)) new)
      go (some old) e h =
          let p = kept (agrees old new) h in
          subst (λ r. Holds r (digest (c ∷ cs)) new) p.1 (e ∙ ap some (agrees→eq old new p.0))
        where
          kept :
              (b : Bool)
              → (if b then bound reg else refused reg) ≡ bound reg'
              → (b ≡ true) × (reg ≡ reg')
          kept true h = (refl, bound-inj h)
          kept false h = cc

  bind_one-refused :
      (new i : Identity) (value : Text) (reg : Registry)
      → value ≢ []
      → Holds reg (digest value) i
      → agrees i new ≡ false
      → bind_one digest new value reg ≡ refused reg
  unfolding bind_one
  bind_one-refused new i [] reg n h a = absurd (n refl)
  bind_one-refused new i (c ∷ cs) reg n h a = rw (h, a) refl

  -- A directory that a call has bound cannot be bound to another checkpoint: a later call for it
  -- whose model, revision, digests or size differ raises.
  bind_identity-refused :
      (b b' : Binding) (reg reg' : Registry)
      → bind_identity digest b reg ≡ bound reg'
      → b.directory ≢ []
      → b'.directory ≡ b.directory
      → agrees b.identity b'.identity ≡ false
      → bind_identity digest b' reg' ≡ refused (registry_after (bind_identity digest b' reg'))
  unfolding bind_identity
  bind_identity-refused b b' reg reg' h n d a =
      let (r, _, q) = then_bind-inv (bind_one digest b.identity b.backing reg) _ reg' h in
      let held = bind_one-bound b.identity b.directory r reg' n q in
      go (bind_one digest b'.identity b'.backing reg')
        (bind_one-Holds b'.identity b'.backing reg' (digest b.directory) b.identity held)
    where
      go :
          (o : Outcome)
          → Holds (registry_after o) (digest b.directory) b.identity
          → then_bind o (λ t. bind_one digest b'.identity b'.directory t)
            ≡ refused
                (registry_after (then_bind o (λ t. bind_one digest b'.identity b'.directory t)))
      go (refused t) _ = refl
      go (bound t) k =
          let e =
            bind_one-refused b'.identity b.identity b'.directory t (λ z. n (sym d ∙ z))
              (subst (λ x. Holds t (digest x) b.identity) (sym d) k) a in
          e ∙ sym (ap (λ o. refused (registry_after o)) e)
