-- ===== src/Experiment/Kept.antt =====
-- What the profiles of scripts/experiment.py leave as it was set.
use qwen38_flash_next_sglang.Prelude.{
  ◌≡◌, refl, sym, ap, ◌∙◌, inl, inr, Bool, true, false, not, Option, some, [], ◌∷◌, Text, codes,
  ◌=ₜ◌, =ₜ_iff, Bool-cases,
}
use mathlib.Core.Path.{subst}
use qwen38_flash_next_sglang.Prelude.Int.{ℤ}
use qwen38_flash_next_sglang.Json.{ok}
use qwen38_flash_next_sglang.Json.Steps.{bind_ok, ok-inj}
use qwen38_flash_next_sglang.Experiment.Profiles.{
  Settings, setting, set, set_unless, is_there, set_default, is_blank, default_if_blank,
  set_defaults, u0, u1, u2, u3, no_profile, Profile, raise_if, out_of_baseline, profiled_as,
  profiled, profile_of, common_defaults, u1_defaults, u2_defaults, u3_defaults, prefetch_defaults,
}

-- A key keeps the value that it has, if it is not the one that is set.
setting-set :
    (j k v : Text) (env : Settings) → (k =ₜ j) ≡ false → setting j (set k v env) ≡ setting j env
unfolding setting set
setting-set j k v [] h = rw h refl
setting-set j k v (e ∷ rest) h = elim (Bool-cases (e.0 =ₜ k)) [
  | inl p ↦ rw p (rw (subst (λ x. (x =ₜ j) ≡ false) (sym ((=ₜ_iff e.0 k).0 p)) h) refl)
  | inr p ↦ rw p (rw (setting-set j k v rest h) refl)
]

set_unless-keeps :
    (b : Bool) (j k v w : Text) (env : Settings)
    → setting j env ≡ some w
    → ((k =ₜ j) ≡ true → b ≡ true)
    → setting j (set_unless b k v env) ≡ some w
set_unless-keeps true j k v w env has same = has
set_unless-keeps false j k v w env has same = elim (Bool-cases (k =ₜ j)) [
  | inl p ↦ cc (same p)
  | inr p ↦ setting-set j k v env p ∙ has
]

set_default-keeps :
    (j k v w : Text) (env : Settings)
    → setting j env ≡ some w
    → setting j (set_default k v env) ≡ some w
unfolding set_default
set_default-keeps j k v w env has =
    set_unless-keeps (is_there (setting k env)) j k v w env has
      (λ same. ap is_there (ap (λ x. setting x env) ((=ₜ_iff k j).0 same) ∙ has))

set_defaults-keeps :
    (ds : Settings) (j w : Text) (env : Settings)
    → setting j env ≡ some w
    → setting j (set_defaults ds env) ≡ some w
unfolding set_defaults
set_defaults-keeps [] j w env has = has
set_defaults-keeps (d ∷ ds) j w env has =
    set_defaults-keeps ds j w _ (set_default-keeps j d.0 d.1 w env has)

-- The defaults of a profile, after those that the profiles share.
shared-keeps :
    (ds : Settings) (j w : Text) (env : Settings)
    → setting j env ≡ some w
    → setting j (set_defaults ds (set_defaults common_defaults env)) ≡ some w
shared-keeps ds j w env has =
    set_defaults-keeps ds j w (set_defaults common_defaults env)
      (set_defaults-keeps common_defaults j w env has)

default_if_blank-keeps :
    (j k v w : Text) (env : Settings)
    → setting j env ≡ some w
    → is_blank (some w) ≡ false
    → setting j (default_if_blank k v env) ≡ some w
unfolding default_if_blank
default_if_blank-keeps j k v w env has full =
    set_unless-keeps (not (is_blank (setting k env))) j k v w env has (λ same.
      ap (λ o. not (is_blank o)) (ap (λ x. setting x env) ((=ₜ_iff k j).0 same) ∙ has)
      ∙ ap not full)

raise_if_ok : (b : Bool) (env made : Settings) → raise_if b env ≡ ok made → env ≡ made
raise_if_ok true env made h = cc
raise_if_ok false env made h = ok-inj h

module _ (to_int : Text → Option ℤ) (upper : Text → Text) where
  profiled_as-keeps :
      (p : Profile) (env made : Settings) (j w : Text)
      → profiled_as to_int upper p env ≡ ok made
      → setting j env ≡ some w
      → is_blank (some w) ≡ false
      → (codes "MAX_PROMPT_TOKENS" =ₜ j) ≡ false
      → setting j made ≡ some w
  unfolding profiled_as
  profiled_as-keeps no_profile env made j w h has full other =
      subst (λ e. setting j e ≡ some w) (ok-inj h) has
  profiled_as-keeps u1 env made j w h has full other =
      subst (λ e. setting j e ≡ some w) (ok-inj h) (shared-keeps u1_defaults j w env has)
  profiled_as-keeps u2 env made j w h has full other =
      subst (λ e. setting j e ≡ some w) (raise_if_ok _ _ made h)
        (shared-keeps u2_defaults j w env has)
  profiled_as-keeps u3 env made j w h has full other =
      subst (λ e. setting j e ≡ some w) (ok-inj h)
        (set_defaults-keeps prefetch_defaults j w
          (default_if_blank (codes "PLE_OFFLOAD_BACKEND") (codes "file")
            (set_defaults u3_defaults (set_defaults common_defaults env)))
          (default_if_blank-keeps j (codes "PLE_OFFLOAD_BACKEND") (codes "file") w
            (set_defaults u3_defaults (set_defaults common_defaults env))
            (shared-keeps u3_defaults j w env has) full))
  profiled_as-keeps u0 env made j w h has full other =
      let (b, e, h1) = bind_ok (out_of_baseline to_int upper env) _ h in
      let (same, e1, h2) = bind_ok (raise_if b env) _ h1 in
      subst (λ x. setting j x ≡ some w) (ok-inj h2)
        (setting-set j (codes "MAX_PROMPT_TOKENS") (codes "32768") same other
          ∙ subst (λ x. setting j x ≡ some w) (raise_if_ok b env same e1) has)

  -- Whatever the profile, if `main` goes on with it, a variable that is set, and not blank, has its
  -- value afterwards, but for MAX_PROMPT_TOKENS.
  pub profiled-keeps :
      (env made : Settings) (j w : Text)
      → profiled to_int upper env ≡ ok made
      → setting j env ≡ some w
      → is_blank (some w) ≡ false
      → (codes "MAX_PROMPT_TOKENS" =ₜ j) ≡ false
      → setting j made ≡ some w
  unfolding profiled
  profiled-keeps env made j w h has full other =
      profiled_as-keeps (profile_of (setting (codes "PROFILE") env)) env made j w h has full other
