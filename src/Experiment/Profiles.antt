-- ===== src/Experiment/Profiles.antt =====
-- `main` of scripts/experiment.py: the tag, the lock, the settings of a profile, and the command.
use qwen38_flash_next_sglang.Prelude.{
  Bool, true, false, not, Option, none, some, List, [], ◌∷◌, Text, codes, ◌=ₜ◌, has_sub, strip,
  if◌then◌else◌,
}
use qwen38_flash_next_sglang.Prelude.Int.{ℤ, pos, ltb_ℤ}
use qwen38_flash_next_sglang.Json.{Result, ok, err, system_exit, value_error, ◌>>=◌}

-- `env`, with the values of its keys in their order
abbrev pub Settings : Type 0
Settings = List (Text × Text)

unfoldable pub setting : Text → Settings → Option Text
setting k [] = none
setting k (e ∷ rest) = let later = setting k rest in if e.0 =ₜ k then some e.1 else later

-- `env[k] = v`
unfoldable pub set : Text → Text → Settings → Settings
set k v [] = (k, v) ∷ []
set k v (e ∷ rest) = let later = set k v rest in if e.0 =ₜ k then (e.0, v) ∷ rest else e ∷ later

abbrev pub set_unless : Bool → Text → Text → Settings → Settings
set_unless b k v env = if b then env else set k v env

abbrev pub is_there : Option Text → Bool
is_there none = false
is_there (some v) = true

-- `env.setdefault(k, v)`
unfoldable pub set_default : Text → Text → Settings → Settings
unfolding setting set
set_default k v env = set_unless (is_there (setting k env)) k v env

abbrev pub is_blank : Option Text → Bool
is_blank none = true
is_blank (some v) = elim (strip v) [ [] ↦ true | c ∷ cs ↦ false ]

unfoldable pub default_if_blank : Text → Text → Settings → Settings
unfolding setting set strip
default_if_blank k v env = set_unless (not (is_blank (setting k env))) k v env

-- Defaults that are set one after the other.
unfoldable pub set_defaults : Settings → Settings → Settings
unfolding set_default
set_defaults [] env = env
set_defaults (d ∷ ds) env = set_defaults ds (set_default d.0 d.1 env)

abbrev pub or_text : Text → Option Text → Text
or_text d none = d
or_text d (some v) = v

abbrev pub common_defaults : Settings
common_defaults =
    (codes "TURNS", codes "120")
    ∷ (codes "SIZES", codes "8k,32k")
    ∷ (codes "SUITE_TIMEOUT", codes "1800")
    ∷ (codes "REQUEST_TIMEOUT", codes "900")
    ∷ []

abbrev pub u1_defaults : Settings
u1_defaults = (codes "QSA_KERNEL_CHECK", codes "1") ∷ []

abbrev pub u2_defaults : Settings
u2_defaults = (codes "GSM8K_N", codes "200") ∷ (codes "GSM8K_TIMEOUT", codes "7200") ∷ []

abbrev pub u3_defaults : Settings
u3_defaults = (codes "QSA_KERNEL_CHECK", codes "1") ∷ (codes "SOAK_SECONDS", codes "3600") ∷ []

abbrev pub prefetch_defaults : Settings
prefetch_defaults =
    (codes "SGLANG_QWEN4_PLE_FILE_PREFETCH", codes "1")
    ∷ (codes "SGLANG_QWEN4_PLE_FILE_RSS_BUDGET_GB", codes "0")
    ∷ []

abbrev pub raise_if : Bool → Settings → Result Settings
raise_if b env = if b then err system_exit else ok env

pub data Profile : Type 0 where
  u0 u1 u2 u3 no_profile : Profile

unfoldable pub profile_of : Option Text → Profile
profile_of none = no_profile
profile_of (some v) =
    if v =ₜ codes "u0"
    then u0
    else if v =ₜ codes "u1"
    then u1
    else if v =ₜ codes "u2"
    then u2
    else if v =ₜ codes "u3"
    then u3
    else no_profile

-- `to_int` is `int` on a text, and `upper` is `str.upper`.
module _ (to_int : Text → Option ℤ) (upper : Text → Text) where
  abbrev pub too_many : Option ℤ → Result Bool
  too_many none = err value_error
  too_many (some n) = ok (ltb_ℤ (pos 40) n)

  -- `SIZES != '8k,32k' or int(TURNS) > 40`
  unfoldable pub out_of_baseline : Settings → Result Bool
  unfolding setting
  out_of_baseline env =
      if or_text (codes "8k,32k") (setting (codes "SIZES") env) =ₜ codes "8k,32k"
      then too_many (to_int (or_text (codes "40") (setting (codes "TURNS") env)))
      else ok true

  unfoldable pub profiled_as : Profile → Settings → Result Settings
  unfolding out_of_baseline set set_defaults default_if_blank setting
  profiled_as u0 env = do
    b ← out_of_baseline env
    given ← raise_if b env
    ok (set (codes "MAX_PROMPT_TOKENS") (codes "32768") given)
  profiled_as u1 env = ok (set_defaults u1_defaults (set_defaults common_defaults env))
  profiled_as u2 env =
      let made = set_defaults u2_defaults (set_defaults common_defaults env) in
      raise_if (has_sub (codes "NGRAM") (upper (or_text [] (setting (codes "EXTRA_ARGS") made))))
        made
  profiled_as u3 env = ok (
      set_defaults prefetch_defaults (
        default_if_blank (codes "PLE_OFFLOAD_BACKEND") (codes "file")
          (set_defaults u3_defaults (set_defaults common_defaults env))))
  profiled_as no_profile env = ok env

  unfoldable pub profiled : Settings → Result Settings
  unfolding profile_of setting profiled_as
  profiled env = profiled_as (profile_of (setting (codes "PROFILE") env)) env
