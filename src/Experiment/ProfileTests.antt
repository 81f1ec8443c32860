-- ===== src/Experiment/ProfileTests.antt =====
-- Settings that a profile leaves, and that it refuses.
use qwen38_flash_next_sglang.Prelude.{◌≡◌, refl, Option, none, some, [], ◌∷◌, Text, codes, strip}
use qwen38_flash_next_sglang.Prelude.Int.{ℤ}
use qwen38_flash_next_sglang.Json.{ok, err, system_exit}
use qwen38_flash_next_sglang.Experiment.Profiles.{
  Settings, setting, profiled, set_defaults, u2_defaults, common_defaults,
}
use qwen38_flash_next_sglang.Experiment.Kept.{profiled-keeps}

abbrev no_int : Text → Option ℤ
no_int t = none

abbrev same_case : Text → Text
same_case t = t

abbrev u2_settings : Text → Settings
u2_settings args =
    (codes "PROFILE", codes "u2") ∷ (codes "TURNS", codes "7") ∷ (codes "EXTRA_ARGS", args) ∷ []

u2_refuses : profiled no_int same_case (u2_settings (codes "--x NGRAM")) ≡ err system_exit
unfolding profiled setting set_defaults
u2_refuses = refl

abbrev u2_made : Settings
u2_made = set_defaults u2_defaults (set_defaults common_defaults (u2_settings []))

u2_passes : profiled no_int same_case (u2_settings []) ≡ ok u2_made
unfolding profiled setting set_defaults
u2_passes = refl

profiled-keeps_example : setting (codes "TURNS") u2_made ≡ some (codes "7")
unfolding setting strip
profiled-keeps_example =
    profiled-keeps no_int same_case (u2_settings []) u2_made (codes "TURNS") (codes "7") u2_passes
      refl refl refl
