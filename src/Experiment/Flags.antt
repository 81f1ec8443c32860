-- ===== src/Experiment/Flags.antt =====
-- `launch_flags_from_argv` and `safe_server_info`: the launch flags that are recorded.
use qwen38_flash_next_sglang.Prelude.{
  ℕ, zero, suc, ◌≤◌, ◌≡◌, refl, sym, ap, ◌∙◌, inl, inr, Bool, true, ◌&&◌, List, [], ◌∷◌, length,
  drop, all, Text, codes, ◌=ₜ◌, mem_text, starts_with, replace_char, if◌then◌else◌, Bool-cases,
  arith,
}
use mathlib.Core.Path.{subst}
use qwen38_flash_next_sglang.Json.{
  Value, obj, Fields, end, field, Result, ok, err, attribute_error, get, ◌>>=◌,
}

-- SAFE_FLAGS
unfoldable pub safe_flags : List Text
safe_flags =
    codes "model_path"
    ∷ codes "revision"
    ∷ codes "served_model_name"
    ∷ codes "context_length"
    ∷ codes "max_total_tokens"
    ∷ codes "max_running_requests"
    ∷ codes "mem_fraction_static"
    ∷ codes "chunked_prefill_size"
    ∷ codes "mamba_radix_cache_strategy"
    ∷ codes "mamba_track_interval"
    ∷ codes "max_mamba_cache_size"
    ∷ codes "mamba_ssm_dtype"
    ∷ codes "page_size"
    ∷ codes "quantization"
    ∷ codes "speculative_algorithm"
    ∷ codes "speculative_num_steps"
    ∷ codes "speculative_eagle_topk"
    ∷ codes "speculative_num_draft_tokens"
    ∷ codes "speculative_draft_model_quantization"
    ∷ codes "speculative_token_map"
    ∷ codes "prefill_attention_backend"
    ∷ codes "decode_attention_backend"
    ∷ codes "enable_gdn_replayssm_spec"
    ∷ codes "disable_radix_cache"
    ∷ codes "disable_prefill_cuda_graph"
    ∷ codes "cuda_graph_max_bs_decode"
    ∷ codes "cuda_graph_bs_decode"
    ∷ codes "reasoning_parser"
    ∷ codes "tool_call_parser"
    ∷ codes "preferred_sampling_params"
    ∷ codes "fp4_gemm_backend"
    ∷ codes "moe_runner_backend"
    ∷ codes "kv_cache_dtype"
    ∷ codes "enable_linear_replayssm_spec"
    ∷ codes "enable_gdn_replayssm_spec"
    ∷ codes "enable_linear_replayssm"
    ∷ codes "enable_gdn_replayssm"
    ∷ codes "max_total_num_tokens"
    ∷ codes "ple_offload_embedding"
    ∷ codes "ple_offload_backend"
    ∷ codes "ple_offload_dir"
    ∷ []

-- LIST_FLAGS
abbrev pub list_flags : List Text
list_flags = codes "cuda_graph_bs_decode" ∷ []

pub data FlagValue : Type 0 where
  switch : FlagValue
  one : Text → FlagValue
  many : List Text → FlagValue

abbrev pub Flags : Type 0
Flags = List (Text × FlagValue)

-- `flags[key] = value`
unfoldable pub set_flag : Text → FlagValue → Flags → Flags
set_flag k v [] = (k, v) ∷ []
set_flag k v (e ∷ rest) =
    let later = set_flag k v rest in if e.0 =ₜ k then (e.0, v) ∷ rest else e ∷ later

-- `a.startswith('--')`
unfoldable pub is_flag : Text → Bool
is_flag a = starts_with a (codes "--")

-- `a.removeprefix('--').replace('-', '_')`
unfoldable pub key_of : Text → Text
unfolding is_flag
key_of a = replace_char 45 95 (if is_flag a then drop 2 a else a)

-- The arguments up to the next flag, and what follows them.
unfoldable pub values_of : List Text → List Text
values_of [] = []
values_of (a ∷ rest) = let later = values_of rest in if is_flag a then [] else a ∷ later

unfoldable pub after_values : List Text → List Text
after_values [] = []
after_values (a ∷ rest) = let later = after_values rest in if is_flag a then a ∷ rest else later

unfoldable pub flag_value : Text → List Text → FlagValue
flag_value key [] = switch
flag_value key (v ∷ vs) = if mem_text key list_flags then many (v ∷ vs) else one v

abbrev pub is_safe : Text → Bool
is_safe a = is_flag a && mem_text (key_of a) safe_flags

-- The loop, from the arguments still to be read.
unfoldable pub read_flags : ℕ → List Text → Flags → Flags
read_flags zero argv flags = flags
read_flags (suc fuel) [] flags = flags
read_flags (suc fuel) (a ∷ rest) flags =
    let after_flag =
      read_flags fuel (after_values rest)
        (set_flag (key_of a) (flag_value (key_of a) (values_of rest)) flags) in
    let after_other = read_flags fuel rest flags in if is_safe a then after_flag else after_other

-- Each turn reads at least one argument, so their number is enough fuel.
unfoldable pub launch_flags_from_argv : List Text → Flags
unfolding read_flags safe_flags set_flag is_flag key_of values_of after_values flag_value
launch_flags_from_argv argv = read_flags (length argv) argv []

unfoldable pub safe_fields : Fields → Fields
safe_fields end = end
safe_fields (field k v rest) =
    let later = safe_fields rest in if mem_text k safe_flags then field k v later else later

abbrev pub items_kept : Value → Result Value
items_kept (obj fs) = ok (obj (safe_fields fs))
items_kept v = err attribute_error

unfoldable pub safe_server_info : Value → Result Value
safe_server_info server = do args ← get (codes "server_args") server server; items_kept args

-- What the arguments say, position by position: a safe flag has the value that the arguments after
-- it up to the next flag give, and a later one replaces an earlier one.
unfoldable pub said_by : List Text → Flags → Flags
said_by [] flags = flags
said_by (a ∷ rest) flags = said_by rest (
    if is_safe a then set_flag (key_of a) (flag_value (key_of a) (values_of rest)) flags else flags)

after_values-flag :
    (a : Text) (rest : List Text) → is_flag a ≡ true → after_values (a ∷ rest) ≡ a ∷ rest
unfolding after_values
after_values-flag a rest p = rw p refl

after_values-said_by :
    (argv : List Text) (flags : Flags) → said_by (after_values argv) flags ≡ said_by argv flags
unfolding after_values said_by
after_values-said_by [] flags = refl
after_values-said_by (a ∷ rest) flags = elim (Bool-cases (is_flag a)) [
  | inl p ↦ ap (λ l. said_by l flags) (after_values-flag a rest p)
  | inr p ↦ rw p (after_values-said_by rest flags)
]

length-after_values : (argv : List Text) → length (after_values argv) ≤ length argv
unfolding after_values
length-after_values [] = omega arith
length-after_values (a ∷ rest) = ground (arith, length-after_values rest)

read_flags-said_by :
    (fuel : ℕ) (argv : List Text) (flags : Flags)
    → length argv ≤ fuel
    → read_flags fuel argv flags ≡ said_by argv flags
unfolding read_flags said_by
read_flags-said_by zero [] flags h = refl
read_flags-said_by zero (a ∷ rest) flags h = absurd (omega arith)
read_flags-said_by (suc fuel) [] flags h = refl
read_flags-said_by (suc fuel) (a ∷ rest) flags h = elim (Bool-cases (is_safe a)) [
  | inl p ↦ rw p (
      read_flags-said_by fuel (after_values rest) _ (omega (arith, length-after_values rest))
      ∙ after_values-said_by rest _)
  | inr p ↦ rw p (read_flags-said_by fuel rest flags (omega arith))
]

-- The loop reads every argument and gives what they say position by position: a safe flag has the
-- value that the arguments after it up to the next flag give, and a later one replaces an earlier
-- one.
pub launch_flags_from_argv-said_by :
    (argv : List Text) → launch_flags_from_argv argv ≡ said_by argv []
unfolding launch_flags_from_argv
launch_flags_from_argv-said_by argv = read_flags-said_by (length argv) argv [] (omega arith)

abbrev pub AllSafe : Flags → Type 0
AllSafe flags = all (λ e. mem_text e.0 safe_flags) flags ≡ true

split_and : (a b : Bool) → (a && b) ≡ true → (a ≡ true) × (b ≡ true)
split_and a b h = ground arith

both : (a b : Bool) → a ≡ true → b ≡ true → (a && b) ≡ true
both a b h k = ground arith

set_flag-AllSafe :
    (k : Text) (v : FlagValue) (flags : Flags)
    → mem_text k safe_flags ≡ true
    → AllSafe flags
    → AllSafe (set_flag k v flags)
unfolding set_flag
set_flag-AllSafe k v [] m h = ground (arith, m)
set_flag-AllSafe k v (e ∷ rest) m h = elim (Bool-cases (e.0 =ₜ k)) [
  | inl p ↦ rw p h
  | inr p ↦ rw p (both _ _ (split_and _ _ h).0 (set_flag-AllSafe k v rest m (split_and _ _ h).1))
]

said_by-AllSafe : (argv : List Text) (flags : Flags) → AllSafe flags → AllSafe (said_by argv flags)
unfolding said_by
said_by-AllSafe [] flags h = h
said_by-AllSafe (a ∷ rest) flags h = elim (Bool-cases (is_safe a)) [
  | inl p ↦
      rw p (said_by-AllSafe rest _ (set_flag-AllSafe (key_of a) _ flags (split_and _ _ p).1 h))
  | inr p ↦ rw p (said_by-AllSafe rest flags h)
]

-- Only flags on the list of safe ones are recorded.
pub launch_flags_from_argv-AllSafe : (argv : List Text) → AllSafe (launch_flags_from_argv argv)
launch_flags_from_argv-AllSafe argv =
    subst AllSafe (sym (launch_flags_from_argv-said_by argv)) (said_by-AllSafe argv [] refl)
