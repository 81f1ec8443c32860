-- ===== src/Patches/Scripts.antt =====
-- `main` of each script, from the text of its file.
use qwen38_flash_next_sglang.Prelude.{
  ◌&&◌, List, [], ◌∷◌, ◌++◌, Text, codes, has_sub, ◌==◌, if◌then◌else◌,
}
use qwen38_flash_next_sglang.Patches.{
  count, Edit, Outcome, already_patched, refused, replace_once, replace_all_once,
  written_or_refused,
}
use qwen38_flash_next_sglang.Patches.Texts.{
  file_compat_orig, file_compat_new, trtllm_old, trtllm_new, drop_sdpa_old, drop_sdpa_new,
  clamp_old, clamp_new, pread_init_old, pread_init_new, pread_advise_old, pread_advise_new,
  pread_submit_old, pread_submit_new, presharded_dump_old, presharded_dump_new, presharded_load_old,
  presharded_load_new, presharded_dispatch_old, presharded_dispatch_new, presharded_validate_old,
  presharded_validate_new, presharded_helper_anchor, presharded_helper, mtp_old, mtp_new,
}

abbrev pub mtp_edit : Edit
mtp_edit = record { old = mtp_old; new = mtp_new }

abbrev pub file_compat_edit : Edit
file_compat_edit = record { old = file_compat_orig; new = file_compat_new }

abbrev pub trtllm_edit : Edit
trtllm_edit = record { old = trtllm_old; new = trtllm_new }

abbrev pub drop_sdpa_edit : Edit
drop_sdpa_edit = record { old = drop_sdpa_old; new = drop_sdpa_new }

abbrev pub clamp_edit : Edit
clamp_edit = record { old = clamp_old; new = clamp_new }

abbrev pub pread_edits : List Edit
pread_edits =
    record { old = pread_init_old; new = pread_init_new }
    ∷ record { old = pread_advise_old; new = pread_advise_new }
    ∷ record { old = pread_submit_old; new = pread_submit_new }
    ∷ []

abbrev pub presharded_edits : List Edit
presharded_edits =
    record { old = presharded_dump_old; new = presharded_dump_new }
    ∷ record { old = presharded_load_old; new = presharded_load_new }
    ∷ record { old = presharded_dispatch_old; new = presharded_dispatch_new }
    ∷ record { old = presharded_validate_old; new = presharded_validate_new }
    ∷ record { old = presharded_helper_anchor; new = presharded_helper ++ presharded_helper_anchor }
    ∷ []

-- `main` of patches/ple_file_compat.py
unfoldable pub file_compat_main : Text → Outcome
file_compat_main src =
    if has_sub (codes "reusing recipe backing file") src
    then already_patched
    else if has_sub (codes "def allocate_ple_host_table") src
    then written_or_refused (replace_once file_compat_edit src)
    else refused

-- `main` of patches/qsa_trtllm_sm120.py
unfoldable pub trtllm_main : Text → Outcome
trtllm_main src =
    if has_sub (codes "is_sm120_supported()") src && has_sub (codes "consumer Blackwell") src
    then already_patched
    else written_or_refused (replace_once trtllm_edit src)

-- `main` of patches/qsa_drop_sm121_sdpa.py
unfoldable pub drop_sdpa_main : Text → Outcome
drop_sdpa_main src =
    if count drop_sdpa_old src == 0
    then already_patched
    else written_or_refused (replace_once drop_sdpa_edit src)

-- `main` of patches/qsa_chunk_tail_clamp.py
unfoldable pub clamp_main : Text → Outcome
clamp_main src =
    if count clamp_new src == 1
    then already_patched
    else written_or_refused (replace_once clamp_edit src)

-- `main` of patches/ple_pread_prefetch.py
unfoldable pub pread_main : Text → Outcome
pread_main src =
    if has_sub (codes "_read_pages") src
    then already_patched
    else written_or_refused (replace_all_once pread_edits src)

-- `main` of patches/presharded_skip_ple.py
unfoldable pub presharded_main : Text → Outcome
presharded_main src =
    if has_sub (codes "_is_ple_table_key") src
    then already_patched
    else written_or_refused (replace_all_once presharded_edits src)

-- The second half of `main` of patches/draft_mtp_files.py, on the draft model's file.
unfoldable pub mtp_main : Text → Outcome
mtp_main src =
    if has_sub (codes "checkpoint_key_filter") src
    then already_patched
    else written_or_refused (replace_once mtp_edit src)
