-- ===== src/Patches/Tests.antt =====
-- A file of the draft model, patched and patched again.
use qwen38_flash_next_sglang.Prelude.{
  ◌≡◌, refl, Text, codes, ◌++◌, List, [], ◌∷◌, none, some, has_sub,
}
use qwen38_flash_next_sglang.Patches.{already_patched, count_from, replace_first}
use qwen38_flash_next_sglang.Patches.Texts.{mtp_old, mtp_new}
use qwen38_flash_next_sglang.Patches.Scripts.{mtp_main, mtp_edit}
use qwen38_flash_next_sglang.Patches.Splice as Splice
use qwen38_flash_next_sglang.Patches.Rerun as Rerun
use qwen38_flash_next_sglang.Patches.KeyFilter as KeyFilter

abbrev before : Text
before = codes "import torch\n" ++ mtp_old ++ codes "    pass\n"

abbrev after : Text
after = codes "import torch\n" ++ mtp_new ++ codes "    pass\n"

main-Spliced_example : Splice.Spliced mtp_edit before after
unfolding mtp_main count_from replace_first
main-Spliced_example = Splice.main-Spliced Splice.Single.mtp before after refl

main_again_example : Rerun.main Rerun.Marked.mtp after ≡ already_patched
unfolding mtp_main count_from replace_first
main_again_example = Rerun.main_again Rerun.Marked.mtp before after refl

abbrev index : KeyFilter.WeightMap
index = (codes "mtp.fc", codes "model-2") ∷ (codes "layers.0", codes "model-1") ∷ []

abbrev weight_files : List Text
weight_files = codes "/hub/model-1" ∷ codes "/hub/model-2" ∷ []

-- The other file is dropped.
model_1_dropped :
    KeyFilter.files_with_matching_keys none (some index) weight_files (has_sub (codes "mtp"))
    ≡ codes "/hub/model-2" ∷ []
unfolding KeyFilter.files_with_matching_keys KeyFilter.basename
model_1_dropped = refl
