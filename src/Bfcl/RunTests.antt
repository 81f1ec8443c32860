-- ===== src/Bfcl/RunTests.antt =====
-- A run of bench/bfcl.py on a case with two turns and on a case that wants no call.
use qwen38_flash_next_sglang.Prelude.{
  ℕ, ◌≡◌, refl, Bool, false, Option, none, some, List, [], ◌∷◌, Text, codes,
}
use qwen38_flash_next_sglang.Prelude.Int.{ℤ, pos}
use qwen38_flash_next_sglang.Json.{Value, str, arr, obj, nil, cons, end, field, Result, ok}
use qwen38_flash_next_sglang.Client.Calls.{zero_rate}
use qwen38_flash_next_sglang.Bfcl.{Fragment}
use qwen38_flash_next_sglang.Bfcl.Run.{Message, Reply, multi_turn, no_tool}
use qwen38_flash_next_sglang.Bfcl.Tools.{gt_names, called_name}
use qwen38_flash_next_sglang.Bfcl.Report.{Split, bfcl_main}
use qwen38_flash_next_sglang.Bfcl.Good.{Good}
use qwen38_flash_next_sglang.Bfcl.Accounts.{Tallied, split_limits, case_count, bfcl_main-Accounts}

name_of_call :
    gt_names (λ c. false) (codes " fs.cd(folder='a')" ∷ codes "2x()" ∷ []) ≡ codes "fs_cd" ∷ []
unfolding gt_names called_name
name_of_call = refl

abbrev no_doc : Text → List Value
no_doc t = []

abbrev no_json : Text → Option Value
no_json t = some (obj end)

abbrev same_case : Text → Text
same_case t = t

abbrev no_float : Text → Option ℤ
no_float t = none

abbrev no_word : ℕ → Bool
no_word c = false

abbrev reply : List Fragment → Reply
reply calls = record {
  content = [];
  tool_calls = calls;
  prompt_tokens = pos 0;
  completion_tokens = pos 0;
  cached_tokens = pos 0;
  ttft_s = 0;
  decode_tps = zero_rate;
}

-- The first conversation is answered with a call, the others with none.
abbrev ask : List Value → List (List Message) → Result Reply
ask tools (ms ∷ []) = ok (reply (record { index = none; name = codes "f"; arguments = [] } ∷ []))
ask tools asked = ok (reply [])

abbrev turn : Value
turn = arr (cons (obj (field (codes "role") (str (codes "user")) end)) nil)

abbrev body : Value
body = obj (
    field (codes "function") (obj (field (codes "name") (str (codes "f")) end))
      (field (codes "question") (arr (cons turn (cons turn nil))) end))

abbrev splits : List Split
splits =
    record {
      name = codes "multi_turn_base";
      n = 1;
      rows =
          record { id = codes "a"; body = body; expected = multi_turn ((codes "f(1)" ∷ []) ∷ []) }
          ∷ [];
    }
    ∷ record {
      name = codes "irrelevance";
      n = 5;
      rows = record { id = codes "b"; body = body; expected = no_tool } ∷ [];
    }
    ∷ []

bfcl_main-Accounts_example :
    Good
      (split_limits 6 [] 0 splits)
      (bfcl_main no_doc ask no_json no_word same_case no_float 6 [] 0 splits).1
    × Tallied
        (case_count [] 0 splits)
        (bfcl_main no_doc ask no_json no_word same_case no_float 6 [] 0 splits).0
bfcl_main-Accounts_example =
    bfcl_main-Accounts no_doc ask no_json no_word same_case no_float 6 [] 0 splits
