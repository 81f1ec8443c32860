-- ===== src/Bench/ToolCalls.antt =====
-- The tool calls of bench/agentic.py, put together of the parts of the stream.
use qwen38_flash_next_sglang.Prelude.{
  ℕ, suc, ◌+◌, Bool, ◌||◌, Option, none, some, List, [], ◌∷◌, ◌++◌, Text, codes, if◌then◌else◌,
}
use qwen38_flash_next_sglang.Json.{
  Value, null, str, obj, Result, ok, err, type_error, ◌>>=◌, get, truth, same, is_text,
}
use qwen38_flash_next_sglang.Json.Objects.{int}
use qwen38_flash_next_sglang.Client.{empty_object}
use qwen38_flash_next_sglang.Client.Calls.{get_or}
use qwen38_flash_next_sglang.Experiment.Validate.{hashable}

-- A tool call that the parts of the stream add up to
pub record Slot : Type 0 where
  pub index : Value
  pub name : Value
  pub args : Text

-- A call: the name and the arguments
abbrev pub Call : Type 0
Call = Value × Value

abbrev pub name_or : Value → Value → Value
name_or name old = if truth name then name else old

-- `slot["args"] += fn["arguments"]`, if there is something to add
abbrev pub added : Text → Value → Result Text
added args (str t) = ok (args ++ t)
added args v = if truth v then err type_error else ok args

-- `merged.setdefault(idx, ...)`, with the name and the arguments of a part put in
unfoldable pub merge_slot : Value → Value → Value → List Slot → Result (List Slot)
merge_slot index name args [] = do
  text ← added [] args
  ok (record { index = index; name = name_or name (str []); args = text } ∷ [])
merge_slot index name args (s ∷ slots) =
    let later = merge_slot index name args slots in
    if same s.index index
    then (do
      text ← added s.args args
      ok (record { index = s.index; name = name_or name s.name; args = text } ∷ slots))
    else (do rest ← later; ok (s ∷ rest))

-- The slots of the parts, from the part `i` on
unfoldable pub merged : ℕ → List Slot → List Value → Result (List Slot)
unfolding get merge_slot
merged i slots [] = ok slots
merged i slots (tc ∷ tcs) = do
  idx ← get (codes "index") (int i) tc
  key ← hashable idx
  fn ← get_or (codes "function") empty_object tc
  name ← get (codes "name") null fn
  args ← get (codes "arguments") null fn
  more ← merge_slot key name args slots
  merged (suc i) more tcs

abbrev pub is_tool : Value → Bool
is_tool name = is_text (codes "search_docs") name || is_text (codes "read_file") name

-- The object that the arguments are, or none
abbrev pub dict_of : Option Value → Option Value
dict_of (some (obj fs)) = some (obj fs)
dict_of v = none

abbrev pub text_or : Text → Text → Text
text_or [] d = d
text_or (c ∷ t) d = c ∷ t

-- `loads` is `json.loads`, `none` where that raises.
module _ (loads : Text → Option Value) where
  abbrev pub read_args : Slot → Option Value
  read_args s = dict_of (loads (text_or s.args (codes "{}")))

  abbrev pub args_or_empty : Option Value → Value
  args_or_empty none = empty_object
  args_or_empty (some v) = v

  abbrev pub bad_args : Option Value → ℕ
  bad_args none = 1
  bad_args (some v) = 0

  -- The calls of the slots, and how much of them is invalid
  unfoldable pub calls_of : List Slot → List Call × ℕ
  calls_of [] = ([], 0)
  calls_of (s ∷ slots) =
      let (calls, invalid) = calls_of slots in
      (
        (s.name, args_or_empty (read_args s)) ∷ calls,
        bad_args (read_args s) + ((if is_tool s.name then 0 else 1) + invalid),
      )
