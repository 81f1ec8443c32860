-- ===== src/Bfcl/Tests.antt =====
-- Answers of a model with one call and with two.
use qwen38_flash_next_sglang.Prelude.{◌≡◌, refl, Option, none, some, List, [], ◌∷◌, Text, codes}
use qwen38_flash_next_sglang.Prelude.Int.{ℤ}
use qwen38_flash_next_sglang.Json.{
  Value, str, arr, obj, ok, Items, nil, cons, end, field, find_field, same, list_of,
}
use qwen38_flash_next_sglang.Bfcl.{Call, Truth, no_match, ast_match}
use qwen38_flash_next_sglang.Bfcl.Match.{Assigned, ast_match-Assigned}
use qwen38_flash_next_sglang.Bfcl.Schema.{conv_schema}
use mathlib.Core.List.{Permᴰ}

abbrev same_case : Text → Text
same_case t = t

abbrev no_float : Text → Option ℤ
no_float t = none

abbrev no_json : Text → Option Value
no_json t = none

abbrev one_of : List Value → Value
one_of vs = arr (items vs)
  where
    items : List Value → Items
    items [] = nil
    items (v ∷ vs) = cons v (items vs)

abbrev call : Text → Text → Call
call name v = record { name = name; args = field (codes "x") (str v) end }

abbrev truth : List Value → Truth
truth vs = record { name = codes "a.f"; allowed = field (codes "x") (one_of vs) end }

abbrev calls : List Call
calls = call (codes "a_f") (codes " Two") ∷ call (codes "a_f") (codes "one") ∷ []

abbrev truths : List Truth
truths = truth (str (codes "one") ∷ []) ∷ truth (str (codes "Two") ∷ []) ∷ []

ast_match-Assigned_example :
    (order : List Truth) × Permᴰ order truths
    × Assigned same_case no_float (codes "a_f" ∷ []) calls order
unfolding ast_match find_field same list_of
ast_match-Assigned_example =
    ast_match-Assigned same_case no_float (codes "a_f" ∷ []) calls truths refl

-- The first call takes the ground truth that only the second fits.
greedy_rejects :
    ast_match same_case no_float
      (call (codes "a_f") (codes "one") ∷ call (codes "a_f") (codes "two") ∷ [])
      (truth (str (codes "one") ∷ str (codes "two") ∷ []) ∷ truth (str (codes "one") ∷ []) ∷ [])
      (codes "a_f" ∷ [])
    ≡ some (no_match (call (codes "a_f") (codes "two")))
unfolding ast_match find_field same list_of
greedy_rejects = refl

-- A schema with a list of objects that say nothing of their properties.
abbrev element : Value
element =
    obj (field (codes "type") (str (codes "dict")) (field (codes "default") (str (codes "x")) end))

abbrev made_element : Value
made_element =
    obj (field (codes "type") (str (codes "object")) (field (codes "properties") (obj end) end))

abbrev list_schema : Value → Text → Value
list_schema v name = obj (field (codes "type") (str name) (field (codes "items") v end))

tuple_made :
    conv_schema (list_schema element (codes "tuple"))
    ≡ ok (list_schema made_element (codes "array"))
unfolding conv_schema
tuple_made = refl
