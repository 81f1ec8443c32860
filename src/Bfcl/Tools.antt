-- ===== src/Bfcl/Tools.antt =====
-- The functions of a case of bench/bfcl.py (`class_functions`), their names, and the names in a ground
-- truth (`gt_names`).
use qwen38_flash_next_sglang.Prelude.{
  ℕ, Bool, false, ◌&&◌, ◌||◌, Option, none, some, List, [], ◌∷◌, ◌++◌, Text, codes, ◌=ₜ◌, is_space,
  ◌==◌, leb, if◌then◌else◌,
}
use qwen38_flash_next_sglang.Json.{
  Value, null, str, arr, obj, nil, Result, ok, err, type_error, ◌>>=◌, item, get, or_else, iterate,
  list_of,
}
use qwen38_flash_next_sglang.Bfcl.{plain_name}

-- CLASS_DOC
abbrev pub class_docs : List (Text × Text)
class_docs =
    (codes "GorillaFileSystem", codes "gorilla_file_system.json")
    ∷ (codes "MathAPI", codes "math_api.json")
    ∷ (codes "MessageAPI", codes "message_api.json")
    ∷ (codes "TwitterAPI", codes "posting_api.json")
    ∷ (codes "TicketAPI", codes "ticket_api.json")
    ∷ (codes "TradingBot", codes "trading_bot.json")
    ∷ (codes "TravelAPI", codes "travel_booking.json")
    ∷ (codes "VehicleControlAPI", codes "vehicle_control.json")
    ∷ []

unfoldable pub doc_name : List (Text × Text) → Text → Option Text
doc_name [] t = none
doc_name (e ∷ rest) t = let later = doc_name rest t in if e.0 =ₜ t then some e.1 else later

-- `CLASS_DOC.get(cls)`; a list or an object cannot be a key.
unfoldable pub doc_of : Value → Result (Option Text)
unfolding doc_name
doc_of (str t) = ok (doc_name class_docs t)
doc_of (arr vs) = err type_error
doc_of (obj fs) = err type_error
doc_of v = ok none

-- `read_doc name` holds the objects of a file's lines, and is empty where there is no file.
module _ (read_doc : Text → List Value) where
  abbrev pub read_some : Option Text → List Value
  read_some none = []
  read_some (some name) = read_doc name

  unfoldable pub docs_of : List Value → Result (List Value)
  unfolding doc_of
  docs_of [] = ok []
  docs_of (v ∷ vs) = do name ← doc_of v; rest ← docs_of vs; ok (read_some name ++ rest)

  unfoldable pub class_functions : Value → Result (List Value)
  unfolding docs_of iterate
  class_functions classes = do vs ← iterate (or_else classes (arr nil)); docs_of vs

  -- `fns`: what the case holds, or what its classes have
  abbrev pub listed : Value → Value → Result (List Value)
  listed null classes = class_functions classes
  listed (arr vs) classes = ok (list_of vs)
  listed v classes = ok (v ∷ [])

  unfoldable pub functions_of : Value → Result (List Value)
  unfolding class_functions get list_of
  functions_of body = do
    fns ← get (codes "function") null body
    classes ← get (codes "involved_classes") null body
    listed fns classes

-- A name in a set; a call's name is a text, so that the others are not found.
abbrev pub in_set : Value → Result (List Text)
in_set (str t) = ok (t ∷ [])
in_set (arr vs) = err type_error
in_set (obj fs) = err type_error
in_set v = ok []

-- `{t["function"]["name"] for t in tools}`
unfoldable pub tool_names : List Value → Result (List Text)
unfolding item
tool_names [] = ok []
tool_names (t ∷ ts) = do
  f ← item (codes "function") t
  n ← item (codes "name") f
  name ← in_set n
  rest ← tool_names ts
  ok (name ++ rest)

-- The pattern of `gt_names`. `word c` is `\w` on a character that is not ASCII.
module _ (word : ℕ → Bool) where
  abbrev pub is_letter : ℕ → Bool
  is_letter c = (leb 65 c && leb c 90) || (leb 97 c && leb c 122) || (c == 95)

  abbrev pub is_word : ℕ → Bool
  is_word c = if leb c 127 then is_letter c || (leb 48 c && leb c 57) else word c

  -- `\s*\(`, after a name
  unfoldable pub opens : Text → Bool
  opens [] = false
  opens (c ∷ cs) = if is_space c then opens cs else c == 40

  abbrev pub in_front : ℕ → Option Text → Option Text
  in_front c none = none
  in_front c (some t) = some (c ∷ t)

  -- The rest of the name: a shorter one would not be followed by a space or a parenthesis.
  unfoldable pub name_rest : Text → Option Text
  unfolding opens
  name_rest [] = none
  name_rest (c ∷ cs) =
      let rest = name_rest cs in
      if is_word c || (c == 46) then in_front c rest else if opens (c ∷ cs) then some [] else none

  unfoldable pub called_name : Text → Option Text
  unfolding name_rest
  called_name [] = none
  called_name (c ∷ cs) =
      let later = called_name cs in
      if is_space c then later else if is_letter c then in_front c (name_rest cs) else none

  abbrev pub plain_some : Option Text → List Text → List Text
  plain_some none names = names
  plain_some (some t) names = plain_name t ∷ names

  unfoldable pub gt_names : List Text → List Text
  unfolding called_name
  gt_names [] = []
  gt_names (c ∷ cs) = plain_some (called_name c) (gt_names cs)
