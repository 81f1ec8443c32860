-- ===== src/Bfcl/Schema.antt =====
-- `conv_schema` and `to_tools` of bench/bfcl.py: the functions of a case as tools of a request.
use qwen38_flash_next_sglang.Prelude.{
  Bool, false, not, ◌&&◌, ◌||◌, Option, none, some, List, [], ◌∷◌, Text, codes, ◌=ₜ◌, take,
  if◌then◌else◌,
}
use qwen38_flash_next_sglang.Json.{
  Value, null, str, arr, obj, Fields, end, field, Result, ok, err, attribute_error, type_error,
  ◌>>=◌, item, get, or_else, truth, find_field, is_text, list_of,
}
use qwen38_flash_next_sglang.Json.Objects.{items}
use qwen38_flash_next_sglang.Bfcl.{has_key}

-- TYPE_MAP
abbrev pub type_table : List (Text × Text)
type_table =
    (codes "dict", codes "object")
    ∷ (codes "float", codes "number")
    ∷ (codes "integer", codes "integer")
    ∷ (codes "string", codes "string")
    ∷ (codes "boolean", codes "boolean")
    ∷ (codes "array", codes "array")
    ∷ (codes "tuple", codes "array")
    ∷ (codes "any", codes "string")
    ∷ []

-- `table.get(t, t)`
unfoldable pub look_up : List (Text × Text) → Text → Text → Text
look_up [] d t = d
look_up (e ∷ rest) d t = if e.0 =ₜ t then e.1 else look_up rest d t

unfoldable pub type_name : Text → Text
unfolding look_up
type_name t = look_up type_table t t

-- What the key of a schema asks for.
pub data Kind : Type 0 where
  type_key members_key schema_key dropped_key plain_key : Kind

unfoldable pub kind_of : Text → Kind
kind_of k =
    if k =ₜ codes "type"
    then type_key
    else if (k =ₜ codes "properties") || (k =ₜ codes "$defs")
    then members_key
    else if k =ₜ codes "items"
    then schema_key
    else if k =ₜ codes "default"
    then dropped_key
    else plain_key

abbrev pub named_type : Value → Value
named_type (str t) = str (type_name t)
named_type v = v

-- `out[k] = v`, of a key that `out` does not have, and the fields after it
abbrev pub with_field : Text → Result Value → Result Fields → Result Fields
with_field k v rest = v >>= (λ w. rest >>= (λ fs. ok (field k w fs)))

-- One entry, from the value as it is, as a schema, and as an object of schemas.
abbrev pub entry : Kind → Text → Value → Result Value → Result Value → Result Fields → Result Fields
entry type_key k v schema members rest = with_field k (ok (named_type v)) rest
entry members_key k v schema members rest = with_field k members rest
entry schema_key k v schema members rest = with_field k schema rest
entry dropped_key k v schema members rest = rest
entry plain_key k v schema members rest = with_field k (ok v) rest

abbrev pub concat_fields : Fields → Fields → Fields
concat_fields end gs = gs
concat_fields (field k v fs) gs = field k v (concat_fields fs gs)

-- `out.get("type") == "object" and "properties" not in out`
abbrev pub is_object_type : Option Value → Bool
is_object_type none = false
is_object_type (some v) = is_text (codes "object") v

unfoldable pub lacks_properties : Fields → Bool
unfolding find_field has_key
lacks_properties out =
    is_object_type (find_field (codes "type") out) && not (has_key (codes "properties") out)

abbrev pub no_properties : Fields
no_properties = field (codes "properties") (obj end) end

unfoldable pub with_properties : Fields → Fields
unfolding lacks_properties
with_properties out = if lacks_properties out then concat_fields out no_properties else out

unfoldable mutual
  unfolding kind_of type_name with_properties

  pub conv_schema : Value → Result Value
  conv_schema (obj fs) = conv_fields fs >>= (λ out. ok (obj (with_properties out)))
  conv_schema v = ok v

  pub conv_fields : Fields → Result Fields
  conv_fields end = ok end
  conv_fields (field k v fs) =
      entry (kind_of k) k v (conv_schema v) (conv_members v) (conv_fields fs)

  -- `{pk: conv_schema(pv) for pk, pv in v.items()}`
  pub conv_members : Value → Result Value
  conv_members (obj fs) = conv_values fs >>= (λ gs. ok (obj gs))
  conv_members v = err attribute_error

  pub conv_values : Fields → Result Fields
  conv_values end = ok end
  conv_values (field k v fs) = with_field k (conv_schema v) (conv_values fs)

-- `d.setdefault(k, v)`
unfoldable pub set_default : Text → Value → Value → Result Value
unfolding has_key
set_default k v (obj fs) = ok (obj (if has_key k fs then fs else concat_fields fs (field k v end)))
set_default k v d = err attribute_error

-- `v[:1024]`
unfoldable pub cut : Value → Result Value
unfolding items list_of
cut (str t) = ok (str (take 1024 t))
cut (arr vs) = ok (arr (items (take 1024 (list_of vs))))
cut v = err type_error

abbrev pub no_parameters : Value
no_parameters = obj (field (codes "type") (str (codes "object")) no_properties)

unfoldable pub to_tool : Value → Result Value
unfolding conv_schema set_default cut get item truth
to_tool fn = do
  given ← get (codes "parameters") null fn
  schema ← conv_schema (or_else given no_parameters)
  typed ← set_default (codes "type") (str (codes "object")) schema
  params ← set_default (codes "properties") (obj end) typed
  name ← item (codes "name") fn
  description ← get (codes "description") null fn
  short ← cut (or_else description (str []))
  ok (
      obj (
        field (codes "type") (str (codes "function")) (
          field (codes "function")
            (obj (
              field (codes "name") name
                (field (codes "description") short (field (codes "parameters") params end))))
            end)))

unfoldable pub to_tools : List Value → Result (List Value)
unfolding to_tool
to_tools [] = ok []
to_tools (fn ∷ fns) = do tool ← to_tool fn; tools ← to_tools fns; ok (tool ∷ tools)
