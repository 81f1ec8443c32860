-- ===== src/Bfcl.antt =====
-- bench/bfcl.py: the tool calls of a streamed answer, and their check against the ground truth of a
-- case. A ground truth is a function's name with, for each parameter, the values allowed.
pub mod Match
pub mod Merge
pub mod Schema
pub mod Fixed
pub mod Tools
pub mod Run
pub mod Cases
pub mod Report
pub mod Closed
pub mod Good
pub mod Totals
pub mod Accounts
mod Tests
mod RunTests
use qwen38_flash_next_sglang.Prelude.{
  ℕ, suc, ◌+◌, ◌≡◌, Bool, true, false, not, ◌&&◌, ◌||◌, Option, none, some, List, [], ◌∷◌, ◌++◌,
  map, length, any, all, Text, codes, ◌=ₜ◌, mem_text, replace_char, is_space, strip, ◌==◌,
  if◌then◌else◌,
}
use qwen38_flash_next_sglang.Prelude.Int.{ℤ}
use qwen38_flash_next_sglang.Json.{
  Value, null, bool, num, str, arr, obj, Items, nil, cons, Fields, end, field, list_of, find_field,
  as_number, eq_ℤ, is_text, same,
}

-- One entry of `tool_calls`: a part of the call with its index, or with its position if it has none.
pub record Fragment : Type 0 where
  pub index : Option ℕ
  pub name : Text
  pub arguments : Text

pub record Slot : Type 0 where
  pub name : Text
  pub args : Text

-- `merged`, in the order of insertion
abbrev pub Merged : Type 0
Merged = List (ℕ × Slot)

pub record Call : Type 0 where
  pub name : Text
  pub args : Fields

pub record Truth : Type 0 where
  pub name : Text
  pub allowed : Fields

pub data Problem : Type 0 where
  wrong_count : ℕ → ℕ → Problem
  unknown_function : Text → Problem
  no_match : Call → Problem

abbrev pub empty_slot : Slot
empty_slot = record { name = []; args = [] }

-- `merged.setdefault(idx, ...)`, and the change of the slot
unfoldable pub update : ℕ → (Slot → Slot) → Merged → Merged
update k f [] = (k, f empty_slot) ∷ []
update k f (entry ∷ rest) =
    let later = update k f rest in
    if entry.0 == k then (entry.0, f entry.1) ∷ rest else entry ∷ later

abbrev pub name_or : Text → Text → Text
name_or [] old = old
name_or (c ∷ cs) old = c ∷ cs

abbrev pub add_fragment : Fragment → Slot → Slot
add_fragment f s = record { name = name_or f.name s.name; args = s.args ++ f.arguments }

abbrev pub index_or : Option ℕ → ℕ → ℕ
index_or none i = i
index_or (some k) i = k

-- The loop over `tool_calls`, from position `i`.
unfoldable pub merge : ℕ → List Fragment → Merged → Merged
merge i [] merged = merged
merge i (f ∷ fs) merged = merge (suc i) fs (update (index_or f.index i) (add_fragment f) merged)

abbrev pub text_or : Text → Text → Text
text_or [] d = d
text_or (c ∷ cs) d = c ∷ cs

-- What `json.loads` gives, if an object.
abbrev pub object_of : Option Value → Option Fields
object_of (some (obj fs)) = some fs
object_of _ = none

abbrev pub args_or_empty : Option Fields → Fields
args_or_empty (some fs) = fs
args_or_empty none = end

abbrev pub is_bad : Option Fields → Bool
is_bad (some fs) = false
is_bad none = true

-- `loads t` is `none` where `json.loads` raises.
module _ (loads : Text → Option Value) where
  abbrev pub parsed : Slot → Option Fields
  parsed s = object_of (loads (text_or s.args (codes "{}")))

  abbrev pub call_of : ℕ × Slot → Call
  call_of entry = record { name = entry.1.name; args = args_or_empty (parsed entry.1) }

  -- The names of the calls whose arguments are bad.
  unfoldable pub bad_names : Merged → List Text
  bad_names [] = []
  bad_names (entry ∷ rest) =
      let later = bad_names rest in if is_bad (parsed entry.1) then entry.1.name ∷ later else later

  unfoldable pub parse_calls : List Fragment → List Call × List Text
  unfolding merge bad_names
  parse_calls tool_calls =
      let merged = merge 0 tool_calls [] in (map call_of merged, bad_names merged)

-- `re.sub(r"\s+", " ", text)`
unfoldable pub collapse : Bool → Text → Text
collapse in_space [] = []
collapse in_space (c ∷ cs) =
    let after_space = collapse true cs in
    let after_other = collapse false cs in
    if is_space c then (if in_space then after_space else 32 ∷ after_space) else c ∷ after_other

-- A parameter may be left out if the empty text is allowed.
abbrev pub allowed_list : Value → List Value
allowed_list (arr vs) = list_of vs
allowed_list v = v ∷ []

abbrev pub optional : Value → Bool
optional allowed = any (is_text []) (allowed_list allowed)

unfoldable pub has_key : Text → Fields → Bool
has_key k end = false
has_key k (field j v fs) = (j =ₜ k) || has_key k fs

-- `set(args) - set(gargs)` is empty.
unfoldable pub all_known : Fields → Fields → Bool
all_known end gargs = true
all_known (field k v args) gargs = has_key k gargs && all_known args gargs

abbrev pub plain_name : Text → Text
plain_name = replace_char 46 95

abbrev pub put_back : Truth → Option (Truth × List Truth) → Option (Truth × List Truth)
put_back g none = none
put_back g (some r) = some (r.0, g ∷ r.1)

-- `lower` is `str.lower`, and `float_text t` is `none` where `float` raises on the text.
module _ (lower : Text → Text) (float_text : Text → Option ℤ) where
  -- The keys of an object are not sorted here: comparing objects does not see their order.
  unfoldable mutual
    pub norm : Value → Value
    norm null = null
    norm (bool b) = bool b
    norm (num n) = num n
    norm (str t) = str (collapse false (replace_char 95 32 (lower (strip t))))
    norm (arr vs) = arr (norm_items vs)
    norm (obj fs) = obj (norm_fields fs)

    pub norm_items : Items → Items
    norm_items nil = nil
    norm_items (cons v vs) = cons (norm v) (norm_items vs)

    pub norm_fields : Fields → Fields
    norm_fields end = end
    norm_fields (field k v fs) = field k (norm v) (norm_fields fs)

  abbrev pub eq_float : Option ℤ → Option ℤ → Bool
  eq_float (some a) (some b) = eq_ℤ a b
  eq_float _ _ = false

  -- A number is matched by a text that reads as it.
  abbrev pub reads_as : Value → Value → Bool
  reads_as a (str got) = eq_float (float_text got) (as_number a)
  reads_as a got = false

  unfoldable pub value_ok : Value → Value → Bool
  unfolding norm collapse strip
  value_ok got allowed =
      any (λ a. same (norm a) (norm got) || reads_as a got) (allowed_list allowed)

  abbrev pub param_ok : Option Value → Value → Bool
  param_ok (some got) allowed = value_ok got allowed
  param_ok none allowed = optional allowed

  unfoldable pub params_ok : Fields → Fields → Bool
  unfolding value_ok
  params_ok args end = true
  params_ok args (field pname allowed gargs) =
      param_ok (find_field pname args) allowed && params_ok args gargs

  unfoldable pub fits : Call → Truth → Bool
  unfolding params_ok all_known has_key
  fits c g =
      (plain_name g.name =ₜ plain_name c.name)
      && (params_ok c.args g.allowed && all_known c.args g.allowed)

  -- The first ground truth that fits, and the others. `remove` takes the first one equal to it out,
  -- and that is the one found, since an equal one before it would have been found.
  unfoldable pub find_hit : Call → List Truth → Option (Truth × List Truth)
  find_hit c [] = none
  find_hit c (g ∷ gs) =
      let later = find_hit c gs in if fits c g then some (g, gs) else put_back g later

  unfoldable pub match_all : List Call → List Truth → List Text → Option Problem
  unfolding fits find_hit
  match_all [] remaining tool_names = none
  match_all (c ∷ cs) remaining tool_names =
      if mem_text c.name tool_names
      then elim (find_hit c remaining) [
        | none ↦ some (no_match c)
        | some r ↦ match_all cs r.1 tool_names
      ]
      else some (unknown_function c.name)

  -- `(True, [])` is `none`; `False` comes with one problem.
  unfoldable pub ast_match : List Call → List Truth → List Text → Option Problem
  unfolding match_all
  ast_match calls truths tool_names =
      if length calls == length truths
      then match_all calls truths tool_names
      else some (wrong_count (length truths) (length calls))
