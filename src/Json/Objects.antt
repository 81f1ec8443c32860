-- ===== src/Json/Objects.antt =====
-- Objects that the program builds: `d[k] = v`, `d.update(e)` and the literals of request bodies.
use qwen38_flash_next_sglang.Prelude.{
  ℕ, Option, none, some, List, [], ◌∷◌, Text, ◌=ₜ◌, if◌then◌else◌,
}
use qwen38_flash_next_sglang.Json.{
  Value, num, Items, nil, cons, Fields, end, field, whole, find_field,
}

-- `d[k] = v`: in place, or last if the key is new
unfoldable pub set_field : Text → Value → Fields → Fields
set_field k v end = field k v end
set_field k v (field j w fs) =
    let later = set_field k v fs in if j =ₜ k then field j v fs else field j w later

-- `d.update(e)`
unfoldable pub update_fields : Fields → Fields → Fields
unfolding set_field
update_fields fs end = fs
update_fields fs (field k v gs) = update_fields (set_field k v fs) gs

abbrev pub set_some : Text → Option Value → Fields → Fields
set_some k none fs = fs
set_some k (some v) fs = set_field k v fs

abbrev pub int : ℕ → Value
int n = num (whole n)

unfoldable pub items : List Value → Items
items [] = nil
items (v ∷ vs) = cons v (items vs)

-- `{k: d[k] for k in ks if k in d}`
unfoldable pub pick_fields : List Text → Fields → Fields
unfolding find_field
pick_fields [] fs = end
pick_fields (k ∷ ks) fs =
    let later = pick_fields ks fs in
    elim (find_field k fs) [ none ↦ later | some v ↦ field k v later ]
