-- ===== src/Bfcl/Fixed.antt =====
-- `conv_schema` of bench/bfcl.py leaves what it has made alone.
use qwen38_flash_next_sglang.Prelude.{
  ◌≡◌, refl, ap, inl, inr, ◌⊎◌, true, List, [], ◌∷◌, Text, codes, ◌=ₜ◌, =ₜ_iff, =ₜ_refl, Bool-cases,
  all, arith,
}
use mathlib.Core.Path.{subst}
use qwen38_flash_next_sglang.Json.{
  Value, null, bool, num, str, arr, obj, Fields, end, field, Result, ok,
}
use qwen38_flash_next_sglang.Bfcl.{has_key}
use qwen38_flash_next_sglang.Bfcl.Schema.{
  type_table, look_up, type_name, Kind, type_key, members_key, schema_key, dropped_key, plain_key,
  kind_of, named_type, with_field, entry, concat_fields, lacks_properties, no_properties,
  with_properties, conv_schema, conv_fields, conv_members, conv_values,
}
use qwen38_flash_next_sglang.Json.Steps.{bind_ok, ok-inj}

-- What a table gives is the default, or a value that a table gives for itself.
look_up-cases :
    (table whole : List (Text × Text)) (d t : Text)
    → all (λ e. look_up whole e.1 e.1 =ₜ e.1) table ≡ true
    → (look_up table d t ≡ d)
      ⊎ (look_up whole (look_up table d t) (look_up table d t) ≡ look_up table d t)
unfolding look_up
look_up-cases [] whole d t h = inl refl
look_up-cases (e ∷ rest) whole d t h = elim (Bool-cases (e.0 =ₜ t)) [
  | inl p ↦ rw p (inr ((=ₜ_iff _ _).0 (ground arith)))
  | inr p ↦ rw p (look_up-cases rest whole d t (ground arith))
]

type_name-fixed : (t : Text) → type_name (type_name t) ≡ type_name t
unfolding type_name look_up
type_name-fixed t = elim (look_up-cases type_table type_table t t refl) [
  | inl p ↦ ap type_name p
  | inr p ↦ p
]

has_key-last :
    (fs : Fields) (v : Value) (k : Text) → has_key k (concat_fields fs (field k v end)) ≡ true
unfolding has_key
has_key-last end v k = rw (=ₜ_refl k) refl
has_key-last (field j w fs) v k = rw (has_key-last fs v k) (ground arith)

with_properties-fixed : (out : Fields) → with_properties (with_properties out) ≡ with_properties out
unfolding with_properties lacks_properties
with_properties-fixed out = elim (Bool-cases (lacks_properties out)) [
  | inl p ↦ rw p (rw (has_key-last out (obj end) (codes "properties")) (ground arith))
  | inr p ↦ rw p (rw p refl)
]

concat_fields-end : (fs : Fields) → concat_fields fs end ≡ fs
concat_fields-end end = refl
concat_fields-end (field k v fs) = ap (field k v) (concat_fields-end fs)

with_field-ok :
    (k : Text) (v : Result Value) (rest : Result Fields) (out : Fields)
    → with_field k v rest ≡ ok out
    → (w : Value) × (fs : Fields) × (v ≡ ok w) × (rest ≡ ok fs) × (field k w fs ≡ out)
with_field-ok k v rest out h =
    let (w, v-w, h1) = bind_ok v _ h in
    let (fs, rest-fs, h2) = bind_ok rest _ h1 in (w, fs, v-w, rest-fs, ok-inj h2)

entry-fixed :
    (κ : Kind) (k : Text) (w : Value) (fs : Fields)
    → kind_of k ≡ κ
    → conv_fields fs ≡ ok fs
    → entry κ k w (conv_schema w) (conv_members w) (ok fs) ≡ ok (field k w fs)
    → conv_fields (field k w fs) ≡ ok (field k w fs)
unfolding conv_fields
entry-fixed κ k w fs p q r = rw p (rw q r)

named_type-fixed : (v : Value) → named_type (named_type v) ≡ named_type v
named_type-fixed (str t) = ap str (type_name-fixed t)
named_type-fixed null = refl
named_type-fixed (bool b) = refl
named_type-fixed (num n) = refl
named_type-fixed (arr vs) = refl
named_type-fixed (obj fs) = refl

-- A value that a field is converted to is converted to itself.
abbrev Settles : (Value → Result Value) → Result Value → Type 0
Settles conv v = (w : Value) → v ≡ ok w → conv w ≡ ok w

abbrev Stays : Fields → Fields → Type 0
Stays out gs = conv_fields (concat_fields out gs) ≡ ok (concat_fields out gs)

with_field-Stays :
    (κ : Kind) (k : Text) (v : Result Value) (rest : Result Fields) (gs out : Fields)
    → kind_of k ≡ κ
    → ((w : Value) (fs : Fields)
        → v ≡ ok w
        → entry κ k w (conv_schema w) (conv_members w) (ok fs) ≡ ok (field k w fs))
    → ((fs : Fields) → rest ≡ ok fs → Stays fs gs)
    → with_field k v rest ≡ ok out
    → Stays out gs
with_field-Stays κ k v rest gs out p same later h =
    let (w, fs, v-w, rest-fs, made) = with_field-ok k v rest out h in
    subst (λ o. Stays o gs) made
      (entry-fixed κ k w (concat_fields fs gs) p (later fs rest-fs) (same w _ v-w))

entry-Stays :
    (κ : Kind) (k : Text) (v : Value) (schema members : Result Value) (rest : Result Fields)
    (gs out : Fields)
    → kind_of k ≡ κ
    → Settles conv_schema schema
    → Settles conv_members members
    → ((fs : Fields) → rest ≡ ok fs → Stays fs gs)
    → entry κ k v schema members rest ≡ ok out
    → Stays out gs
entry-Stays type_key k v schema members rest gs out p s m later h =
    with_field-Stays type_key k (ok (named_type v)) rest gs out p
      (λ w fs e.
        subst (λ u. ok (field k (named_type u) fs) ≡ ok (field k u fs)) (ok-inj e)
          (ap (λ u. ok (field k u fs)) (named_type-fixed v)))
      later h
entry-Stays members_key k v schema members rest gs out p s m later h =
    with_field-Stays members_key k members rest gs out p (λ w fs e. rw (m w e) refl) later h
entry-Stays schema_key k v schema members rest gs out p s m later h =
    with_field-Stays schema_key k schema rest gs out p (λ w fs e. rw (s w e) refl) later h
entry-Stays dropped_key k v schema members rest gs out p s m later h = later out h
entry-Stays plain_key k v schema members rest gs out p s m later h =
    with_field-Stays plain_key k (ok v) rest gs out p (λ w fs e. refl) later h

fields-fixed :
    (out : Fields)
    → ((gs : Fields) → conv_fields gs ≡ ok gs → Stays out gs)
    → conv_fields (with_properties out) ≡ ok (with_properties out)
unfolding with_properties conv_fields
fields-fixed out stays = elim (Bool-cases (lacks_properties out)) [
  | inl p ↦ rw p (stays no_properties refl)
  | inr p ↦ rw p (subst (λ o. conv_fields o ≡ ok o) (concat_fields-end out) (stays end refl))
]

with_properties-Stays :
    (out : Fields)
    → ((gs : Fields) → conv_fields gs ≡ ok gs → Stays out gs)
    → conv_schema (obj (with_properties out)) ≡ ok (obj (with_properties out))
unfolding conv_schema
with_properties-Stays out stays =
    rw (fields-fixed out stays) (ap (λ o. ok (obj o)) (with_properties-fixed out))

mutual
  unfolding conv_schema conv_fields conv_members conv_values

  schema-fixed : (v w : Value) → conv_schema v ≡ ok w → conv_schema w ≡ ok w
  schema-fixed (obj fs) w h =
      let (out, made, e) = bind_ok (conv_fields fs) _ h in
      subst (λ u. conv_schema u ≡ ok u) (ok-inj e)
        (with_properties-Stays out (λ gs q. fields-Stays fs out gs made q))
  schema-fixed (str t) w h = subst (λ u. conv_schema u ≡ ok u) (ok-inj h) refl
  schema-fixed null w h = subst (λ u. conv_schema u ≡ ok u) (ok-inj h) refl
  schema-fixed (bool b) w h = subst (λ u. conv_schema u ≡ ok u) (ok-inj h) refl
  schema-fixed (num n) w h = subst (λ u. conv_schema u ≡ ok u) (ok-inj h) refl
  schema-fixed (arr vs) w h = subst (λ u. conv_schema u ≡ ok u) (ok-inj h) refl

  fields-Stays :
      (fs out gs : Fields) → conv_fields fs ≡ ok out → conv_fields gs ≡ ok gs → Stays out gs
  fields-Stays end out gs h q = subst (λ o. Stays o gs) (ok-inj h) q
  fields-Stays (field k v fs) out gs h q =
      entry-Stays (kind_of k) k v (conv_schema v) (conv_members v) (conv_fields fs) gs out refl
        (λ w e. schema-fixed v w e) (λ w e. members-fixed v w e) (λ o e. fields-Stays fs o gs e q) h

  members-fixed : (v w : Value) → conv_members v ≡ ok w → conv_members w ≡ ok w
  members-fixed (obj fs) w h =
      let (out, made, e) = bind_ok (conv_values fs) _ h in
      subst (λ u. conv_members u ≡ ok u) (ok-inj e) (rw (values-fixed fs out made) refl)
  members-fixed (str t) w h = cc
  members-fixed null w h = cc
  members-fixed (bool b) w h = cc
  members-fixed (num n) w h = cc
  members-fixed (arr vs) w h = cc

  values-fixed : (fs out : Fields) → conv_values fs ≡ ok out → conv_values out ≡ ok out
  values-fixed end out h = subst (λ o. conv_values o ≡ ok o) (ok-inj h) refl
  values-fixed (field k v fs) out h =
      let (w, gs, v-w, made, e) = with_field-ok k (conv_schema v) (conv_values fs) out h in
      subst (λ o. conv_values o ≡ ok o) e
        (rw (schema-fixed v w v-w) (rw (values-fixed fs gs made) refl))

-- A schema that `conv_schema` has made is left as it is by `conv_schema`.
conv_schema-fixed : (v w : Value) → conv_schema v ≡ ok w → conv_schema w ≡ ok w
conv_schema-fixed = schema-fixed
