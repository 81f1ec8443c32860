-- ===== src/Client/Limits.antt =====
-- The limits that bench/client.py sets before it sends a request.
use mathlib.Core.Path.{subst}
use qwen38_flash_next_sglang.Prelude.{
  ℕ, ◌≡◌, refl, sym, ap, ◌∙◌, inl, inr, Bool, true, false, Option, none, some, List, [], ◌∷◌, Text,
  codes, Bool-cases, Option-cases, mem_text, ◌=ₜ◌, =ₜ_iff, if◌then◌else◌, arith,
}
use qwen38_flash_next_sglang.Prelude.Int.{ℤ, pos, ◌≤ℤ◌, ltb_ℤ}
use qwen38_flash_next_sglang.Json.{
  Error, type_error, value_error, Value, Fields, obj, field, Result, ok, err, item, as_number,
  is_none, find_field, or_key_error,
}
use qwen38_flash_next_sglang.Json.Objects.{pick_fields}
use qwen38_flash_next_sglang.Client.{
  check_prompt, preflight_keys, reported_count, number_exceeds, raise_if, unchecked_if, Bounded,
  bounded_request, bounded_by, shortest, text_or,
}
use qwen38_flash_next_sglang.Json.Steps.{bind_ok, ok-inj}

-- Two objects have the same at a key, or neither has it.
abbrev pub Agree : Fields → Fields → Text → Type 0
Agree fs gs k = find_field k fs ≡ find_field k gs

-- The server has counted the prompt of the request, with its model, its messages and its tools, and the
-- count is within the ceiling.
pub record WithinCeiling (tokenize : Fields → Result Value) (parse_int : Text → Result ℤ)
    (limit : Text) (body : Fields) : Type 0 where
  pub asked : Fields
  pub same_model : Agree asked body (codes "model")
  pub same_messages : Agree asked body (codes "messages")
  pub same_tools : Agree asked body (codes "tools")
  pub same_template : Agree asked body (codes "chat_template_kwargs")
  pub same_effort : Agree asked body (codes "reasoning_effort")
  pub same_choice : Agree asked body (codes "tool_choice")
  pub reply : Value
  pub answered : tokenize asked ≡ ok reply
  pub count : Value
  pub counted : reported_count reply ≡ ok count
  pub number : ℤ
  pub is_number : as_number count ≡ some number
  pub ceiling : ℤ
  pub is_ceiling : parse_int limit ≡ ok ceiling
  pub within : number ≤ℤ ceiling

not_over : (a b : ℤ) → ltb_ℤ b a ≡ false → a ≤ℤ b
not_over a b h = ground arith

raise_if-ok : (e : Error) (b : Bool) (u : Unit {0}) → raise_if e b ≡ ok u → b ≡ false
raise_if-ok e true u h = cc
raise_if-ok e false u h = refl

number_exceeds-false :
    (v : Value) (b : ℤ)
    → number_exceeds v b ≡ ok false
    → (n : ℤ) × (as_number v ≡ some n) × (n ≤ℤ b)
number_exceeds-false v b h = by_number (as_number v) refl h
  where
    by_number :
        (o : Option ℤ)
        → as_number v ≡ o
        → elim o [ none ↦ err type_error | some n ↦ ok (ltb_ℤ b n) ] ≡ ok false
        → (n : ℤ) × (as_number v ≡ some n) × (n ≤ℤ b)
    by_number none e h = cc
    by_number (some n) e h = (n, e, not_over n b (ok-inj h))

item-found :
    (k : Text) (fs : Fields) (v : Value) → item k (obj fs) ≡ ok v → find_field k fs ≡ some v
unfolding item
item-found k fs v h = by_found (find_field k fs) h
  where
    by_found : (o : Option Value) → or_key_error o ≡ ok v → o ≡ some v
    by_found none h = cc
    by_found (some w) h = ap some (ok-inj h)

pick_fields-absent :
    (j : Text) (ks : List Text) (fs : Fields)
    → find_field j fs ≡ none
    → pick_fields (j ∷ ks) fs ≡ pick_fields ks fs
unfolding pick_fields
pick_fields-absent j ks fs e = rw (e, pick_fields) refl

pick_fields-present :
    (j : Text) (ks : List Text) (fs : Fields) (v : Value)
    → find_field j fs ≡ some v
    → pick_fields (j ∷ ks) fs ≡ field j v (pick_fields ks fs)
unfolding pick_fields
pick_fields-present j ks fs v e = rw (e, pick_fields) refl

first_field :
    (k j : Text) (v : Value) (fs : Fields)
    → ((j =ₜ k) ≡ true → find_field k (field j v fs) ≡ some v)
      × ((j =ₜ k) ≡ false → find_field k (field j v fs) ≡ find_field k fs)
unfolding find_field
first_field k j v fs = (λ p. rw p refl, λ p. rw p refl)

same_key : (j k : Text) (fs : Fields) → (j =ₜ k) ≡ true → find_field j fs ≡ find_field k fs
same_key j k fs p = ap (λ t. find_field t fs) ((=ₜ_iff j k).0 p)

pick_fields-none :
    (k : Text) (ks : List Text) (fs : Fields)
    → find_field k fs ≡ none
    → find_field k (pick_fields ks fs) ≡ none
unfolding pick_fields
pick_fields-none k [] fs h = unfold find_field in refl
pick_fields-none k (j ∷ ks) fs h = elim (Option-cases (find_field j fs)) [
  | inl e ↦ ap (find_field k) (pick_fields-absent j ks fs e) ∙ pick_fields-none k ks fs h
  | inr (v, e) ↦ elim (Bool-cases (j =ₜ k)) [
    | inl p ↦ cc (sym e ∙ (same_key j k fs p ∙ h))
    | inr p ↦
        ap (find_field k) (pick_fields-present j ks fs v e)
        ∙ ((first_field k j v (pick_fields ks fs)).1 p ∙ pick_fields-none k ks fs h)
  ]
]

-- A key that is among those picked has what it had.
pick_fields-kept :
    (k : Text) (ks : List Text) (fs : Fields)
    → mem_text k ks ≡ true
    → find_field k (pick_fields ks fs) ≡ find_field k fs
pick_fields-kept k [] fs h = cc
pick_fields-kept k (j ∷ ks) fs h = elim (Bool-cases (j =ₜ k)) [
  | inl p ↦ elim (Option-cases (find_field j fs)) [
    | inl e ↦
        let gone = sym (same_key j k fs p) ∙ e in
        ap (find_field k) (pick_fields-absent j ks fs e)
        ∙ (pick_fields-none k ks fs gone ∙ sym gone)
    | inr (v, e) ↦
        ap (find_field k) (pick_fields-present j ks fs v e)
        ∙ ((first_field k j v (pick_fields ks fs)).0 p ∙ (sym e ∙ same_key j k fs p))
  ]
  | inr p ↦ elim (Option-cases (find_field j fs)) [
    | inl e ↦
        ap (find_field k) (pick_fields-absent j ks fs e)
        ∙ pick_fields-kept k ks fs (ground (arith, h, p))
    | inr (v, e) ↦
        ap (find_field k) (pick_fields-present j ks fs v e)
        ∙ ((first_field k j v (pick_fields ks fs)).1 p
            ∙ pick_fields-kept k ks fs (ground (arith, h, p)))
  ]
]

-- Where a ceiling is set and not empty, a request passes the check only if the server's tokenizer, asked
-- about the model and the messages of the request, and about its tools, its tool choice, its template
-- arguments and its reasoning effort where it has them, answered with a number that is at most the
-- ceiling.
pub check_prompt-WithinCeiling :
    (tokenize : Fields → Result Value) (parse_int : Text → Result ℤ) (c : ℕ) (cs : Text)
    (body : Fields) (u : Unit {0})
    → check_prompt tokenize parse_int (some (c ∷ cs)) body ≡ ok u
    → WithinCeiling tokenize parse_int (c ∷ cs) body
unfolding check_prompt item find_field
check_prompt-WithinCeiling tokenize parse_int c cs body u h =
    let (model, m, h1) = bind_ok (item (codes "model") (obj body)) _ h in
    let (messages, ms, h2) = bind_ok (item (codes "messages") (obj body)) _ h1 in
    let (reply, p, h3) =
      bind_ok
        (tokenize (
          field (codes "model") model
            (field (codes "messages") messages (pick_fields preflight_keys body))))
        _ h2 in
    let (count, q, h4) = bind_ok (reported_count reply) _ h3 in
    let (_, _, h5) = bind_ok (unchecked_if (is_none count)) _ h4 in
    let (ceiling, r, h6) = bind_ok (parse_int (c ∷ cs)) _ h5 in
    let (over, t, h7) = bind_ok (number_exceeds count ceiling) _ h6 in
    let within =
      number_exceeds-false count ceiling (t ∙ ap ok (raise_if-ok value_error over u h7)) in
    record {
      asked =
          field (codes "model") model
            (field (codes "messages") messages (pick_fields preflight_keys body));
      same_model = sym (item-found (codes "model") body model m);
      same_messages = sym (item-found (codes "messages") body messages ms);
      same_tools = pick_fields-kept (codes "tools") preflight_keys body refl;
      same_template = pick_fields-kept (codes "chat_template_kwargs") preflight_keys body refl;
      same_effort = pick_fields-kept (codes "reasoning_effort") preflight_keys body refl;
      same_choice = pick_fields-kept (codes "tool_choice") preflight_keys body refl;
      reply = reply;
      answered = p;
      count = count;
      counted = q;
      number = within.0;
      is_number = within.1;
      ceiling = ceiling;
      is_ceiling = r;
      within = within.2;
    }

abbrev pub AtMost : Option ℤ → ℤ → Type 0
AtMost none s = Unit {0}
AtMost (some t) s = s ≤ℤ t

shortest_bounds :
    (s : ℤ) (timeout : Option ℤ) → (shortest s timeout ≤ℤ s) × AtMost timeout (shortest s timeout)
shortest_bounds s none = (omega arith, tt)
shortest_bounds s (some t) = elim (Bool-cases (ltb_ℤ t s)) [
  | inl p ↦ rw p (ground arith)
  | inr p ↦ rw p (ground arith)
]

-- What a call is given.
pub record Given (s : ℤ) (timeout : Option ℤ) (on_main : Bool) (b : Bounded) : Type 0 where
  positive : ltb_ℤ (pos 0) b.timeout ≡ true
  in_setting : b.timeout ≤ℤ s
  in_call : AtMost timeout b.timeout
  alarmed : b.alarm ≡ on_main

bounded_by-Given :
    (on_main : Bool) (t : ℤ) (b : Bounded)
    → bounded_by on_main t ≡ ok b
    → (ltb_ℤ (pos 0) t ≡ true) × (record { timeout = t; alarm = on_main } ≡ b)
bounded_by-Given on_main t b h = by_test (ltb_ℤ (pos 0) t) refl h
  where
    by_test :
        (c : Bool)
        → ltb_ℤ (pos 0) t ≡ c
        → (if c then ok (record { timeout = t; alarm = on_main }) else err value_error) ≡ ok b
        → (ltb_ℤ (pos 0) t ≡ true) × (record { timeout = t; alarm = on_main } ≡ b)
    by_test true e h = (e, ok-inj h)
    by_test false e h = cc

-- A call that is made at all is given a positive time, at most the setting of the environment, or
-- 300 seconds without one, and at most the timeout passed to it; on the main thread an alarm is set.
bounded_request-Given :
    (float_text : Text → Result ℤ) (setting : Option Text) (timeout : Option ℤ) (on_main : Bool)
    (b : Bounded)
    → bounded_request float_text setting timeout on_main ≡ ok b
    → (s : ℤ) × (float_text (text_or setting (codes "300")) ≡ ok s) × Given s timeout on_main b
unfolding bounded_request
bounded_request-Given float_text setting timeout on_main b h =
    let (s, p, h1) = bind_ok (float_text (text_or setting (codes "300"))) _ h in
    let (positive, e) = bounded_by-Given on_main (shortest s timeout) b h1 in
    let bounds = shortest_bounds s timeout in
    (
      s,
      p,
      subst (Given s timeout on_main) e (record {
        positive = positive;
        in_setting = bounds.0;
        in_call = bounds.1;
        alarmed = refl;
      }),
    )
