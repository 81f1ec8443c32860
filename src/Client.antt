-- ===== src/Client.antt =====
-- bench/client.py: the request bodies, the checks before a request is sent, and the counts that are
-- read back. Times of `chat_stream` are in nanoseconds, those of `chat` in
-- microseconds, numbers of JSON in millionths.
pub mod Events
pub mod Calls
pub mod Lines
pub mod Chunks
pub mod InTime
pub mod Account
pub mod Limits
pub mod Metrics
mod Tests
use qwen38_flash_next_sglang.Prelude.{
  ℕ, ◌+◌, ◌*◌, ◌/◌, Bool, true, false, Option, none, some, List, [], ◌∷◌, Text, codes, has_sub, min,
  ltb, leb, ◌==◌, if◌then◌else◌,
}
use qwen38_flash_next_sglang.Prelude.Int.{ℤ, pos, negsuc, ltb_ℤ, sub_ℕ}
use qwen38_flash_next_sglang.Json.{
  Value, null, bool, num, str, arr, obj, Items, Fields, end, field, Result, ok, err, Error,
  value_error, runtime_error, type_error, ◌>>=◌, find_field, item, get, truth, or_else, is_none,
  size, as_number, whole,
}
use qwen38_flash_next_sglang.Json.Objects.{set_field, update_fields, set_some, int, pick_fields}

-- `text.rstrip("/")`
unfoldable pub drop_slashes : Text → Text
drop_slashes [] = []
drop_slashes (c ∷ cs) = elim (drop_slashes cs) [
  | [] ↦ if c == 47 then [] else c ∷ []
  | d ∷ ds ↦ c ∷ d ∷ ds
]

abbrev pub text_or : Option Text → Text → Text
text_or none d = d
text_or (some t) d = t

-- `base`, from `BASE`, and `model`, from `MODEL`
unfoldable pub base_url : Option Text → Text
unfolding drop_slashes
base_url setting = drop_slashes (text_or setting (codes "http://127.0.0.1:30000"))

unfoldable pub model_name : Option Text → Text
model_name setting = text_or setting (codes "qwen38-flash-next-nvfp4-mtp")

-- The arguments of `chat` and `chat_stream` that go into the body.
pub record Request : Type 0 where
  pub messages : Value
  pub max_tokens : ℕ
  pub temperature : Option Value
  pub thinking : Option Bool
  pub reasoning_effort : Option Text
  pub tools : Option Value
  pub extra : Fields

abbrev pub as_bool : Option Bool → Option Value
as_bool none = none
as_bool (some b) = some (bool b)

abbrev pub as_str : Option Text → Option Value
as_str none = none
as_str (some t) = some (str t)

abbrev pub nonempty_object : Fields → Option Value
nonempty_object end = none
nonempty_object (field k v fs) = some (obj (field k v fs))

-- `chat_template_kwargs`
abbrev pub template_kwargs : Request → Fields
template_kwargs r =
    set_some (codes "reasoning_effort") (as_str r.reasoning_effort)
      (set_some (codes "enable_thinking") (as_bool r.thinking) end)

-- The options that are set, and then the extra fields.
unfoldable pub with_options : Request → Fields → Fields
unfolding set_field update_fields
with_options r body =
    update_fields
      (set_some (codes "tools") r.tools (
        set_some (codes "chat_template_kwargs") (nonempty_object (template_kwargs r))
          (set_some (codes "temperature") r.temperature body)))
      r.extra

abbrev pub base_body : Text → Request → Fields → Fields
base_body model r rest =
    field (codes "model") (str model)
      (field (codes "messages") r.messages (field (codes "max_tokens") (int r.max_tokens) rest))

-- The body of `chat`.
unfoldable pub chat_body : Text → Request → Fields
unfolding with_options
chat_body model r = with_options r (base_body model r end)

-- The body of `chat_stream`.
unfoldable pub stream_body : Text → Request → Fields
unfolding with_options
stream_body model r = with_options r (
    base_body model r (
      field (codes "stream") (bool true)
        (field (codes "stream_options") (obj (field (codes "include_usage") (bool true) end)) end)))

-- `isinstance(v, list)` and its length
abbrev pub list_size : Value → Result (Option ℕ)
list_size (arr vs) = do n ← size (arr vs); ok (some n)
list_size v = ok none

abbrev pub counted : Value → Option ℕ → Value
counted null (some n) = int n
counted v n = v

-- `a > b`, where `a` is any value
abbrev pub number_exceeds : Value → ℤ → Result Bool
number_exceeds a b = elim (as_number a) [ none ↦ err type_error | some n ↦ ok (ltb_ℤ b n) ]

abbrev pub raise_if : Error → Bool → Result (Unit {0})
raise_if e true = err e
raise_if e false = ok tt

-- The keys that the preflight passes on.
abbrev pub preflight_keys : List Text
preflight_keys =
    codes "tools"
    ∷ codes "chat_template_kwargs"
    ∷ codes "reasoning_effort"
    ∷ codes "tool_choice"
    ∷ []

-- The token count that the server reports: `count`, else `num_tokens`, else the length of `tokens`.
unfoldable pub reported_count : Value → Result Value
unfolding get size
reported_count reply = do
  fallback ← get (codes "num_tokens") null reply
  count ← get (codes "count") fallback reply
  tokens ← get (codes "tokens") null reply
  n ← list_size tokens
  ok (counted count n)

abbrev pub unchecked_if : Bool → Result (Unit {0})
unchecked_if = raise_if runtime_error

-- `tokenize` is the server's answer to a body, and `parse_int` is `int` of a text.
module _ (tokenize : Fields → Result Value) (parse_int : Text → Result ℤ) where
  abbrev pub preflight : Fields → Text → Result (Unit {0})
  preflight body limit = do
    model ← item (codes "model") (obj body)
    messages ← item (codes "messages") (obj body)
    reply ← tokenize (
        field (codes "model") model
          (field (codes "messages") messages (pick_fields preflight_keys body)))
    count ← reported_count reply
    _checked ← unchecked_if (is_none count)
    ceiling ← parse_int limit
    over ← number_exceeds count ceiling
    raise_if value_error over

  abbrev pub when_set : Text → (Text → Result (Unit {0})) → Result (Unit {0})
  when_set [] f = ok tt
  when_set (c ∷ cs) f = f (c ∷ cs)

  -- `MAX_PROMPT_TOKENS`, if it is set and not empty
  unfoldable pub check_prompt : Option Text → Fields → Result (Unit {0})
  unfolding pick_fields reported_count item is_none
  check_prompt none body = ok tt
  check_prompt (some limit) body = when_set limit (preflight body)

-- `int(v)`, as a number of ones; a number is cut towards zero.
unfoldable pub to_int : (Text → Result ℤ) → Value → Result ℤ
to_int parse_int (num (pos n)) = ok (pos (n / 1000000))
to_int parse_int (num (negsuc n)) = ok (sub_ℕ 0 ((n + 1) / 1000000))
to_int parse_int (bool true) = ok (pos 1)
to_int parse_int (bool false) = ok (pos 0)
to_int parse_int (str t) = parse_int t
to_int parse_int _ = err type_error

abbrev pub zero_int : Value
zero_int = int 0

abbrev pub empty_object : Value
empty_object = obj end

unfoldable pub nested_tokens : (Text → Result ℤ) → Value → Result ℤ
unfolding to_int get truth
nested_tokens parse_int usage = do
  details ← get (codes "completion_tokens_details") null usage
  nested ← get (codes "reasoning_tokens") null (or_else details empty_object)
  to_int parse_int (or_else nested zero_int)

-- At the top level of `usage`, else under `completion_tokens_details`, else 0.
unfoldable pub reasoning_tokens : (Text → Result ℤ) → Value → Result ℤ
unfolding nested_tokens
reasoning_tokens parse_int usage = do
  top ← get (codes "reasoning_tokens") null (or_else usage empty_object)
  if truth top then to_int parse_int top else nested_tokens parse_int (or_else usage empty_object)

-- How long a request may take, and whether an alarm interrupts it.
pub record Bounded : Type 0 where
  pub timeout : ℤ
  pub alarm : Bool

abbrev pub min_ℤ : ℤ → ℤ → ℤ
min_ℤ a b = if ltb_ℤ b a then b else a

abbrev pub shortest : ℤ → Option ℤ → ℤ
shortest seconds none = seconds
shortest seconds (some timeout) = min_ℤ seconds timeout

abbrev pub bounded_by : Bool → ℤ → Result Bounded
bounded_by on_main seconds =
    if ltb_ℤ (pos 0) seconds
    then ok (record { timeout = seconds; alarm = on_main })
    else err value_error

-- `bounded_request`: the time a call is given, from `REQUEST_TIMEOUT` and the argument `timeout`. An
-- alarm is set on the main thread only. `float_text` is `float` of a text.
unfoldable pub bounded_request : (Text → Result ℤ) → Option Text → Option ℤ → Bool → Result Bounded
bounded_request float_text setting timeout on_main = do
  seconds ← float_text (text_or setting (codes "300"))
  bounded_by on_main (shortest seconds timeout)
