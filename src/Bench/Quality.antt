-- ===== src/Bench/Quality.antt =====
-- bench/quality.py. `ask n messages` is the reply of `chat` to the request `n` of the run; the options
-- of the requests are fixed. The texts of the details, and the image, are left out.
use qwen38_flash_next_sglang.Prelude.{
  ℕ, suc, ◌+◌, Bool, false, ◌&&◌, ◌||◌, Option, none, some, List, [], ◌∷◌, ◌++◌, any, length, Text,
  codes, ◌=ₜ◌, has_sub, starts_with, drop, strip, ◌==◌, if◌then◌else◌,
}
use qwen38_flash_next_sglang.Prelude.Int.{pos}
use qwen38_flash_next_sglang.Json.{
  Value, null, bool, num, str, arr, obj, Fields, end, field, Result, ok, err, attribute_error,
  type_error, ◌>>=◌, get, iterate, or_else, is_text,
}
use qwen38_flash_next_sglang.Json.Objects.{items}
use qwen38_flash_next_sglang.Client.{empty_object}
use qwen38_flash_next_sglang.Client.Events.{empty_text}
use qwen38_flash_next_sglang.Client.Calls.{ChatReply, get_or}
use qwen38_flash_next_sglang.Bench.{Grading, graded, has_code, both_texts}

-- A row of `ok`; `more` are its keys after the detail.
pub record Row : Type 0 where
  pub name : Text
  pub passed : Bool
  pub more : Fields

unfoldable pub row_value : Row → Value
row_value r = obj (field (codes "name") (str r.name) (field (codes "pass") (bool r.passed) r.more))

abbrev pub row_grading : Grading Row
row_grading = record { value = row_value; passed = λ r. r.passed }

abbrev pub row : Text → Bool → Fields → Row
row name passed more = record { name = name; passed = passed; more = more }

abbrev pub message : Text → Value → Value
message role content = obj (field (codes "role") (str role) (field (codes "content") content end))

abbrev pub user : Text → Value
user t = message (codes "user") (str t)

-- A method of `str` on a value
abbrev pub text_of : Value → Result Text
text_of (str t) = ok t
text_of v = err attribute_error

-- An operand of `+` between texts
abbrev pub operand : Value → Result Text
operand (str t) = ok t
operand v = err type_error

abbrev pub seconds_of : ChatReply → Fields → Fields
seconds_of r more = field (codes "seconds") (num (pos r.seconds)) more

-- The text after the first `sub`, and the one before it
unfoldable pub after_first : Text → Text → Option Text
after_first sub [] = none
after_first sub (c ∷ cs) =
    let later = after_first sub cs in
    if starts_with (c ∷ cs) sub then some (drop (length sub) (c ∷ cs)) else later

unfoldable pub before_first : Text → Text → Text
before_first sub [] = []
before_first sub (c ∷ cs) =
    let later = before_first sub cs in if starts_with (c ∷ cs) sub then [] else c ∷ later

abbrev pub without_tag : Text → Text
without_tag code = if starts_with code (codes "python") then drop 6 code else code

abbrev pub fenced : Text → Option Text → Text
fenced code none = code
fenced code (some rest) = strip (without_tag (before_first (codes "```") rest))

-- The code of an answer, out of its fence
unfoldable pub code_text : Text → Text
unfolding after_first before_first strip
code_text content = let code = strip content in fenced code (after_first (codes "```") code)

unfoldable pub ends_with : Text → Text → Bool
ends_with [] suffix = [] =ₜ suffix
ends_with (c ∷ cs) suffix = ((c ∷ cs) =ₜ suffix) || ends_with cs suffix

-- `fn.get("name") or tc.get("name")`
unfoldable pub tool_name : Value → Result Value
unfolding get
tool_name tc = do
  fn ← get_or (codes "function") empty_object tc
  n ← get (codes "name") null fn
  m ← get (codes "name") null tc
  ok (or_else n m)

unfoldable pub names_of : List Value → Result (List Value)
unfolding tool_name
names_of [] = ok []
names_of (tc ∷ tcs) = do n ← tool_name tc; rest ← names_of tcs; ok (n ∷ rest)

-- What the child prints and its exit code, or `none` if it cannot be run in time
abbrev pub prints_42 : Option (Text × ℕ) → Bool
prints_42 none = false
prints_42 (some (out, code)) = (code == 0) && ends_with (strip out) (codes "42")

abbrev pub either_text : ChatReply → Value
either_text r = or_else r.content r.reasoning

abbrev pub both_of : ChatReply → Result Text
both_of r = do
  content ← operand (or_else r.content empty_text)
  reasoning ← operand (or_else r.reasoning empty_text)
  ok (both_texts content reasoning)

module _ (ask : ℕ → List Value → Result ChatReply) where
  unfoldable pub math_smoke : Result Row
  unfolding strip
  math_smoke = do
    r ← ask 0 (user (codes "12*17") ∷ [])
    text ← text_of (either_text r)
    ok (
        row (codes "math_12x17") (has_sub (codes "204") (strip text))
          (seconds_of r (field (codes "completion_tokens") r.completion_tokens end)))

  unfoldable pub tool_smoke : Result Row
  unfolding iterate names_of items
  tool_smoke = do
    r ← ask 1 (user (codes "What's the weather in Beijing in celsius?") ∷ [])
    tool_calls ← iterate r.tool_calls
    names ← names_of tool_calls
    ok (
        row (codes "tool_weather") (any (is_text (codes "get_weather")) names)
          (seconds_of r (field (codes "tool_names") (arr (items names)) end)))

  -- `run code` is a run of the code with the line that prints `add(19, 23)`.
  unfoldable pub code_exec_smoke : (Text → Option (Text × ℕ)) → Result Row
  unfolding code_text ends_with
  code_exec_smoke run = do
    r ← ask 2 (
        user (
          codes
            "Write a Python function named add(a, b) that returns a+b. Reply with the function only, no markdown fences.")
        ∷ [])
    content ← text_of r.content
    ok (row (codes "code_exec_add") (prints_42 (run (code_text content))) (seconds_of r end))

  abbrev pub assistant : Value → Value
  assistant = message (codes "assistant")

  -- The conversation of `multiturn_fact` after the first, the second and the third answer
  abbrev pub fact_turn : List Value
  fact_turn =
      user (
        codes
          "Remember this invented fact for later turns: The access code for project NIGHTINGALE is 7K-QUARTZ-19. Reply with only OK.")
      ∷ []

  abbrev pub primes_turn : ChatReply → List Value
  primes_turn r1 =
      fact_turn
      ++ assistant (or_else r1.content (str (codes "OK")))
        ∷ user (codes "List two prime numbers greater than 20.")
        ∷ []

  abbrev pub product_turn : ChatReply → ChatReply → List Value
  product_turn r1 r2 =
      primes_turn r1 ++ assistant r2.content ∷ user (codes "What is 9 times 8?") ∷ []

  abbrev pub code_turn : ChatReply → ChatReply → ChatReply → List Value
  code_turn r1 r2 r3 =
      product_turn r1 r2
      ++ assistant r3.content
        ∷ user (codes "What is the access code for project NIGHTINGALE? Reply with the code only.")
        ∷ []

  unfoldable pub multiturn_fact : Result Row
  unfolding has_code
  multiturn_fact = do
    r1 ← ask 3 fact_turn
    r2 ← ask 4 (primes_turn r1)
    r3 ← ask 5 (product_turn r1 r2)
    r4 ← ask 6 (code_turn r1 r2 r3)
    text ← both_of r4
    ok (
        row (codes "multiturn_fact") (has_code text) (
          field (codes "seconds") (num (pos (r1.seconds + r2.seconds + r3.seconds + r4.seconds)))
            end))

  -- `lower` is `str.lower`, and `image` the message with the picture of four quadrants.
  unfoldable pub vision_smoke : (Text → Text) → Value → Result Row
  vision_smoke lower image = do
    r ← ask 7 (image ∷ [])
    text ← text_of (either_text r)
    ok (row (codes "vision_quadrant") (has_sub (codes "yellow") (lower text)) (seconds_of r end))

  abbrev pub change_question : Text
  change_question =
      codes
        "A shop sells pens at $3 and notebooks at $7. If I buy 4 pens and 2 notebooks and pay with a $50 bill, what is my change? Reply with the integer dollar amount only."

  abbrev pub efforts : List Text
  efforts =
      codes "effort_default"
      ∷ codes "effort_low_kwarg"
      ∷ codes "effort_medium_kwarg"
      ∷ codes "effort_xhigh_kwarg"
      ∷ codes "effort_low_toplevel"
      ∷ codes "effort_xhigh_toplevel"
      ∷ codes "effort_thinking_off"
      ∷ []

  unfoldable pub effort_row : ℕ → Text → Result Row
  effort_row n name = do
    r ← ask n (user change_question ∷ [])
    text ← text_of (or_else r.content empty_text)
    ok (
        row name (has_sub (codes "24") text) (
          seconds_of r (
            field (codes "completion_tokens") r.completion_tokens
              (field (codes "reasoning_tokens") (num r.reasoning_tokens) end))))

  unfoldable pub effort_sweep : ℕ → List Text → Result (List Row)
  unfolding effort_row
  effort_sweep n [] = ok []
  effort_sweep n (name ∷ names) = do
    r ← effort_row n name
    rest ← effort_sweep (suc n) names
    ok (r ∷ rest)

  abbrev pub sweep_if : Bool → Result (List Row)
  sweep_if effort = if effort then effort_sweep 8 efforts else ok []

  unfoldable pub quality_main :
      (Text → Option (Text × ℕ)) → (Text → Text) → Value → Bool → Result (Value × ℕ)
  unfolding math_smoke tool_smoke code_exec_smoke multiturn_fact vision_smoke effort_sweep graded
  quality_main run lower image effort = do
    math ← math_smoke
    tool ← tool_smoke
    code ← code_exec_smoke run
    fact ← multiturn_fact
    vision ← vision_smoke lower image
    swept ← sweep_if effort
    ok (graded row_grading (math ∷ tool ∷ code ∷ fact ∷ vision ∷ swept) end)
