-- ===== src/Bench/Soak.antt =====
-- bench/soak.py. `clock n` is the reading `n` of `time.monotonic` in `main`, in microseconds, and
-- `ask i` what `chat` gives for the request `i`, counted from 0.
use qwen38_flash_next_sglang.Prelude.{
  ℕ, zero, suc, ◌+◌, ◌-◌, ◌%◌, ◌&&◌, Bool, true, false, Option, none, some, List, [], ◌∷◌, map,
  length, Text, codes, ◌==◌, ltb, if◌then◌else◌,
}
use qwen38_flash_next_sglang.Prelude.Int.{pos}
use qwen38_flash_next_sglang.Json.{
  Value, bool, num, str, arr, obj, Fields, end, field, Error, system_exit, Result, ok, err,
}
use qwen38_flash_next_sglang.Json.Objects.{int, items}
use qwen38_flash_next_sglang.Client.Calls.{ChatReply}

-- A row, with the exception or the reply of its request
pub record Row : Type 0 where
  pub number : ℕ
  pub name : Text
  pub result : Result ChatReply

abbrev pub passed_of : Result ChatReply → Bool
passed_of (ok reply) = true
passed_of (err e) = false

abbrev pub is_exit : Result ChatReply → Bool
is_exit (ok reply) = false
is_exit (err e) = elim e [ system_exit ↦ true | _ ↦ false ]

-- The name of the job of a request
unfoldable pub job_name : ℕ → Text
job_name i =
    if i % 4 == 0
    then codes "arith_off"
    else if i % 4 == 1
    then codes "prose_on"
    else if i % 4 == 2
    then codes "tool_off"
    else codes "code_off"

unfoldable pub successes : List Row → ℕ
successes [] = 0
successes (r ∷ rs) = (if passed_of r.result then 1 else 0) + successes rs

unfoldable pub errors_of : List Row → ℕ
errors_of [] = 0
errors_of (r ∷ rs) = (if passed_of r.result then 0 else 1) + errors_of rs

-- `round3 n` is `round(n, 3)`, of seconds that are in microseconds; `error_text` is the type and the
-- text of an exception.
module _ (clock : ℕ → ℕ) (ask : ℕ → Result ChatReply) (round3 : ℕ → ℕ) (error_text : Error → Text)
    (duration : ℕ) where
  abbrev pub result_fields : Result ChatReply → Fields
  result_fields (ok r) =
      field (codes "completion_tokens") r.completion_tokens (
        field (codes "seconds") (num (pos (round3 r.seconds)))
          (field (codes "finish") r.finish end))
  result_fields (err e) = field (codes "error") (str (error_text e)) end

  unfoldable pub row_value : Row → Value
  row_value r = obj (
      field (codes "i") (int r.number) (
        field (codes "name") (str r.name)
          (field (codes "pass") (bool (passed_of r.result)) (result_fields r.result))))

  abbrev pub deadline : ℕ
  deadline = clock 0 + duration

  abbrev pub with_row :
      ℕ → Result ChatReply → Option (Result (List Row)) → Option (Result (List Row))
  with_row i result none = none
  with_row i result (some (err e)) = some (err e)
  with_row i result (some (ok rows)) =
      some (ok (record { number = suc i; name = job_name i; result = result } ∷ rows))

  -- `SystemExit` is no `Exception`: the loop does not catch it.
  abbrev pub row_or_exit :
      ℕ → Result ChatReply → Option (Result (List Row)) → Option (Result (List Row))
  row_or_exit i result later =
      if is_exit result then some (err system_exit) else with_row i result later

  -- The loop, for so many rounds; `none` if it has not ended by then.
  unfoldable pub soak_rows : ℕ → ℕ → Option (Result (List Row))
  unfolding job_name
  soak_rows zero i = none
  soak_rows (suc rounds) i =
      let later = soak_rows rounds (suc i) in
      if ltb (clock (2 + i)) deadline then row_or_exit i (ask i) later else some (ok [])

  unfoldable pub soak_report : List Row → Value
  unfolding row_value successes errors_of items
  soak_report rows = obj (
      field (codes "results") (arr (items (map row_value rows))) (
        field (codes "failed") (int (errors_of rows)) (
          field (codes "summary")
            (obj (
              field (codes "ok") (int (successes rows)) (
                field (codes "errors") (int (errors_of rows)) (
                  field (codes "requests") (int (length rows)) (
                    field (codes "seconds") (num (pos (round3 (clock (3 + length rows) - clock 1))))
                      (field (codes "target_seconds") (num (pos duration)) end))))))
            end)))

  abbrev pub soak_code : List Row → ℕ
  soak_code rows = if (errors_of rows == 0) && ltb 0 (successes rows) then 0 else 1

  abbrev pub finished : Option (Result (List Row)) → Option (Result (Value × ℕ))
  finished none = none
  finished (some (err e)) = some (err e)
  finished (some (ok rows)) = some (ok (soak_report rows, soak_code rows))

  unfoldable pub soak_main : ℕ → Option (Result (Value × ℕ))
  unfolding soak_rows soak_report errors_of successes
  soak_main rounds = finished (soak_rows rounds 0)
