-- ===== src/Patches.antt =====
-- The scripts under patches/ that edit one source file of the server by replacing texts that must
-- occur exactly once: the operations on texts and what a script leaves behind.
pub mod Texts
pub mod Scripts
pub mod Splice
pub mod Rerun
pub mod KeyFilter
mod Tests
use qwen38_flash_next_sglang.Prelude.{
  ℕ, zero, suc, ◌+◌, ◌-◌, Bool, true, false, Option, none, some, List, [], ◌∷◌, ◌++◌, length, drop,
  Text, starts_with, ◌==◌, if◌then◌else◌,
}

-- `src.count(old)`, for an `old` that is not empty: occurrences that do not overlap, from the left.
-- The number is how many characters of the last occurrence are still to be passed.
unfoldable pub count_from : ℕ → Text → Text → ℕ
count_from skip old [] = 0
count_from (suc skip) old (x ∷ xs) = count_from skip old xs
count_from zero old (x ∷ xs) =
    let found = count_from (length old - 1) old xs in
    let later = count_from 0 old xs in if starts_with (x ∷ xs) old then suc found else later

abbrev pub count : Text → Text → ℕ
count old src = count_from 0 old src

-- `src.replace(old, new, 1)`
unfoldable pub replace_first : Text → Text → Text → Text
replace_first old new [] = []
replace_first old new (x ∷ xs) =
    let later = replace_first old new xs in
    if starts_with (x ∷ xs) old then new ++ drop (length old) (x ∷ xs) else x ∷ later

pub record Edit : Type 0 where
  pub old : Text
  pub new : Text

-- What a script does with the file: nothing, as the edit is there; nothing, with exit code 1; or it
-- writes the file.
pub data Outcome : Type 0 where
  already_patched : Outcome
  refused : Outcome
  patched : Text → Outcome

-- The file after the script.
abbrev pub file_after : Text → Outcome → Text
file_after src (patched out) = out
file_after src o = src

abbrev pub exit_code : Outcome → ℕ
exit_code refused = 1
exit_code o = 0

abbrev pub replace_once : Edit → Text → Option Text
replace_once e src = if count e.old src == 1 then some (replace_first e.old e.new src) else none

abbrev pub with_text : Option Text → (Text → Option Text) → Option Text
with_text none f = none
with_text (some t) f = f t

-- One replacement after the other; the first whose text does not occur once ends the script.
unfoldable pub replace_all_once : List Edit → Text → Option Text
replace_all_once [] src = some src
replace_all_once (e ∷ es) src = with_text (replace_once e src) (λ t. replace_all_once es t)

abbrev pub written_or_refused : Option Text → Outcome
written_or_refused none = refused
written_or_refused (some out) = patched out
