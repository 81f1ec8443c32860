-- ===== src/Bench/Pieces.antt =====
-- Calls of tools that the server streams in pieces, and bench/agentic.py puts together again.
use qwen38_flash_next_sglang.Prelude.{
  ℕ, suc, ◌<◌, ◌≡◌, ◌≢◌, refl, sym, ap, ◌∙◌, true, false, List, [], ◌∷◌, ◌++◌, append-nil,
  append_assoc, Text, codes, ◌==◌, arith,
}
use qwen38_flash_next_sglang.Json.{
  Value, null, str, obj, end, field, ok, get, find_field, truth, same,
}
use qwen38_flash_next_sglang.Json.Objects.{int}
use qwen38_flash_next_sglang.Bench.ToolCalls.{Slot, merge_slot, merged}

-- A call: its name, and the pieces of its arguments after the first
pub record Sent : Type 0 where
  pub name : Text
  pub first : Text
  pub more : List Text

abbrev part : ℕ → Value → Text → Value
part n name args = obj (
    field (codes "index") (int n) (
      field (codes "function")
        (obj (field (codes "name") name (field (codes "arguments") (str args) end))) end))

abbrev pieces : ℕ → List Text → List Value
pieces n [] = []
pieces n (args ∷ more) = part n null args ∷ pieces n more

-- The parts of the calls, the first of which has the index `n`: only the first part of a call has its
-- name.
unfoldable pub streamed : ℕ → List Sent → List Value
streamed n [] = []
streamed n (c ∷ calls) = part n (str c.name) c.first ∷ (pieces n c.more ++ streamed (suc n) calls)

unfoldable pub whole_args : Text → List Text → Text
whole_args args [] = args
whole_args args (t ∷ more) = whole_args (args ++ t) more

-- The calls in one piece
unfoldable pub slots_of : ℕ → List Sent → List Slot
unfolding whole_args
slots_of n [] = []
slots_of n (c ∷ calls) =
    record { index = int n; name = str c.name; args = whole_args c.first c.more }
    ∷ slots_of (suc n) calls

abbrev pub Named : List Sent → Type 0
Named [] = Unit
Named (c ∷ calls) = (c.name ≢ []) × Named calls

-- Slots whose indices are less than `n`
abbrev Below : ℕ → List Slot → Type 0
Below n [] = Unit
Below n (s ∷ slots) = ((k : ℕ) × (s.index ≡ int k) × (k < n)) × Below n slots

same_int : (a b : ℕ) → same (int a) (int b) ≡ (a == b)
unfolding same
same_int a b = ground arith

other_int : (a b : ℕ) → a < b → same (int a) (int b) ≡ false
other_int a b h = same_int a b ∙ ground (arith, h)

this_int : (a : ℕ) → same (int a) (int a) ≡ true
this_int a = same_int a a ∙ ground arith

merge_slot-new :
    (n : ℕ) (name args : Text) (slots : List Slot)
    → name ≢ []
    → Below n slots
    → merge_slot (int n) (str name) (str args) slots
      ≡ ok (slots ++ record { index = int n; name = str name; args = args } ∷ [])
unfolding merge_slot truth
merge_slot-new n [] args [] h b = absurd (h refl)
merge_slot-new n (x ∷ name) args [] h b = refl
merge_slot-new n name args (s ∷ slots) h b =
    let ((k, e, l), rest) = b in
    rw (ap (λ v. same v (int n)) e ∙ other_int k n l)
      (rw (merge_slot-new n name args slots h rest) refl)

merge_slot-more :
    (n : ℕ) (name args t : Text) (slots : List Slot)
    → Below n slots
    → merge_slot
        (int n)
        null
        (str t)
        (slots ++ record { index = int n; name = str name; args = args } ∷ [])
      ≡ ok (slots ++ record { index = int n; name = str name; args = args ++ t } ∷ [])
unfolding merge_slot truth
merge_slot-more n name args t [] b = rw (this_int n) refl
merge_slot-more n name args t (s ∷ slots) b =
    let ((k, e, l), rest) = b in
    rw (ap (λ v. same v (int n)) e ∙ other_int k n l)
      (rw (merge_slot-more n name args t slots rest) refl)

Below-append :
    (n : ℕ) (s : Slot) (slots : List Slot)
    → s.index ≡ int n
    → Below n slots
    → Below (suc n) (slots ++ s ∷ [])
Below-append n s [] e b = ((n, e, omega arith), tt)
Below-append n s (t ∷ slots) e b =
    let ((k, f, l), rest) = b in ((k, f, omega (arith, l)), Below-append n s slots e rest)

merged-pieces :
    (i n : ℕ) (name args : Text) (more : List Text) (slots : List Slot) (rest : List Value)
    → Below n slots
    → (j : ℕ) × (merged i
          (slots ++ record { index = int n; name = str name; args = args } ∷ [])
          (pieces n more ++ rest)
        ≡ merged j
            (slots ++ record { index = int n; name = str name; args = whole_args args more } ∷ [])
            rest)
unfolding merged get find_field truth whole_args
merged-pieces i n name args [] slots rest b = (i, refl)
merged-pieces i n name args (t ∷ more) slots rest b =
    let (j, e) = merged-pieces (suc i) n name (args ++ t) more slots rest b in
    (j, rw (merge_slot-more n name args t slots b) e)

merged-streamed :
    (i n : ℕ) (calls : List Sent) (slots : List Slot)
    → Named calls
    → Below n slots
    → merged i slots (streamed n calls) ≡ ok (slots ++ slots_of n calls)
unfolding merged get find_field truth streamed slots_of
merged-streamed i n [] slots h b = ap ok (sym (append-nil slots))
merged-streamed i n (c ∷ calls) slots h b =
    let new : Slot = record {
      index = int n;
      name = str c.name;
      args = whole_args c.first c.more;
    } in
    let (j, e) = merged-pieces (suc i) n c.name c.first c.more slots (streamed (suc n) calls) b in
    rw (merge_slot-new n c.name c.first slots h.0 b) (
      e
      ∙ (merged-streamed j (suc n) calls (slots ++ new ∷ []) h.1 (Below-append n new slots refl b)
          ∙ ap ok (append_assoc slots (new ∷ []) (slots_of (suc n) calls))))

-- Calls of named tools that are sent in pieces, one after the other, each part with the index of its
-- call and the first one with the name, are put together again as they were: one slot for each call, in
-- their order, with its name and all of its arguments.
pub merged-restores :
    (calls : List Sent) → Named calls → merged 0 [] (streamed 0 calls) ≡ ok (slots_of 0 calls)
merged-restores calls h = merged-streamed 0 0 calls [] h tt
