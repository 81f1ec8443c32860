-- ===== src/Memwatch/Ends.antt =====
-- `run` of scripts/memwatch.py: how the log, the trip file and the call of `docker stop` fit the way in
-- which the loop ends.
use qwen38_flash_next_sglang.Prelude.{◌≡◌, ◌≢◌, ◌++◌, true, false, none, some, List, [], ◌∷◌}
use qwen38_flash_next_sglang.Prelude.Int.{ℤ}
use qwen38_flash_next_sglang.Memwatch.{Reason}
use qwen38_flash_next_sglang.Memwatch.Loop.{
  Row, Entry, row, stop_returncode, tripped, raised, Outcome,
}

-- Rows without reasons, and nothing else.
abbrev pub AllQuiet : List Entry → Type 0
AllQuiet [] = Unit {0}
AllQuiet (row r ∷ es) = (r.reasons ≡ []) × AllQuiet es
AllQuiet (stop_returncode code ∷ es) = ⊥

-- Rows without reasons, then a row with these reasons, which are not empty, then these lines.
abbrev pub EndsIn : List Reason → List Entry → List Entry → Type 0
EndsIn reasons last log =
    (quiet : List Entry) × (r : Row) × (log ≡ quiet ++ (row r ∷ last))
    × AllQuiet quiet
    × (r.reasons ≡ reasons)
    × (reasons ≢ [])

-- How the log, the trip file, the call of `docker stop` and the way in which the loop ended fit
-- together: no trip; a trip whose file could not be written; one whose evidence could not be taken
-- or whose `docker stop` raised; or one that went through.
pub data Fits : Outcome → Type 0 where
  untripped :
      {o : Outcome}
      → AllQuiet o.log
      → o.trip_file ≡ none
      → o.stopped ≡ false
      → o.status ≢ tripped
      → Fits o
  unwritten :
      {o : Outcome} (reasons : List Reason)
      → EndsIn reasons [] o.log
      → o.trip_file ≡ none
      → o.stopped ≡ false
      → o.status ≡ raised
      → Fits o
  interrupted :
      {o : Outcome} (reasons : List Reason)
      → EndsIn reasons [] o.log
      → o.trip_file ≡ some reasons
      → o.status ≡ raised
      → Fits o
  went_through :
      {o : Outcome} (reasons : List Reason) (code : ℤ)
      → EndsIn reasons (stop_returncode code ∷ []) o.log
      → o.trip_file ≡ some reasons
      → o.stopped ≡ true
      → o.status ≡ tripped
      → Fits o
