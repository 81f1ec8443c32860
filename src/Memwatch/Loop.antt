-- ===== src/Memwatch/Loop.antt =====
-- `run` of scripts/memwatch.py: one round after another until the done file exists, the policy
-- trips, or a call raises. What the loop reads of its environment is a round of the list.
use qwen38_flash_next_sglang.Prelude.{
  ℕ, ◌≡◌, refl, Bool, true, false, Option, none, some, List, [], ◌∷◌, arith, if◌then◌else◌, Text,
  any, take,
}
use qwen38_flash_next_sglang.Prelude.Int.{ℤ}
use qwen38_flash_next_sglang.Memwatch.{
  Reason, new_xid, Sample, Policy, check, nvidia_signals, signal_lines, is_xid, is_alloc,
}

-- `journalctl`: its lines, a return code other than 0, or the timeout that `subprocess.run` raises
pub data Journal : Type 0 where
  lines : List Text → Journal
  denied : Journal
  timed_out : Journal

-- What a call after a trip gives: it is done, or raises.
pub data Call : Type 0 where
  called raising : Call

-- The calls after a trip: writing the trip file, `docker logs` and writing its tail, and
-- `docker stop` with its return code, where it does not run out of time.
pub record Stopping : Type 0 where
  pub trip : Call
  pub logs : Call
  pub tail : Call
  pub stop : Option ℤ

pub record Round : Type 0 where
  pub done : Bool
  -- `memory()`, or `none` where it raises
  pub sample : Option Sample
  pub journal : Journal
  pub monotonic : ℕ
  -- read only if the round trips
  pub stopping : Stopping

-- A row of the log: the reasons, of which the row's action is `stop` when there is one.
pub record Row : Type 0 where
  pub sample : Sample
  pub journal_access : Bool
  pub reasons : List Reason
  pub matches : List Text

-- A line of the log: a round's row, or the return code of `docker stop`.
pub data Entry : Type 0 where
  row : Row → Entry
  stop_returncode : ℤ → Entry

pub data Status : Type 0 where
  -- the rounds of the list are used up
  watching : Status
  finished : Status
  -- the container was stopped; the exit code is 2
  tripped : Status
  -- a call of a round raised, or one after a trip
  raised : Status

pub record Outcome : Type 0 where
  pub log : List Entry
  -- the trip file, if it was written, by its reasons
  pub trip_file : Option (List Reason)
  -- whether `docker stop` was called
  pub stopped : Bool
  pub status : Status

abbrev signals : Journal → Option (Bool × Bool × Bool × List Text)
signals (lines ls) = let (xid, alloc, found) = nvidia_signals ls in some (true, xid, alloc, found)
signals denied = some (false, false, false, [])
signals timed_out = none

abbrev pub ended_with : List Entry → Status → Outcome
ended_with log status = record { log = log; trip_file = none; stopped = false; status = status }

abbrev pub prefix_row : Row → Outcome → Outcome
prefix_row r o = record o { log = row r ∷ o.log }

-- `docker stop`, and the line with its return code, if it returns
abbrev pub stop_container : Row → Option ℤ → Outcome
stop_container r none = record {
  log = row r ∷ [];
  trip_file = some r.reasons;
  stopped = true;
  status = raised;
}
stop_container r (some code) = record {
  log = row r ∷ stop_returncode code ∷ [];
  trip_file = some r.reasons;
  stopped = true;
  status = tripped;
}

-- The calls after a trip, in their order, each of which may raise.
abbrev pub stop_calls : Row → Call → Call → Call → Option ℤ → Outcome
stop_calls r raising logs tail stop = ended_with (row r ∷ []) raised
stop_calls r called raising tail stop = record (ended_with (row r ∷ []) raised) {
  trip_file = some r.reasons;
}
stop_calls r called called raising stop = record (ended_with (row r ∷ []) raised) {
  trip_file = some r.reasons;
}
stop_calls r called called called stop = stop_container r stop

abbrev pub stop_run : Row → Stopping → Outcome
stop_run r s = stop_calls r s.trip s.logs s.tail s.stop

-- `if reasons: ... return 2`, else the loop goes on.
unfoldable pub act : List Reason → Row → Stopping → Outcome → Outcome
act [] r s rest = prefix_row r rest
act (reason ∷ reasons) r s rest = stop_run r s

-- The check of one round, `none` where a call raises.
unfoldable pub round : Policy → Round → Option (Row × Policy)
round p r = elim r.sample [
  | none ↦ none
  | some s ↦ elim (signals r.journal) [
    | none ↦ none
    | some (access, xid, alloc, found) ↦
        let (reasons, p') = check p s r.monotonic xid alloc in
        some (
          record {
            sample = s;
            journal_access = access;
            reasons = reasons;
            matches = take 20 found;
          },
          p',
        )
  ]
]

-- A call that raises ends the loop; its exception leaves `run`.
unfoldable pub after : Option (Row × Policy) → Stopping → (Policy → Outcome) → Outcome
unfolding act
after none s later = ended_with [] raised
after (some (r, p')) s later = let rest = later p' in act r.reasons r s rest

unfoldable pub run : Policy → List Round → Outcome
unfolding after
run p [] = ended_with [] watching
run p (r ∷ rest) =
    let next = after (round p r) r.stopping (λ q. run q rest) in
    if r.done then ended_with [] finished else next

any-signal_lines : (text : List Text) → any is_xid (signal_lines text) ≡ any is_xid text
unfolding signal_lines
any-signal_lines [] = refl
any-signal_lines (ln ∷ rest) = ground (arith, any-signal_lines rest)

any_alloc-signal_lines : (text : List Text) → any is_alloc (signal_lines text) ≡ any is_alloc text
unfolding signal_lines
any_alloc-signal_lines [] = refl
any_alloc-signal_lines (ln ∷ rest) = ground (arith, any_alloc-signal_lines rest)

-- The two flags of `nvidia_signals` say whether any line of the whole journal names an Xid or an
-- allocation failure: the filter that picks the lines to report loses neither.
nvidia_signals_flags :
    (text : List Text)
    → ((nvidia_signals text).0 ≡ any is_xid text) × ((nvidia_signals text).1 ≡ any is_alloc text)
unfolding nvidia_signals
nvidia_signals_flags text = (any-signal_lines text, any_alloc-signal_lines text)

trip_file_written :
    (r : Row) (trip logs tail : Call) (stop : Option ℤ)
    → trip ≡ called
    → (stop_calls r trip logs tail stop).trip_file ≡ some r.reasons
trip_file_written r raising logs tail stop e = cc
trip_file_written r called raising tail stop e = refl
trip_file_written r called called raising stop e = refl
trip_file_written r called called called none e = refl
trip_file_written r called called called (some code) e = refl

-- A readable journal with an Xid line trips the loop in that round, with the one reason, whatever
-- the policy has seen and whatever the memory is, and the trip file says so if it can be written.
xid_trips :
    (p : Policy) (r : Round) (rest : List Round) (s : Sample) (text : List Text)
    → r.done ≡ false
    → r.sample ≡ some s
    → r.journal ≡ lines text
    → any is_xid text ≡ true
    → r.stopping.trip ≡ called
    → (run p (r ∷ rest)).trip_file ≡ some (new_xid ∷ [])
unfolding run round check nvidia_signals
xid_trips p r rest s text d e j x c =
    rw (d, e, j, any-signal_lines text, x, after, act)
      (trip_file_written _ r.stopping.trip r.stopping.logs r.stopping.tail r.stopping.stop c)
