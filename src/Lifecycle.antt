-- ===== src/Lifecycle.antt =====
-- `run` of scripts/experiment.py: the steps of one served experiment, from the inventory to the
-- status file, and its clean-up. What each external call does is a field of `World`; times are in
-- milliseconds. The result and the events of the run are explicit.
pub mod CleanUp
pub mod Stop
mod Tests
use qwen38_flash_next_sglang.Prelude.{
  ℕ, ◌+◌, Bool, true, false, not, ◌&&◌, ◌||◌, Option, none, some, List, [], ◌∷◌, ◌++◌, Text, codes,
  has_sub, any, leb, ◌==◌, if◌then◌else◌, mem_text,
}

-- A call that may raise.
pub data Call {ℓ} (A : Type ℓ) : Type ℓ where
  fine : A → Call A
  raises : Call A

pub data Event : Type 0 where
  watchdog_started server_launched suites_ended stop_sent done_touched : Event
  status_written : Event

abbrev pub Run : Type 0 → Type 0
Run A = List Event → Call A × List Event

abbrev pub continue : {A B : Type 0} → Call A → (A → Run B) → Run B
continue (fine a) f es = f a es
continue raises f es = (raises, es)

infixl 5 ◌>>=◌ ◌>>◌
unfoldable pub ◌>>=◌ : {A B : Type 0} → Run A → (A → Run B) → Run B
◌>>=◌ m f es = let r = m es in continue r.0 f r.1

abbrev pub ◌>>◌ : {B : Type 0} → Run (Unit {0}) → Run B → Run B
m >> k = m >>= λ _. k

abbrev pub pure : {A : Type 0} → A → Run A
pure a es = (fine a, es)

abbrev pub call : {A : Type 0} → Call A → Run A
call c es = (c, es)

abbrev pub emit : Event → Run (Unit {0})
emit e es = (fine tt, es ++ e ∷ [])

-- `if bad: raise RuntimeError(...)`
abbrev pub refuse_if : Bool → Run (Unit {0})
refuse_if true es = (raises, es)
refuse_if false es = (fine tt, es)

abbrev pub when : Bool → Run (Unit {0}) → Run (Unit {0})
when true m = m
when false m = pure tt

-- One turn of the boot loop: `ready`, the guard, the clock and the container's state.
pub record BootTurn : Type 0 where
  pub ready : Bool
  pub guard : Call (Unit {0})
  pub now : ℕ
  pub running : Call Bool

pub data Unload : Type 0 where
  unloaded refused unload_failed : Unload

-- The options that `run` reads of its environment.
pub record Options : Type 0 where
  pub first_build : Bool
  pub kernel_check : Bool
  pub token_map : Bool
  pub prefetch : Bool
  pub rss_budget : Bool
  -- `PROFILE` is u2 or u3, and `SPEC` is not off
  pub replay_check : Bool

-- What the calls of the clean-up do.
pub record Ending : Type 0 where
  pub server_tail : Call (Unit {0})
  pub served_log : Call (Unit {0})
  -- the exit code of `docker stop`
  pub stop : Call ℕ
  pub watch_wait : Call (Unit {0})
  -- the trip file exists
  pub tripped : Bool

pub record World : Type 0 where
  pub inventory : Call (Unit {0})
  pub preserve : Call (Unit {0})
  pub tag : Call (Unit {0})
  -- whether the identity's state is `present`
  pub identity : Call Bool
  pub bind : Call (Unit {0})
  pub unload : Unload
  pub names_ours : Call Bool
  pub stop_prior : Call (Unit {0})
  pub occupied : Call Bool
  pub start_watch : Call (Unit {0})
  -- exit codes of the two bounded calls
  pub kernel_check : Call ℕ
  pub serve : Call ℕ
  pub launch_info : Call (Unit {0})
  pub boot_deadline : ℕ
  pub boot_turns : List BootTurn
  pub built_identity : Call (Unit {0})
  pub effective_info : Call (Unit {0})
  pub boot_log : Call (List Text)
  pub launch_token_map : Call Bool
  pub copy_report : Call (Unit {0})
  -- the exit code of `suites`
  pub suites : Call ℕ
  -- the server's metrics, where the reading raises what the code does not catch
  pub metrics : Call (Unit {0})
  pub late_log : Call (List Text)
  pub ending : Ending

-- The lines of the boot log that go into boot-facts.txt.
abbrev pub fact_keys : List Text
fact_keys =
    codes "shards already on disk"
    ∷ codes "KV Cache"
    ∷ codes "max_total_num_tokens="
    ∷ codes "CUDA graph"
    ∷ codes "Load weight end"
    ∷ codes "Capture target"
    ∷ codes "Capture draft"
    ∷ codes "num_tokens_per_req="
    ∷ codes "KDA Qwen3.8 QSA"
    ∷ codes "Using the Codex/Kimi"
    ∷ codes "Triton SM121 QSA"
    ∷ codes "committing PLE n-gram"
    ∷ codes "file-backed mmap"
    ∷ codes "reusing recipe backing file"
    ∷ codes "WILLNEED prefetch"
    ∷ codes "RSS trimmer"
    ∷ codes "resident set capped"
    ∷ codes "trimmed resident"
    ∷ codes "speculative-token-map"
    ∷ codes "Checkpoint key filter"
    ∷ codes "skipped checkpoint files"
    ∷ codes "pread prefetch"
    ∷ []

unfoldable pub is_fact : Text → Bool
is_fact ln = any (λ k. has_sub k ln) fact_keys

unfoldable pub facts_of : List Text → List Text
facts_of [] = []
facts_of (ln ∷ rest) = let kept = facts_of rest in if is_fact ln then ln ∷ kept else kept

-- `marker in text`, where the marker holds no newline and the text is these lines joined by them
unfoldable pub logged : Text → List Text → Bool
logged marker lines = any (has_sub marker) lines

abbrev pub is_zero_code : ℕ → Bool
is_zero_code rc = rc == 0

abbrev pub ensure : Bool → Run (Unit {0})
ensure b = refuse_if (not b)

unfoldable pub boot : ℕ → List BootTurn → Run (Unit {0})
boot deadline [] = call raises
boot deadline (t ∷ rest) =
    let later = boot deadline rest in
    if t.ready
    then pure tt
    else (do call t.guard; refuse_if (leb deadline t.now); up ← call t.running; ensure up; later)

abbrev pub unload_step : Unload → Run (Unit {0})
unload_step unloaded = pure tt
unload_step refused = pure tt
unload_step unload_failed = call raises

-- Everything before the `try`.
unfoldable pub prepare : Options → World → Run (Unit {0})
prepare o w = do
  call w.inventory
  call w.preserve
  call w.tag
  present ← call w.identity
  call w.bind
  refuse_if (o.first_build && present)
  unload_step w.unload
  ours ← call w.names_ours
  when ours (call w.stop_prior)
  busy ← call w.occupied
  refuse_if busy

-- The checks of the boot log.
unfoldable pub check_boot : Options → World → List Text → Run (Unit {0})
check_boot o w facts = do
  when o.token_map (do mapped ← call w.launch_token_map; ensure mapped; call w.copy_report)
  when o.kernel_check (do
    refuse_if
        (logged (codes "KDA Qwen3.8 QSA") facts || logged (codes "Using the Codex/Kimi") facts)
    ensure (logged (codes "Triton SM121 QSA") facts))
  when o.prefetch (ensure (logged (codes "WILLNEED prefetch") facts))
  when o.rss_budget (ensure (logged (codes "resident set capped") facts))

abbrev pub commit_marker : Text
commit_marker = codes "committing PLE n-gram/short-conv state"

unfoldable pub check_commit : World → List Text → Run (Unit {0})
check_commit w facts =
    when (not (logged commit_marker facts))
      (do served ← call w.late_log; ensure (logged commit_marker served))

-- The body of the `try` after the watchdog is started; it gives the exit code of the suites.
unfoldable pub measure : Options → World → Run ℕ
unfolding check_commit boot check_boot facts_of
measure o w = do
  when o.kernel_check (do rc ← call w.kernel_check; ensure (is_zero_code rc))
  emit server_launched
  rc ← call w.serve
  ensure (is_zero_code rc)
  call w.launch_info
  boot w.boot_deadline w.boot_turns
  when o.first_build (call w.built_identity)
  call w.effective_info
  log ← call w.boot_log
  let facts = facts_of log
  check_boot o w facts
  code ← call w.suites
  emit suites_ended
  call w.metrics
  when o.replay_check (check_commit w facts)
  pure code

-- `finally`, where the run owns the server.
unfoldable pub release : Ending → Run ℕ
release e = do
  call e.server_tail
  call e.served_log
  emit stop_sent
  code ← call e.stop
  emit done_touched
  call e.watch_wait
  emit status_written
  pure code

-- `finally`, where the watchdog did not start.
unfoldable pub release_unowned : Ending → Run (Unit {0})
release_unowned e = do emit done_touched; emit status_written

-- The exit code: 0 if the suites passed, no trip was written and the container stopped with 0.
abbrev pub verdict_code : ℕ → Bool → ℕ → ℕ
verdict_code suites_code tripped stop_code =
    if is_zero_code suites_code && not tripped && is_zero_code stop_code then 0 else 1

-- An exception of the body goes on after the clean-up, unless the clean-up raises its own.
unfoldable pub settle : Ending → Call ℕ → Run ℕ
settle e (fine code) = do stop_code ← release e; pure (verdict_code code e.tripped stop_code)
settle e raises = do _code ← release e; call raises

abbrev pub guarded : Options → World → Call (Unit {0}) → Run ℕ
guarded o w raises es = (release_unowned w.ending >> call raises) es
guarded o w (fine u) es =
    let r = measure o w (es ++ watchdog_started ∷ []) in settle w.ending r.0 r.1

unfoldable pub run : Options → World → Run ℕ
unfolding prepare measure release release_unowned settle
run o w = do prepare o w; guarded o w w.start_watch
