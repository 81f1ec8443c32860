-- ===== src/Lifecycle/Stop.antt =====
-- The clean-up of `run` of scripts/experiment.py: when the container is told to stop.
use qwen38_flash_next_sglang.Prelude.{
  ◌≡◌, refl, ◌∙◌, Bool, true, false, ◌&&◌, ◌||◌, ℕ, List, [], ◌∷◌, ◌++◌, any, if◌then◌else◌, arith,
}
use qwen38_flash_next_sglang.Lifecycle.{
  Call, fine, raises, Run, Event, stop_sent, watchdog_started, World, Options, Ending, BootTurn,
  ◌>>=◌, ◌>>◌, continue, pure, call, emit, refuse_if, when, measure, release, release_unowned, run,
  prepare, boot, check_boot, check_commit, guarded, settle, unload_step, Unload, unloaded, refused,
  unload_failed,
}

abbrev pub is_stop : Event → Bool
is_stop stop_sent = true
is_stop e = false

-- The container has been told to stop.
abbrev pub sent : List Event → Bool
sent es = any is_stop es

abbrev pub returns {ℓ} : {A : Type ℓ} → Call A → Bool
returns (fine a) = true
returns raises = false

sent-append : (es fs : List Event) → sent (es ++ fs) ≡ sent es || sent fs
sent-append [] fs = refl
sent-append (e ∷ es) fs = ground (arith, sent-append es fs)

-- The steps that do not stop the container.
record Quiet {A : Type 0} (m : Run A) : Type 0 where
  same : (es : List Event) → sent (m es).1 ≡ sent es

continue-same :
    {A B : Type 0} (c : Call A) (f : A → Run B) (es : List Event)
    → ((a : A) → Quiet (f a))
    → sent (continue c f es).1 ≡ sent es
continue-same (fine a) f es q = (q a).same es
continue-same raises f es q = refl

bind-Quiet :
    {A B : Type 0} (m : Run A) (f : A → Run B) → Quiet m → ((a : A) → Quiet (f a)) → Quiet (m >>= f)
unfolding ◌>>=◌
bind-Quiet m f q r = record { same = λ es. continue-same (m es).0 f (m es).1 r ∙ q.same es }

call-Quiet : {A : Type 0} (c : Call A) → Quiet (call c)
call-Quiet c = record { same = λ es. refl }

pure-Quiet : {A : Type 0} (a : A) → Quiet (pure a)
pure-Quiet a = record { same = λ es. refl }

refuse_if-Quiet : (b : Bool) → Quiet (refuse_if b)
refuse_if-Quiet true = record { same = λ es. refl }
refuse_if-Quiet false = record { same = λ es. refl }

when-Quiet : (b : Bool) (m : Run (Unit {0})) → Quiet m → Quiet (when b m)
when-Quiet true m q = q
when-Quiet false m q = record { same = λ es. refl }

if-Quiet : (b : Bool) (m n : Run (Unit {0})) → Quiet m → Quiet n → Quiet (if b then m else n)
if-Quiet true m n q r = q
if-Quiet false m n q r = r

emit-Quiet : (e : Event) → is_stop e ≡ false → Quiet (emit e)
emit-Quiet e h = record { same = λ es. sent-append es (e ∷ []) ∙ ground (arith, h) }

unload_step-Quiet : (u : Unload) → Quiet (unload_step u)
unload_step-Quiet unloaded = pure-Quiet tt
unload_step-Quiet refused = pure-Quiet tt
unload_step-Quiet unload_failed = call-Quiet raises

ruleset quiet = (
  bind-Quiet, call-Quiet, pure-Quiet, refuse_if-Quiet, when-Quiet, if-Quiet, emit-Quiet,
  unload_step-Quiet,
)

boot-Quiet : (deadline : ℕ) (turns : List BootTurn) → Quiet (boot deadline turns)
unfolding boot
boot-Quiet deadline [] = search quiet
boot-Quiet deadline (t ∷ rest) = if-Quiet t.ready _ _ (pure-Quiet tt) (
    bind-Quiet _ _ (call-Quiet _) (λ _. bind-Quiet _ _ (refuse_if-Quiet _) (λ _.
      bind-Quiet _ _ (call-Quiet _)
        (λ up. bind-Quiet _ _ (refuse_if-Quiet _) (λ _. boot-Quiet deadline rest)))))

prepare-Quiet : (o : Options) (w : World) → Quiet (prepare o w)
unfolding prepare
prepare-Quiet o w = search quiet depth 30

check_boot-Quiet : (o : Options) (w : World) (facts : _) → Quiet (check_boot o w facts)
unfolding check_boot
check_boot-Quiet o w facts = search quiet depth 30

check_commit-Quiet : (w : World) (facts : _) → Quiet (check_commit w facts)
unfolding check_commit
check_commit-Quiet w facts = search quiet depth 30

measure-Quiet : (o : Options) (w : World) → Quiet (measure o w)
unfolding measure
measure-Quiet o w = search (quiet, boot-Quiet, check_boot-Quiet, check_commit-Quiet) depth 60

stop-sent :
    (a b : Call (Unit {0})) (rest : Run ℕ) (es : List Event)
    → Quiet rest
    → sent ((call a >> (call b >> (emit stop_sent >> rest))) es).1
      ≡ sent es || (returns a && returns b)
unfolding ◌>>=◌
stop-sent (fine u) (fine v) rest es q =
    q.same (es ++ stop_sent ∷ []) ∙ sent-append es (stop_sent ∷ [])
stop-sent (fine u) raises rest es q = ground arith
stop-sent raises b rest es q = ground arith

release-sent :
    (e : Ending) (es : List Event)
    → sent (release e es).1 ≡ sent es || (returns e.server_tail && returns e.served_log)
unfolding release
release-sent e es = stop-sent e.server_tail e.served_log _ es (search quiet depth 30)

settle-sent :
    (e : Ending) (c : Call ℕ) (es : List Event)
    → sent (settle e c es).1 ≡ sent es || (returns e.server_tail && returns e.served_log)
unfolding settle ◌>>=◌
settle-sent e (fine code) es =
    continue-same (release e es).0 _ _ (λ a. pure-Quiet _) ∙ release-sent e es
settle-sent e raises es = continue-same (release e es).0 _ _ (λ a. call-Quiet _) ∙ release-sent e es

guarded-sent :
    (o : Options) (w : World) (c : Call (Unit {0})) (es : List Event)
    → sent es ≡ false
    → sent (guarded o w c es).1
      ≡ returns c && (returns w.ending.server_tail && returns w.ending.served_log)
unfolding release_unowned
guarded-sent o w raises es h =
    (bind-Quiet _ _ (search quiet depth 20) (λ _. call-Quiet raises)).same es ∙ h
guarded-sent o w (fine u) es h =
    settle-sent w.ending _ _
    ∙ rw
        (
          (measure-Quiet o w).same (es ++ watchdog_started ∷ []),
          sent-append es (watchdog_started ∷ []),
          h,
        )
        refl

bind-sent :
    {b : Bool} (m : Run (Unit {0})) (k : Run ℕ)
    → Quiet m
    → ((es : List Event) → sent es ≡ false → sent (k es).1 ≡ b)
    → (es : List Event) → sent es ≡ false
    → sent ((m >> k) es).1 ≡ returns (m es).0 && b
unfolding ◌>>=◌
bind-sent {b} m k q f es h = go (m es).0 (m es).1 (q.same es ∙ h)
  where
    go :
        (c : Call (Unit {0})) (fs : List Event)
        → sent fs ≡ false
        → sent (continue c (λ _. k) fs).1 ≡ returns c && b
    go (fine u) fs l = f fs l
    go raises fs l = l

-- Whatever the body of the run does or raises, the container is told to stop exactly if everything
-- before the watchdog and its start went well and the two reads of the container's log that stand
-- before the stop return.
pub run_stops :
    (o : Options) (w : World)
    → sent (run o w []).1
      ≡ returns (prepare o w []).0
        && (returns w.start_watch && (returns w.ending.server_tail && returns w.ending.served_log))
unfolding run
run_stops o w =
    bind-sent (prepare o w) _ (prepare-Quiet o w) (guarded-sent o w w.start_watch) [] refl
