-- ===== src/Lifecycle/CleanUp.antt =====
-- The steps of `run` of scripts/experiment.py: what a passing run has checked, and when the
-- container is stopped.
use qwen38_flash_next_sglang.Prelude.{
  ◌≡◌, refl, arith, ℕ, ◌||◌, if◌then◌else◌, Bool, true, false, List, [], ◌∷◌, any, codes, Text,
  has_sub, mem_text, =ₜ_iff, Bool-cases, ◌=ₜ◌, ap, sym, ◌∙◌, inl, inr,
}
use qwen38_flash_next_sglang.Lifecycle.{
  Call, fine, raises, Run, Event, World, Options, Ending, BootTurn, ◌>>=◌, continue, refuse_if,
  ensure, when, measure, release, run, boot, check_boot, facts_of, logged, verdict_code, check_boot,
  fact_keys, is_fact, guarded, settle, is_zero_code,
}

-- A call that went well gives the value that its continuation runs on.
continue-inv :
    {A B : Type 0}
    → (c : Call A) → (f : A → Run B) → (es : List Event) → (b : B) → (continue c f es).0 ≡ fine b
    → (a : A) × (c ≡ fine a) × ((f a es).0 ≡ fine b)
continue-inv (fine a) f es b e = (a, refl, e)
continue-inv raises f es b e = cc

bind-inv :
    {A B : Type 0}
    → (m : Run A) → (f : A → Run B) → (es : List Event) → (b : B) → ((m >>= f) es).0 ≡ fine b
    → (a : A) × ((m es).0 ≡ fine a) × ((f a (m es).1).0 ≡ fine b)
unfolding ◌>>=◌
bind-inv m f es b e = continue-inv (m es).0 f (m es).1 b e

refuse_if-inv :
    (b : Bool) → (es : List Event) → (u : Unit {0}) → (refuse_if b es).0 ≡ fine u → b ≡ false
refuse_if-inv true es u e = cc
refuse_if-inv false es u e = refl

ensure-inv : (b : Bool) (es : List Event) (u : Unit {0}) → (ensure b es).0 ≡ fine u → b ≡ true
ensure-inv true es u e = refl
ensure-inv false es u e = cc

when-inv :
    (b : Bool) (m : Run (Unit {0})) (es : List Event) (u : Unit {0})
    → (when b m es).0 ≡ fine u
    → b ≡ true
    → (m es).0 ≡ fine u
when-inv true m es u e _ = e
when-inv false m es u e h = cc

else-inv :
    (b : Bool) (m n : Run (Unit {0})) (es : List Event) (u : Unit {0})
    → ((if b then m else n) es).0 ≡ fine u
    → b ≡ false
    → (n es).0 ≡ fine u
else-inv true m n es u e h = cc
else-inv false m n es u e h = e

-- The exit code is 0 in one case only.
verdict_code-zero :
    (code stop_code : ℕ)
    → (tripped : Bool) → verdict_code code tripped stop_code ≡ 0
    → (code ≡ 0) × (tripped ≡ false) × (stop_code ≡ 0)
verdict_code-zero code stop_code tripped e = ground arith

-- A key of the facts.
any-mem :
    (p : Text → Bool) (k : Text) (ks : List Text)
    → mem_text k ks ≡ true
    → p k ≡ true
    → any p ks ≡ true
any-mem p k [] h e = h
any-mem p k (x ∷ xs) h e = elim (Bool-cases (x =ₜ k)) [
  | inl q ↦ rw (ap p ((=ₜ_iff x k).0 q), e) refl
  | inr q ↦ rw (any-mem p k xs (ground (arith, h, q)) e) (ground arith)
]

is_fact-key : (k ln : Text) → mem_text k fact_keys ≡ true → has_sub k ln ≡ true → is_fact ln ≡ true
unfolding is_fact
is_fact-key k ln h e = any-mem (λ x. has_sub x ln) k fact_keys h e

-- The lines kept from the boot log have each key of the list that the log has, and no other.
logged-facts :
    (k : Text) (lines : List Text)
    → mem_text k fact_keys ≡ true
    → logged k (facts_of lines) ≡ logged k lines
unfolding facts_of logged
logged-facts k [] h = refl
logged-facts k (ln ∷ rest) h = elim (Bool-cases (has_sub k ln)) [
  | inl e ↦ rw (is_fact-key k ln h e, e) refl
  | inr e ↦ elim (Bool-cases (is_fact ln)) [
    | inl q ↦ rw q (ap (◌||◌ (has_sub k ln)) (logged-facts k rest h))
    | inr q ↦ rw (q, e) (logged-facts k rest h)
  ]
]

-- Some turn of the boot loop finds the server ready.
abbrev pub AnyReady : List BootTurn → Type 0
AnyReady turns = any (λ t. t.ready) turns ≡ true

boot-AnyReady :
    (deadline : ℕ) (turns : List BootTurn) (es : List Event) (u : Unit {0})
    → (boot deadline turns es).0 ≡ fine u
    → AnyReady turns
unfolding boot
boot-AnyReady deadline [] es u e = cc
boot-AnyReady deadline (t ∷ rest) es u e = elim (Bool-cases t.ready) [
  | inl p ↦ rw p refl
  | inr p ↦
      (let (_, _, e1) = bind-inv _ _ _ _ (else-inv _ _ _ _ _ e p) in
        let (_, _, e2) = bind-inv _ _ _ _ e1 in
        let (_, _, e3) = bind-inv _ _ _ _ e2 in
        let (_, _, e4) = bind-inv _ _ _ _ e3 in rw p (boot-AnyReady deadline rest _ u e4))
]

or_false : (a b : Bool) → (a || b) ≡ false → (a ≡ false) × (b ≡ false)
or_false a b h = ground arith

-- What the checks of the boot log ask of its lines.
abbrev pub LogChecked : Options → World → List Text → Type 0
LogChecked o w lines =
    (o.token_map ≡ true → w.launch_token_map ≡ fine true)
    × (o.kernel_check ≡ true
        → (logged (codes "KDA Qwen3.8 QSA") lines ≡ false)
          × (logged (codes "Using the Codex/Kimi") lines ≡ false)
          × (logged (codes "Triton SM121 QSA") lines ≡ true))
    × (o.prefetch ≡ true → logged (codes "WILLNEED prefetch") lines ≡ true)
    × (o.rss_budget ≡ true → logged (codes "resident set capped") lines ≡ true)

check_boot-LogChecked :
    (o : Options) (w : World) (lines : List Text) (es : List Event) (u : Unit {0})
    → (check_boot o w (facts_of lines) es).0 ≡ fine u
    → LogChecked o w lines
unfolding check_boot
check_boot-LogChecked o w lines es u e =
    let (_, p1, e1) = bind-inv _ _ _ _ e in
    let (_, p2, e2) = bind-inv _ _ _ _ e1 in
    let (_, p3, p4) = bind-inv _ _ _ _ e2 in
    (
      λ h.
          (let (m, q1, q2) = bind-inv _ _ _ _ (when-inv _ _ _ _ p1 h) in
            q1 ∙ ap fine (ensure-inv m _ _ (bind-inv _ _ _ _ q2).1)),
      λ h.
          (let (_, q1, q2) = bind-inv _ _ _ _ (when-inv _ _ _ _ p2 h) in
            let none_of = or_false _ _ (refuse_if-inv _ _ _ q1) in
            (
              sym (logged-facts _ lines refl) ∙ none_of.0,
              sym (logged-facts _ lines refl) ∙ none_of.1,
              sym (logged-facts _ lines refl) ∙ ensure-inv _ _ _ q2,
            )),
      λ h. sym (logged-facts _ lines refl) ∙ ensure-inv _ _ _ (when-inv _ _ _ _ p3 h),
      λ h. sym (logged-facts _ lines refl) ∙ ensure-inv _ _ _ (when-inv _ _ _ _ p4 h),
    )

-- What has been checked where the suites are run and end with `code`.
pub record Checked (o : Options) (w : World) (code : ℕ) : Type 0 where
  pub served : w.serve ≡ fine 0
  pub is_ready : AnyReady w.boot_turns
  pub kernels : o.kernel_check ≡ true → w.kernel_check ≡ fine 0
  pub lines : List Text
  pub log_read : w.boot_log ≡ fine lines
  pub log_checked : LogChecked o w lines
  pub measured : w.suites ≡ fine code

zero_of : (n : ℕ) → is_zero_code n ≡ true → n ≡ 0
zero_of n h = ground arith

measure-Checked :
    (o : Options) (w : World) (es : List Event) (code : ℕ)
    → (measure o w es).0 ≡ fine code
    → Checked o w code
unfolding measure
measure-Checked o w es code e =
    let (_, p1, e1) = bind-inv _ _ _ _ e in
    let (_, _, e2) = bind-inv _ _ _ _ e1 in
    let (rc, p3, e3) = bind-inv _ _ _ _ e2 in
    let (_, p4, e4) = bind-inv _ _ _ _ e3 in
    let (_, _, e5) = bind-inv _ _ _ _ e4 in
    let (_, p6, e6) = bind-inv _ _ _ _ e5 in
    let (_, _, e7) = bind-inv _ _ _ _ e6 in
    let (_, _, e8) = bind-inv _ _ _ _ e7 in
    let (lines, p9, e9) = bind-inv _ _ _ _ e8 in
    let (_, p10, e10) = bind-inv _ _ _ _ e9 in
    let (rc', p11, e11) = bind-inv _ _ _ _ e10 in
    let (_, _, e12) = bind-inv _ _ _ _ e11 in
    let (_, _, e13) = bind-inv _ _ _ _ e12 in
    let (_, _, e14) = bind-inv _ _ _ _ e13 in
    record {
      served = p3 ∙ ap fine (zero_of rc (ensure-inv _ _ _ p4));
      is_ready = boot-AnyReady _ _ _ _ p6;
      kernels = λ h.
          (let (rc, q1, q2) = bind-inv _ _ _ _ (when-inv _ _ _ _ p1 h) in
            q1 ∙ ap fine (zero_of rc (ensure-inv _ _ _ q2)));
      lines = lines;
      log_read = p9;
      log_checked = check_boot-LogChecked o w lines _ _ p10;
      measured = p11 ∙ e14;
    }

release-inv :
    (e : Ending) (es : List Event) (code : ℕ) → (release e es).0 ≡ fine code → e.stop ≡ fine code
unfolding release
release-inv e es code h =
    let (_, _, e1) = bind-inv _ _ _ _ h in
    let (_, _, e2) = bind-inv _ _ _ _ e1 in
    let (_, _, e3) = bind-inv _ _ _ _ e2 in
    let (_, p, e4) = bind-inv _ _ _ _ e3 in
    let (_, _, e5) = bind-inv _ _ _ _ e4 in
    let (_, _, e6) = bind-inv _ _ _ _ e5 in let (_, _, e7) = bind-inv _ _ _ _ e6 in p ∙ e7

settle-inv :
    (e : Ending) (c : Call ℕ) (es : List Event)
    → (settle e c es).0 ≡ fine 0
    → (c ≡ fine 0) × (e.tripped ≡ false) × (e.stop ≡ fine 0)
unfolding settle
settle-inv e (fine code) es h =
    let (stop_code, p, e1) = bind-inv _ _ _ _ h in
    let zeros = verdict_code-zero code stop_code e.tripped cc in
    (ap fine zeros.0, zeros.1, release-inv e es stop_code p ∙ ap fine zeros.2)
settle-inv e raises es h = let (_, _, e1) = bind-inv _ _ _ _ h in cc

guarded-inv :
    (o : Options) (w : World) (c : Call (Unit {0})) (es : List Event)
    → (guarded o w c es).0 ≡ fine 0
    → Checked o w 0 × (w.ending.tripped ≡ false) × (w.ending.stop ≡ fine 0)
guarded-inv o w raises es h = let (_, _, e1) = bind-inv _ _ _ _ h in cc
guarded-inv o w (fine u) es h =
    let (p, q, r) = settle-inv w.ending _ _ h in (measure-Checked o w _ 0 p, q, r)

-- A run that gives 0 has started the server and found it ready, the boot log has passed the checks
-- that its options ask for, the suites gave 0, no trip was written and the container stopped with 0.
pub run_passes :
    (o : Options) (w : World)
    → (run o w []).0 ≡ fine 0
    → Checked o w 0 × (w.ending.tripped ≡ false) × (w.ending.stop ≡ fine 0)
unfolding run
run_passes o w e = let (_, _, e1) = bind-inv _ _ _ _ e in guarded-inv o w w.start_watch _ e1
