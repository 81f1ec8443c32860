-- ===== src/Experiment/Select.antt =====
-- The list of tasks that `suites` builds from the environment, and the filter `ONLY`.
use qwen38_flash_next_sglang.Prelude.{
  Bool, true, false, not, ◌&&◌, none, some, List, [], ◌∷◌, ◌++◌, if◌then◌else◌, Text, codes, ◌=ₜ◌,
  mem_text, split_on, strip,
}
use qwen38_flash_next_sglang.Experiment.{Var, Env, get_or, is_on, is_set, Suite, suite_name, Task}

-- An exception that leaves `suites` while it selects.
pub data Refusal : Type 0 where
  key_error : Var → Refusal
  only_matched_no_suites : Refusal

pub data Selection : Type 0 where
  tasks : List Task → Selection
  refused : Refusal → Selection

unfoldable pub when_task : Bool → Suite → List (Var × Text) → List Task
when_task true s o = record { suite = s; overrides = o } ∷ []
when_task false s o = []

-- `{name.strip() for name in only.split(',') if name.strip()}`
unfoldable pub names_of : List Text → List Text
names_of [] = []
names_of (name ∷ rest) =
    let kept = names_of rest in elim (strip name) [ [] ↦ kept | c ∷ cs ↦ (c ∷ cs) ∷ kept ]

unfoldable pub keep_wanted : List Text → List Task → List Task
keep_wanted wanted [] = []
keep_wanted wanted (t ∷ ts) =
    let kept = keep_wanted wanted ts in
    if mem_text (suite_name t.suite) wanted then t ∷ kept else kept

abbrev pub matched : List Task → Selection
matched [] = refused only_matched_no_suites
matched (t ∷ ts) = tasks (t ∷ ts)

abbrev pub only_of : Selection → Text → Selection
only_of (refused r) only = refused r
only_of (tasks ts) only = matched (keep_wanted (names_of (split_on b',' only)) ts)

module _ (env : Env) where
  abbrev n_or : Var → Text
  n_or v = get_or env v (get_or env Var.n (codes "3"))

  -- Each group stands before the tasks that the source appends after it.
  unfoldable pub early_tasks : List Task → List Task
  early_tasks rest =
      when_task true Suite.smoke []
      ++ (when_task (is_on env Var.prefill_bench) Suite.prefill
            ((Var.sizes, get_or env Var.sizes (codes "8k,32k")) ∷ (Var.n, n_or Var.prefill_n) ∷ [])
          ++ (when_task (is_on env Var.chunk_tail) Suite.chunk_tail []
              ++ (when_task true Suite.quality ((Var.effort, codes "1") ∷ [])
                  ++ (when_task true Suite.decode
                        ((Var.thinking, codes "both") ∷ (Var.n, get_or env Var.n (codes "3")) ∷ [])
                      ++ (when_task (is_on env Var.effort_probe) Suite.effort_probe (
                            (Var.n, get_or env Var.effort_probe_n (codes "20"))
                            ∷ (Var.thinking, get_or env Var.effort_probe_thinking (codes "off"))
                            ∷ [])
                          ++ (when_task (is_on env Var.arith_probe) Suite.arith_probe (
                                (Var.repeats, get_or env Var.arith_probe_repeats (codes "10"))
                                ∷ (Var.prompts, get_or env Var.arith_probe_prompts (codes "20"))
                                ∷ (Var.thinking, get_or env Var.arith_probe_thinking (codes "off"))
                                ∷ [])
                              ++ rest))))))

  unfoldable pub load_tasks : List Task → List Task
  load_tasks rest =
      when_task (is_on env Var.streams) Suite.streams (
        (Var.n, n_or Var.streams_n)
        ∷ (Var.concurrencies, get_or env Var.concurrencies (codes "1,2,4"))
        ∷ [])
      ++ (when_task (is_on env Var.mixedload) Suite.mixedload (
            (Var.n, n_or Var.mixedload_n)
            ∷ (Var.mixedload_tokens, get_or env Var.mixedload_tokens (codes "64000"))
            ∷ (Var.request_timeout, get_or env Var.mixedload_request_timeout (codes "1800"))
            ∷ [])
          ++ (when_task (not (is_on env Var.quick)) Suite.longctx
                ((Var.sizes, get_or env Var.sizes (codes "8k,32k")) ∷ [])
              ++ (when_task (not (is_on env Var.quick)) Suite.agentic_off (
                    (Var.thinking, codes "off")
                    ∷ (Var.turns, get_or env Var.turns (codes "40"))
                    ∷ [])
                  ++ (when_task (not (is_on env Var.quick)) Suite.agentic_on (
                        (Var.thinking, codes "on")
                        ∷ (Var.turns, get_or env Var.turns (codes "40"))
                        ∷ [])
                      ++ rest))))

  abbrev is_u2 : Bool
  is_u2 = elim (env Var.profile) [ none ↦ false | some t ↦ t =ₜ codes "u2" ]

  unfoldable pub late_tasks : List Task → List Task
  late_tasks rest =
      when_task (is_u2 && not (get_or env Var.spec (codes "nextn") =ₜ codes "off")) Suite.ple_spec
        []
      ++ (when_task (is_u2 && is_set env Var.gsm8k_n) Suite.gsm8k (
            (Var.n, get_or env Var.gsm8k_n [])
            ∷ (Var.thinking, get_or env Var.gsm8k_thinking (codes "off"))
            ∷ [])
          ++ (when_task (is_set env Var.soak_seconds) Suite.soak
                ((Var.soak_seconds, get_or env Var.soak_seconds []) ∷ [])
              ++ rest))

  -- `env['CONTAINER']` raises a `KeyError` where the variable is missing.
  unfoldable pub soak_tasks : Text → List Task
  soak_tasks name =
      when_task (is_on env Var.longsoak) Suite.longsoak (
        (Var.soak_seconds, get_or env Var.longsoak_seconds (codes "86400"))
        ∷ (Var.container, name)
        ∷ [])
      ++ when_task (is_on env Var.growsoak) Suite.growsoak
          ((Var.soak_seconds, get_or env Var.soak_seconds (codes "3600")) ∷ [])

  unfoldable pub all_tasks : Selection
  unfolding early_tasks load_tasks late_tasks soak_tasks when_task
  all_tasks =
      if is_on env Var.longsoak && elim (env Var.container) [ none ↦ true | some _ ↦ false ]
      then refused (key_error Var.container)
      else tasks (early_tasks (load_tasks (late_tasks (soak_tasks (get_or env Var.container [])))))

  -- The tasks that a call of `suites` runs.
  unfoldable pub selection : Selection
  unfolding all_tasks names_of keep_wanted split_on strip suite_name
  selection = if is_set env Var.only then only_of all_tasks (get_or env Var.only []) else all_tasks
