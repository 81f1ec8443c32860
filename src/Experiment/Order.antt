-- ===== src/Experiment/Order.antt =====
-- Which tasks are selected: in a fixed order, none twice, and at least one.
use qwen38_flash_next_sglang.Prelude.{
  if◌then◌else◌, ◌&&◌, ℕ, suc, ◌≤◌, ◌≢◌, Bool, true, false, Bool-cases, inl, inr, none, some, List,
  [], ◌∷◌, ◌++◌, arith, Text, mem_text,
}
use qwen38_flash_next_sglang.Experiment.{Var, Env, get_or, is_on, is_set, Suite, suite_name, Task}
use qwen38_flash_next_sglang.Experiment.Select.{
  Selection, tasks, refused, key_error, when_task, early_tasks, load_tasks, late_tasks, soak_tasks,
  all_tasks, matched, only_of, keep_wanted, selection,
}

-- The place of a suite in a run of all of them.
abbrev pub place_of : Suite → ℕ
place_of Suite.smoke = 0
place_of Suite.prefill = 1
place_of Suite.chunk_tail = 2
place_of Suite.quality = 3
place_of Suite.decode = 4
place_of Suite.effort_probe = 5
place_of Suite.arith_probe = 6
place_of Suite.streams = 7
place_of Suite.mixedload = 8
place_of Suite.longctx = 9
place_of Suite.agentic_off = 10
place_of Suite.agentic_on = 11
place_of Suite.ple_spec = 12
place_of Suite.gsm8k = 13
place_of Suite.soak = 14
place_of Suite.longsoak = 15
place_of Suite.growsoak = 16

-- The places rise strictly from `lo`, so no suite stands twice.
abbrev pub Ascending : ℕ → List Task → Type 0
Ascending lo [] = Unit
Ascending lo (t ∷ ts) = (lo ≤ place_of t.suite) × Ascending (suc (place_of t.suite)) ts

record Rising (lo : ℕ) (ts : List Task) : Type 0 where
  holds : Ascending lo ts

weaken : (lo hi : ℕ) (ts : List Task) → lo ≤ hi → Ascending hi ts → Ascending lo ts
weaken lo hi [] h a = tt
weaken lo hi (t ∷ ts) h a = (omega (arith, a.0), a.1)

when_task-Ascending :
    (lo : ℕ) (b : Bool) (s : Suite) (o : List (Var × Text)) (rest : List Task)
    → lo ≤ place_of s
    → Rising (suc (place_of s)) rest
    → Rising lo (when_task b s o ++ rest)
unfolding when_task
when_task-Ascending lo true s o rest h a = record { holds = (h, a.holds) }
when_task-Ascending lo false s o rest h a = record {
  holds = weaken lo (suc (place_of s)) rest (omega arith) a.holds;
}

keep_wanted-Ascending :
    (wanted : List Text) (lo : ℕ) (ts : List Task)
    → Ascending lo ts
    → Ascending lo (keep_wanted wanted ts)
unfolding keep_wanted
keep_wanted-Ascending wanted lo [] a = tt
keep_wanted-Ascending wanted lo (t ∷ ts) a =
    elim (Bool-cases (mem_text (suite_name t.suite) wanted)) [
      | inl e ↦ rw e (a.0, keep_wanted-Ascending wanted (suc (place_of t.suite)) ts a.1)
      | inr e ↦ rw e (
          keep_wanted-Ascending wanted lo ts
            (weaken lo (suc (place_of t.suite)) ts (omega (arith, a.0)) a.1))
    ]

-- What a selection of tasks is like.
abbrev pub IsOrdered : Selection → Type 0
IsOrdered (refused r) = Unit
IsOrdered (tasks ts) = Ascending 0 ts × (ts ≢ [])

matched-IsOrdered : (ts : List Task) → Ascending 0 ts → IsOrdered (matched ts)
matched-IsOrdered [] a = tt
matched-IsOrdered (t ∷ ts) a = (a, λ e. cc)

only_of-IsOrdered : (s : Selection) (only : Text) → IsOrdered s → IsOrdered (only_of s only)
only_of-IsOrdered (refused r) only h = tt
only_of-IsOrdered (tasks ts) only h = matched-IsOrdered _ (keep_wanted-Ascending _ 0 ts h.0)

if-IsOrdered :
    (b : Bool) (s t : Selection) → IsOrdered s → IsOrdered t → IsOrdered (if b then s else t)
if-IsOrdered true s t h k = h
if-IsOrdered false s t h k = k

grow-Ascending : (b : Bool) (o : List (Var × Text)) → Rising 16 (when_task b Suite.growsoak o)
unfolding when_task
grow-Ascending true o = record { holds = (omega arith, tt) }
grow-Ascending false o = record { holds = tt }

module _ (env : Env) where
  early-Ascending : (rest : List Task) → Rising 7 rest → Rising 0 (early_tasks env rest)
  unfolding early_tasks
  early-Ascending rest a = when_task-Ascending 0 _ Suite.smoke _ _ (omega arith) (
      when_task-Ascending 1 _ Suite.prefill _ _ (omega arith) (
        when_task-Ascending 2 _ Suite.chunk_tail _ _ (omega arith) (
          when_task-Ascending 3 _ Suite.quality _ _ (omega arith) (
            when_task-Ascending 4 _ Suite.decode _ _ (omega arith) (
              when_task-Ascending 5 _ Suite.effort_probe _ _ (omega arith)
                (when_task-Ascending 6 _ Suite.arith_probe _ _ (omega arith) a))))))

  load-Ascending : (rest : List Task) → Rising 12 rest → Rising 7 (load_tasks env rest)
  unfolding load_tasks
  load-Ascending rest a = when_task-Ascending 7 _ Suite.streams _ _ (omega arith) (
      when_task-Ascending 8 _ Suite.mixedload _ _ (omega arith) (
        when_task-Ascending 9 _ Suite.longctx _ _ (omega arith) (
          when_task-Ascending 10 _ Suite.agentic_off _ _ (omega arith)
            (when_task-Ascending 11 _ Suite.agentic_on _ _ (omega arith) a))))

  late-Ascending : (rest : List Task) → Rising 15 rest → Rising 12 (late_tasks env rest)
  unfolding late_tasks
  late-Ascending rest a = when_task-Ascending 12 _ Suite.ple_spec _ _ (omega arith) (
      when_task-Ascending 13 _ Suite.gsm8k _ _ (omega arith)
        (when_task-Ascending 14 _ Suite.soak _ _ (omega arith) a))

  soak-Ascending : (name : Text) → Rising 15 (soak_tasks env name)
  unfolding soak_tasks
  soak-Ascending name =
      when_task-Ascending 15 _ Suite.longsoak _ _ (omega arith)
        (grow-Ascending (is_on env Var.growsoak) _)

  early_ne : (rest : List Task) → early_tasks env rest ≢ []
  unfolding early_tasks when_task
  early_ne rest e = cc

  all_tasks-IsOrdered : IsOrdered (all_tasks env)
  unfolding all_tasks
  all_tasks-IsOrdered =
      let rest = soak_tasks env (get_or env Var.container []) in
      let all_rise =
        early-Ascending _ (load-Ascending _ (late-Ascending rest (soak-Ascending _))) in
      if-IsOrdered
        (is_on env Var.longsoak && elim (env Var.container) [ none ↦ true | some _ ↦ false ])
        (refused (key_error Var.container))
        (tasks (early_tasks env (load_tasks env (late_tasks env rest)))) tt
        (all_rise.holds, early_ne _)

  -- Whatever the environment, a selection that is not refused has at least one task, and its suites
  -- stand in the one order of the source, each at most once.
  pub selection-IsOrdered : IsOrdered (selection env)
  unfolding selection
  selection-IsOrdered =
      if-IsOrdered (is_set env Var.only) (only_of (all_tasks env) (get_or env Var.only []))
        (all_tasks env)
        (only_of-IsOrdered (all_tasks env) (get_or env Var.only []) all_tasks-IsOrdered)
        all_tasks-IsOrdered
