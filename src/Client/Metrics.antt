-- ===== src/Client/Metrics.antt =====
-- The lines of `/metrics`: `server_metrics` of bench/client.py, `metrics` of bench/longsoak.py and the
-- scrape in `run` of scripts/experiment.py.
use qwen38_flash_next_sglang.Prelude.{
  Bool, not, ◌||◌, Option, none, some, List, [], ◌∷◌, Text, codes, starts_with, mem_text, mem_nat,
  ◌=ₜ◌, ◌==◌, if◌then◌else◌,
}
use qwen38_flash_next_sglang.Prelude.Int.{ℤ, pos, ◌+ℤ◌}

abbrev pub Gauges : Type 0
Gauges = List (Text × ℤ)

-- `out[name] = value`, where the new value is made of the old one
unfoldable pub put : Text → (Option ℤ → ℤ) → Gauges → Gauges
put k f [] = (k, f none) ∷ []
put k f (e ∷ rest) =
    let later = put k f rest in if e.0 =ₜ k then (e.0, f (some e.1)) ∷ rest else e ∷ later

-- `line.rpartition(" ")`, without the space; the first part is empty if there is none
unfoldable pub split_last_space : Text → Text × Text
split_last_space [] = ([], [])
split_last_space (c ∷ cs) =
    let later = split_last_space cs in
    if mem_nat 32 cs then (c ∷ later.0, later.1) else if c == 32 then ([], cs) else ([], c ∷ cs)

-- `key.split("{", 1)[0]`
unfoldable pub metric_name : Text → Text
metric_name [] = []
metric_name (c ∷ cs) = let later = metric_name cs in if c == 123 then [] else c ∷ later

-- A comment, or a line without a value.
abbrev pub is_skipped : Text → Bool
is_skipped line = starts_with line (codes "#") || not (mem_nat 32 line)

-- The name and the text of the value, of a line that counts.
unfoldable pub sample_of : List Text → Text → Option (Text × Text)
unfolding split_last_space metric_name
sample_of want line =
    let parts = split_last_space line in
    let name = metric_name parts.0 in
    if is_skipped line then none else if mem_text name want then some (name, parts.1) else none

-- `float_text` is `float` of a text, `none` where that raises a `ValueError`.
module _ (float_text : Text → Option ℤ) where
  abbrev pub keep_number : Gauges → Text → Option ℤ → Gauges
  keep_number out name none = out
  keep_number out name (some n) = put name (λ _. n) out

  abbrev pub keep_sample : Gauges → Option (Text × Text) → Gauges
  keep_sample out none = out
  keep_sample out (some s) = keep_number out s.0 (float_text s.1)

  abbrev pub server_metric_names : List Text
  server_metric_names =
      codes "sglang:num_used_tokens"
      ∷ codes "sglang:cached_tokens_total"
      ∷ codes "sglang:prompt_tokens_total"
      ∷ codes "sglang:generation_tokens_total"
      ∷ codes "sglang:spec_accept_length"
      ∷ codes "sglang:cache_hit_rate"
      ∷ codes "sglang:token_usage"
      ∷ []

  unfoldable pub scrape : List Text → Gauges → List Text → Gauges
  unfolding sample_of put
  scrape want out [] = out
  scrape want out (line ∷ rest) = scrape want (keep_sample out (sample_of want line)) rest

  -- `none` where the request fails; then nothing has been read.
  unfoldable pub server_metrics : Option (List Text) → Gauges
  unfolding scrape
  server_metrics none = []
  server_metrics (some ls) = scrape server_metric_names [] ls

  abbrev pub add_to : ℤ → Option ℤ → ℤ
  add_to n none = pos 0 +ℤ n
  add_to n (some old) = old +ℤ n

  abbrev pub add_number : Gauges → Text → Option ℤ → Option Gauges
  add_number out name none = none
  add_number out name (some n) = some (put name (add_to n) out)

  abbrev pub add_sample : Gauges → Option (Text × Text) → Option Gauges
  add_sample out none = some out
  add_sample out (some s) = add_number out s.0 (float_text s.1)

  abbrev pub soak_metric_names : List Text
  soak_metric_names =
      codes "sglang:num_running_reqs"
      ∷ codes "sglang:num_queue_reqs"
      ∷ codes "sglang:spec_accept_length"
      ∷ codes "sglang:cache_hit_rate"
      ∷ codes "sglang:token_usage"
      ∷ []

  -- The sums by name; a value that is no number raises.
  unfoldable pub metrics : Gauges → List Text → Option Gauges
  unfolding sample_of put
  metrics out [] = some out
  metrics out (line ∷ rest) = elim (add_sample out (sample_of soak_metric_names line)) [
    | none ↦ none
    | some next ↦ metrics next rest
  ]
