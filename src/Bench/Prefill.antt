-- ===== src/Bench/Prefill.antt =====
-- `summarize`, `ask`, `run_size` and `main` of bench/prefill.py. `ask n messages` is the reply of
-- `chat_stream` to the request `n` of the run. The I/O of the scheduler and the medians are left out.
use qwen38_flash_next_sglang.Prelude.{
  ℕ, zero, suc, ◌+◌, ◌*◌, Bool, Option, none, some, split_on, List, [], ◌∷◌, ◌++◌, map, take, Text,
  codes, ◌==◌, if◌then◌else◌,
}
use qwen38_flash_next_sglang.Prelude.Int.{ℤ, pos}
use qwen38_flash_next_sglang.Json.{
  Value, null, bool, num, str, arr, obj, end, field, Result, ok, ◌>>=◌,
}
use qwen38_flash_next_sglang.Json.Objects.{int, items}
use qwen38_flash_next_sglang.Client.Calls.{Rate, StreamReply}
use qwen38_flash_next_sglang.Bench.{Grading, failures, code_of, report_with, has_code, both_texts}
use qwen38_flash_next_sglang.Bench.Quality.{user}
use qwen38_flash_next_sglang.Bench.Haystack.{prefill_haystack}
use qwen38_flash_next_sglang.Bench.Prompt.{question, real_prompt}
use qwen38_flash_next_sglang.Bench.Sizes.{parts_of, tokens_of}

pub data Kind : Type 0 where
  cold_prefix real_fresh_docs ple_warm_prefix_cold prefix_warm : Kind

unfoldable pub kind_text : Kind → Text
kind_text cold_prefix = codes "cold_prefix"
kind_text real_fresh_docs = codes "real_fresh_docs"
kind_text ple_warm_prefix_cold = codes "ple_warm_prefix_cold"
kind_text prefix_warm = codes "prefix_warm"

pub record Row : Type 0 where
  pub size : Text
  pub i : ℕ
  pub kind : Kind
  pub reply : StreamReply
  pub needle_pass : Bool

pub record Group : Type 0 where
  pub size : Text
  pub target_tokens : ℕ
  pub rows : List Row
  pub failed : ℕ

-- How the numbers of a reply are rounded and written
pub record Numbers : Type 0 where
  -- `round(n, 3)`, of seconds in nanoseconds, which gives millionths
  pub round3 : ℕ → ℕ
  pub rate : Rate → Value
  pub percent : Option (ℤ × ℤ) → Value
  -- a number in an f-string
  pub shown : ℕ → Text

unfoldable pub row_value : Numbers → Row → Value
unfolding kind_text
row_value n r = obj (
    field (codes "size") (str r.size) (
      field (codes "i") (int r.i) (
        field (codes "kind") (str (kind_text r.kind)) (
          field (codes "ttft_s") (num (pos (n.round3 r.reply.ttft_s))) (
            field (codes "seconds") (num (pos (n.round3 r.reply.seconds))) (
              field (codes "prompt_tokens") (num r.reply.prompt_tokens) (
                field (codes "cached_tokens") (num r.reply.cached_tokens) (
                  field (codes "cache_hit_pct") (n.percent r.reply.cache_hit) (
                    field (codes "prefill_tps") (n.rate r.reply.prefill_tps) (
                      field (codes "decode_tps") (n.rate r.reply.decode_tps) (
                        field (codes "completion_tokens") (num r.reply.completion_tokens) (
                          field (codes "needle_pass") (bool r.needle_pass) (
                            field (codes "content") (str (take 80 r.reply.content)) end)))))))))))))

abbrev pub row_grading : Numbers → Grading Row
row_grading n = record { value = row_value n; passed = λ r. r.needle_pass }

unfoldable pub group_value : Numbers → Group → Value
unfolding row_value items
group_value n g = obj (
    field (codes "size") (str g.size) (
      field (codes "target_tokens") (int g.target_tokens) (
        field (codes "rows") (arr (items (map (row_value n) g.rows)))
          (field (codes "failed") (int g.failed) end))))

abbrev pub one_message : Text → Value
one_message content = arr (items (user content ∷ []))

unfoldable pub hit_of : StreamReply → Bool
unfolding has_code
hit_of r = has_code (both_texts r.content r.reasoning)

-- The sizes of `SIZES`, or none if one is unknown
abbrev pub with_size : Text → Option ℕ → Option (List (Text × ℕ)) → Option (List (Text × ℕ))
with_size part (some tokens) (some sizes) = some ((part, tokens) ∷ sizes)
with_size part _ _ = none

unfoldable pub sizes_of : List Text → Option (List (Text × ℕ))
unfolding tokens_of
sizes_of [] = some []
sizes_of (part ∷ parts) = with_size part (tokens_of part) (sizes_of parts)

unfoldable pub all_rows : List Group → List Row
all_rows [] = []
all_rows (g ∷ gs) = g.rows ++ all_rows gs

unfoldable pub all_failed : List Group → ℕ
all_failed [] = 0
all_failed (g ∷ gs) = g.failed + all_failed gs

-- `N` repeats, of documents if `real`; `count` is the tokenizer of the server, and `pid` the process.
module _ (ask : ℕ → Value → Result StreamReply) (count : Text → Result ℕ) (loaded : List Text)
    (numbers : Numbers) (pid repeats : ℕ) (real : Bool) where
  abbrev pub salt_of : Text → ℕ → Text
  salt_of label i =
      label
      ++ (codes "-"
          ++ (numbers.shown i
              ++ (codes "-" ++ (numbers.shown pid ++ (codes "-" ++ numbers.shown (i * 10007))))))

  -- The content of a prompt, and the documents that are left
  abbrev pub content_of : Text → ℕ → ℕ → List Text → Result (Text × List Text)
  content_of label tokens i docs =
      if real
      then real_prompt count loaded tokens (salt_of label i) docs
      else ok (prefill_haystack tokens (salt_of label i) ++ question, docs)

  abbrev pub kind_of : ℕ → Kind
  kind_of i = if i == 0 then cold_prefix else if real then real_fresh_docs else ple_warm_prefix_cold

  abbrev pub row_of : Text → ℕ → Kind → StreamReply → Row
  row_of label i kind r = record {
    size = label;
    i = i;
    kind = kind;
    reply = r;
    needle_pass = hit_of r;
  }

  -- The repeats from `i` on: their rows, the last messages and the documents that are left
  unfoldable pub cold_rows :
      ℕ → Text → ℕ → ℕ → ℕ → Value → List Text → Result (List Row × (Value × List Text))
  unfolding real_prompt prefill_haystack hit_of
  cold_rows zero label tokens n i msgs docs = ok ([], (msgs, docs))
  cold_rows (suc left) label tokens n i msgs docs = do
    content ← content_of label tokens i docs
    r ← ask n (one_message content.0)
    rest ← cold_rows left label tokens (suc n) (suc i) (one_message content.0) content.1
    ok (row_of label i (kind_of i) r ∷ rest.0, rest.1)

  -- The group of a size, from the request `n` on
  unfoldable pub run_size : ℕ → Text → ℕ → List Text → Result (Group × List Text)
  unfolding cold_rows hit_of failures
  run_size n label tokens docs = do
    cold ← cold_rows repeats label tokens n 0 null docs
    r ← ask (n + repeats) cold.1.0
    let rows = cold.0 ++ row_of label repeats prefix_warm r ∷ []
    ok (
      record {
        size = label;
        target_tokens = tokens;
        rows = rows;
        failed = failures (λ x. x.needle_pass) rows;
      },
      cold.1.1,
    )

  unfoldable pub groups_of : ℕ → List (Text × ℕ) → List Text → Result (List Group)
  unfolding run_size
  groups_of n [] docs = ok []
  groups_of n (s ∷ sizes) docs = do
    g ← run_size n s.0 s.1 docs
    rest ← groups_of (n + repeats + 1) sizes g.1
    ok (g.0 ∷ rest)

  -- The report, with its keys in another order, and the exit code
  unfoldable pub report_of : List Group → Value × ℕ
  unfolding all_rows all_failed group_value items row_value
  report_of groups = (
    report_with (map (row_value numbers) (all_rows groups)) (all_failed groups)
        (field (codes "groups") (arr (items (map (group_value numbers) groups))) end),
    code_of (all_failed groups),
  )

  abbrev pub run_if : Option (List (Text × ℕ)) → List Text → Result (Option Value × ℕ)
  run_if none docs = ok (none, 1)
  run_if (some sizes) docs = do
    groups ← groups_of 0 sizes docs
    ok (some (report_of groups).0, (report_of groups).1)

  unfoldable pub prefill_main : Text → Result (Option Value × ℕ)
  unfolding groups_of report_of sizes_of parts_of split_on
  prefill_main sizes = run_if (sizes_of (parts_of (split_on 44 sizes))) []
