-- ===== src/Lib.antt =====
-- The launch and measurement harness of an SGLang recipe for one DGX Spark.
--
-- The program boots a model server in a container, guards the machine's memory while it runs, puts
-- it through suites of requests, judges their reports, and stops it. Beside it stand the tools
-- that prepare the server's inputs (the draft vocabulary, patches of the server's sources). The
-- parts call each other as processes and through JSON files, so each is a module here and what one
-- takes from another is a value or a parameter.
--
-- Prelude: numbers, lists, texts as lists of code points, and the Boolean tests.
--
-- Json: values as `json.loads` gives them, with the exception that each operation raises.
--
-- Experiment (scripts/experiment.py): `suites` chooses the tasks (Select, Order), runs each under
-- a deadline and writes the summary after each (Suites, Record, Verdicts), `validate` judges the
-- report of a suite (Validate, Gates, Evidence, Accepts), `bounded` polls a child process and
-- clears its process group away (Bounded), `main` makes the settings of a profile (Profiles,
-- Kept), and the safe launch flags are read for the record (Flags, Recorded). What a child does
-- and how a text is read as a float are parameters. Times are in milliseconds, fractions of
-- reports in millionths.
--
-- Patches (patches/*.py): the scripts that edit the server's sources by replacing texts that must
-- occur exactly once. A file is the list of its code points.
--
-- Bfcl (bench/bfcl.py): the schemas and tools of a case (Schema), the calls merged from a streamed
-- answer and their check against the ground truth, `run_case` with its loop over turns and steps
-- (Run, Cases), and the summary of `main` (Report). The server is a function of the tools and of
-- every conversation sent so far, so that it may answer in any way; the files, `json.loads`,
-- `str.lower` and the reading of a float are parameters. The loop over steps is structural in what
-- is left of MT_MAX_STEPS.
--
-- Client (bench/client.py): the request bodies and the limits on a request (Client), the loop over
-- a stream's lines (Events), `chat`, `chat_stream` and `tok_s` (Calls), and the gauges read from
-- the server, with `metrics` of bench/longsoak.py (Metrics). The clock is the sequence of its
-- readings, of which those of `chat_stream` are in nanoseconds so that the rounding of a chunk's
-- time to microseconds shows, the server and `json.loads` are parameters, and rates are kept as
-- quotients before rounding.
--
-- Longsoak (bench/longsoak.py): `Busy` and the pauses for samples as moves of the threads in any
-- order, and what a pause holds back (Busy, Pause), the measurements of `sample` up to the first
-- call that raises (Sample), and `write` with the exit code (Report, Judged). The wait for the
-- server to clear is a recursion on the list of its rounds; `flush_cache` makes at most its 30
-- tries.
--
-- Bench (bench/quality.py, longctx.py, ple_spec.py, soak.py, agentic.py, prefill.py, mixedload.py,
-- effort_probe.py): what each suite asks and makes of the answers, the report that it writes for
-- `validate`, and its exit code. Bench has what the suites share, Graded how `validate` reads it.
-- Quality, Longctx, PleSpec, Soak, ToolCalls with Agentic, Prefill, Mixedload and Effort are the
-- suites; Haystack, Prompt and Times are their prompts and measures; Accepted, Soaked, Turns and
-- Told with Session, Groups with Prefilled, Mixed and Diverges are about their reports, Pieces
-- about the calls that a stream breaks up. The server is a function of the request and its place
-- in the run; the rounding of floats, `json` and the formatting of numbers are parameters. Each
-- loop of `haystack` has as many rounds as its limit, and gives nothing if they do not suffice;
-- they do, since each addition makes the estimate larger (Grown); the bisection has its 14 rounds;
-- the loop of the soak has fuel, and a theorem gives how much is enough.
--
-- Lifecycle (scripts/experiment.py, `run`): the steps of one served experiment from the inventory
-- to its clean-up. Each external call is a field of `World` that gives a value or raises; a run is
-- a function of the events so far to its result and the events. The boot loop is a recursion on
-- the list of its turns. What is only recorded (metrics, acceptance, load progress) is left out.
--
-- Memwatch (scripts/memwatch.py): the policy that trips on low memory, swap, allocation failures
-- or driver errors, and the loop around it, over a list of rounds, with the calls after a trip,
-- each of which may raise (Loop, Ends). Memory is in KiB and times are in milliseconds.
--
-- DraftVocab (scripts/build_draft_vocab.py, and scripts/slice_draft_vocab.py in Slice): counting
-- the tokens of a corpus, ranking them and cutting the list to its size, with the special tokens
-- kept. The tokenizer is a parameter.
--
-- Inventory (scripts/inventory.py): `bind_identity`, which binds a backing file and its directory
-- to one checkpoint, and `ple_identity`, which lays the shards of a checkpoint out over the table
-- and compares windows of both (Table, Windows, Sampled). SHA-256, the matching keys of the index
-- and the tensors of the headers are parameters.
--
-- Loops that the source leaves by a condition of the environment are recursions on the list of
-- what each round observes, so they need no fuel; a theorem says when they end. Three loops have
-- fuel: the reading of launch flags has one turn for each argument, and each turn reads at least
-- one; `haystack` and the soak are as said above.
--
-- Not modelled: the medians, rates and timings of the benchmark suites, and the other suites
-- (bench/decode.py, streams.py, growsoak.py, gsm8k.py, arith_probe.py, chunk_tail.py, compare.py),
-- the workers of bench/longsoak.py, the patches that search with regular expressions or insert GPU
-- code, the snapshot builder, the proxy, the GPU kernels (patches/kda_kernels), the shell scripts
-- that build and start the container, and the unit tests. Their work is input and output, or code
-- of libraries whose sources are not in the repository, or it does not bear on the properties
-- below.
pub mod Prelude
pub mod Json
pub mod Lifecycle
pub mod Memwatch
pub mod DraftVocab
pub mod Experiment
pub mod Bfcl
pub mod Patches
pub mod Inventory
pub mod Client
pub mod Longsoak
pub mod Bench
