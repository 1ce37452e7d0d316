-- ===== src/Lib.antt =====
-- runboard-lcp: the run board of one inference box that serves one model on one port. The console
-- queues jobs as files; every 15 seconds the dispatcher takes the oldest one, switches the engine where
-- the job asks for it, runs an eval or a download, brings the baseline engine back, and records what
-- came of it in status.json and history.json.
--
-- The parts, by file of the repository:
--   console_core.py: Core/Config (PRESETS, ENGINES, the limits), Core/Disk (disk_free_gb,
--     download_allowed), Core/Jobs (validate_job, job_public_view), Core/Token (read_token, bearer,
--     token_ok).
--   registry.py: Registry/Catalogue (CATALOGUE), Registry/Live (live_engine and the probes under it).
--   dispatcher.py: Dispatcher/Doc (status.json and the entries of history.json), Dispatcher/Session
--     (run), Dispatcher/Status (the class Status), Dispatcher/Queue (oldest_job and the job files),
--     Dispatcher/Switch (busy_with_something_else, probe_generation, do_switch), Dispatcher/Eval,
--     Dispatcher/Download, Dispatcher/Finish (finish), Dispatcher/Restore (the finally block of main),
--     Dispatcher/Main (main).
--   live_server.py: Server/Desk (what the server works on, auth_log), Server/Post (do_POST), Server/Get
--     (do_GET, _page), Server/Send (_send). new_job_id of console_core.py is in Core/JobId.
--   ui_chrome.py: Server/Chrome (VIEWS, nav_html, inject).
--   engine_metrics.py: Metrics/Names (the tables, _m, expr_for), Metrics/Parse (parse_engine),
--     Metrics/Stream (note_single_stream), Metrics/Prom (instant, prom_range), Metrics/Grid (on_grid),
--     Metrics/Recent (recent), Metrics/Series (series), Metrics/Card (_fmt_val, _item, the loops of
--     block), Metrics/Block (_openai_model, _note, block).
--   run_throughput.py: Throughput/Rows (read_rows), Throughput/Compute (compute), Throughput/RunDir
--     (find_run_dir, block). corrected_metrics.py: Corrected (summarize, rolling_aggregate),
--     Corrected/Overlay (overlay).
--   zgx_exporter.py: Exporter (gauge), Exporter/Sampling (sample_gpu, sample_mem, serving_up),
--     Exporter/Collect (load_metrics, dispatch_metrics, collect), Exporter/Serve (do_GET).
--   live_metrics.py: Live/PromText (parse_prom_text), Live/Spec (window_spec, the tables, boxes_spec),
--     Live/Boxes (_fmt_val, _items, _box_block), Live/Sparks (prom_range, cached_sparks), Live/Doc
--     (_job_block, _age_label, build_live).
--   history_collector.py: History/Rates (_elapsed, rates, by_family), History/Runs (collect_run,
--     manual_status), History/Types (group_eval_types), History/Collect (closed_summary_families, main).
--   load_soak.py: Soak/State (_state, _push, write_state), Soak/Prompts (load_prompts, build_shapes),
--     Soak/Worker (post, worker), Soak/Telemetry and Soak/Readings (telemetry), Soak/Phases (main); the
--     runs of its threads are in Soak/Events.
--   The Hub's client of console_core.py (hf_get to hf_plan) is in Core/Hub.
-- Base holds what they share, Json the parsed documents. The proofs stand below the part that they are
-- about, and Tests has a box to run the dispatcher on, requests and numbers.
--
-- What is outside the repository is a parameter. Host is the box: processes, HTTP, files and the clock,
-- each an operation that may change the state of the box in any way; Floats is the arithmetic of
-- Python's floating-point numbers. Code that may raise is an action: it takes the session (the box, the
-- files, the Status object) and gives a value or an exception with the session as it was left, so that
-- what was written before an exception stays written.
--
-- The two loops that wait for a process run on fuel: the time limit in seconds plus 2, and 14402. A
-- round sleeps 10 or 15 seconds, so where sleeping advances the clock (Dispatcher/Clock)
-- the limit strikes before the fuel is used up. A loop without fuel raises, as a job that fails does; under
-- Dispatcher/Clock this does not happen, and the code, which has no fuel, would go on.
--
-- Left out: time stamps, and the numbers and times in a line of the log; the reading of fields from
-- the runner's summary.json, which is kept as it was parsed; what `build` of registry.py writes. File
-- contents are given by the value that they parse to, the queue holds the files that end in .json, and
-- a job id or a model id that is no text counts as missing. The free space of the disk is measured
-- before a job is validated, also where validation does not read it.
-- In the server, a request reads the token file once, the text of an error and the fields of a line of
-- auth.log are left out, and a job id with a slash names a file outside the queue folder. `int` of a text
-- takes a sign and decimal digits, and no underscores. The stylesheet and the script of the pages, the
-- compression of a response, the tables of isalnum (Texts) and the documents that other modules make
-- for a route are parameters or names. In the metrics, Reals is the arithmetic of floating-point numbers
-- and Prometheus its HTTP answers; times are whole seconds after 1970, a window is shorter than the time
-- since then, a step is not 0, and the quotient that gives the index on the grid is exact. The keys of
-- JSON documents that name things (revisions, phases, ids of models, presets and engines) are texts, and
-- the measurements of the free space in hf_plan are numbered, each with an answer of its own. `sum` is a parameter in run_throughput.py; in corrected_metrics.py and load_soak.py it adds from
-- the left, which for floating-point numbers is what CPython does before 3.12. Printer, Rounding, Digits and
-- Hub hold the rounding and printing of numbers, and the HTTP answers. The texts of the numbers that the
-- exporter prints are parameters (Numbers), and so is what overlay of corrected_metrics.py makes of a state;
-- phases that are no list are what a loop over them runs over, and the time of a state file is there where
-- the file can be read. In the index of the runs, an entry has no fields that are copied from the summary
-- as they are, and no coverage; the families and the times are texts, Statistics holds mean, median and
-- rounding, and the shapes and the record of the load soak are left out. The numbers that overlay of
-- corrected_metrics.py puts into a state are floats. In build_live the engine's block stands by whether it
-- was reached and its first detail, and the addresses are those without the variables of the environment.
-- Ticks that follow one another work on one session: what the box does in between is in its operations.
-- In the load soak, the steps of the threads come in any order: what a worker or the telemetry
-- thread does under the lock, and what main does up to the next change that another thread can
-- see; the failures of a phase, which the workers count outside the lock, are counted in the same
-- step. Its state is a record without the times of the run, a published state is the record,
-- state.json can be written, and the exceptions of post are named by a parameter.
-- dir_gb and download_progress of console_core.py and the tools are not modelled.
pub mod Base
pub mod Json
pub mod Core
pub mod Host
pub mod Registry
pub mod Dispatcher
pub mod Server
pub mod Metrics
pub mod Tests
pub mod Throughput
pub mod Corrected
pub mod Live
pub mod Exporter
pub mod History
pub mod Soak
