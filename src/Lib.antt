-- ===== src/Lib.antt =====
-- The verification library of DEXPI-datalog: a model of the core of the Python package
-- pydexpi_datalog, which answers questions about process drawings from graph facts, and keeps each
-- question as a durable, replayable turn.
--
-- Parts, and how they interact
--   Prelude   shared names: tests on numbers, lists, dicts as association lists (later puts replace
--             in place, as in Python), texts, and sorting.
--   Json      the JSON values that the code passes on as dict[str, object]. Floats do not occur.
--   Store     pydexpi_datalog/workflow/artifact_store.py. The record ArtifactStore is the protocol
--             with the laws its callers rely on; Store/Key is validate_key, and Store/Local is
--             LocalArtifactStore as a map from validated paths to documents, which fills the record.
--   Trace     pydexpi_datalog/web/execution_trace.py: Trace/Progress is the sanitizing of the live progress
--             channel, which append_progress of Turn calls, Trace/Envelope the texts of an event, and
--             Trace/Render is render_execution_trace, which writes artifacts beside the turns.
--   Turn      pydexpi_datalog/web/turn_lifecycle.py over any ArtifactStore. Turn/Defs has the turn
--             document, Turn/Outcome is _append_result_events, Turn/Lifecycle has the methods. A
--             method is one function from the store's state to the new state and a result; start and
--             resume take execute as a function from state to state and attempt, so that what other
--             threads do meanwhile is part of it. Turn/Steps has the step relation: one step is one
--             section under the lock, of any thread, in any order, or a write of something that is
--             no turn.
--   Topology  pydexpi_datalog/semantics/topology_interpretation.py. Topology/Build is __init__,
--             Topology/Search is reachable_from.
--   Routes    pydexpi_datalog/qa/route_receipts.py: RouteReceiptAuthority as functions on its state.
--             Routes/Defs has the contexts, receipts and signatures, Routes/Authority the methods. A
--             random receipt id is an argument. A resumed artifact is any dict, as a client sends it.
--   Gate      pydexpi_datalog/qa/faithfulness_gate.py. Gate/Layers has the deterministic layers,
--             Gate/Review the model review, Gate/Evaluate puts them together. A layer is the dict
--             that the code builds.
--   Findings  pydexpi_datalog/verification: Findings/Suppress is suppressions.py, waivers applied to
--             findings, and Findings/State is validation_state.py, which groups what remains.
--   Direction pydexpi_datalog/qa/flow_direction.py: the review of inferred flow directions.
--   Intent    pydexpi_datalog/qa/structured_intent.py: Intent is normalize_structured_intent, Intent/Compare
--             is compare_structured_intents. Gate/Compared puts it into the gate.
--   Comments  pydexpi_datalog/qa/structured_intent.py: without_datalog_comments, by modes that stand for
--             the flags of the loop and for the places that its jumps lead over.
--   Benchmark pydexpi_datalog/benchmark: Benchmark/Contract is contract.py, Benchmark/Grader is grader.py,
--             whose floats are the exact ratios they stand for, and Benchmark/Results is the
--             validation of runs and the decision rule of results.py; the record of a decision has
--             the parts of its dict that depend on the runs, less percentages and the verdict line.
--             Benchmark/Rubric reads the judgments of trap_rubric.py.
--             Reports and episodes are JSON values, as they are read. Exceptions that Python raises by
--             itself (a KeyError, say) are error values beside those of the program.
--   Semantics pydexpi_datalog/semantics/derive_graph_semantics.py: graph facts as the text of a program for
--             Soufflé. The reader of symbols in Semantics/Read is part of the specification.
--   Promotion pydexpi_datalog/verification/promote_advisory.py: Promotion drafts rules, Promotion/Version
--             counts up the version of a pack, Promotion/Confirmed appends a confirmed rule to its text.
--
-- Choices
--   ids, texts and hashes are texts; a raised exception is an error value or none. sha256, json.dumps,
--   str of a JSON value, repr, int, json.loads, str.lower, re, NFKC folding and the keyed HMAC are
--   parameters. Of sha256 the theorems on turns suppose 64 characters without a slash, by which the
--   keys of turns and of trace artifacts differ. In Gate and Routes the normalizing and comparing of
--   intents are parameters too, which Gate/Compared fills in with the code's.
--   Graph facts have the keys that Topology/Facts names: a node its id and attributes, an edge its
--   ends and its key. That the code raises a KeyError for a missing one is left out.
--   A document at the key of a turn is a turn; what the code makes of another dict there is left out.
--   The search of Topology/Search runs on limit + 1 rounds of fuel: each round but the first takes up
--   an object that was reported, and at most limit objects are reported.
--   The store laws leave out input errors of the disk; one write is one step.
--
-- Not modelled
--   Model providers, web glue, command line, benchmark drivers, the export by pyDEXPI, the Soufflé
--   process and the S3 store are input and output. Rule packs and review sessions are left out.
pub mod Prelude
pub mod Promotion
pub mod Json
pub mod Store
pub mod Trace
pub mod Turn
pub mod Topology
pub mod Routes
pub mod Gate
pub mod Findings
pub mod Direction
pub mod Comments
pub mod Benchmark
pub mod Semantics
pub mod Intent
