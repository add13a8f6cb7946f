-- ===== src/Lib.antt =====
-- The interview orchestrator of tech-screen-ai: its state machine, the shell that drives a session,
-- the agents and the table that they work with, the rubric that sessions are scored by, the feature
-- flags and the sign-in of staff.
--
-- A session is a pure state machine: `transition(state, event, config)` returns the next state and
-- the commands that the session shell must carry out. Agents never route: the Interviewer speaks
-- the move that the machine chose, the Assessor scores an answer, and both come back as events. The
-- shell drives an event through the machine: after every transition it saves the state in the table
-- `interview_session`, carries out the commands, and feeds the events of the agents back in.
--
-- The rubric is files in a repository. A check compares each change of them with the files before,
-- an import writes them into the database as a new version, and a session keeps a frozen copy of
-- one.
--
-- Files, and the code that they model:
--
-- * Orchestrator/Plan, Config (app/backend/orchestrator/plan.py, config.py): the interview plan
--   with its validation and look-ups, the thresholds, and the bounds that pydantic declares for
--   both (`IsPlan`, `IsConfig`).
-- * Orchestrator/Command, Event, State (app/backend/orchestrator/state_machine.py): commands,
--   events, the session state, `initial_state`, and `Result`, which is a value or the exception
--   raised (`OrchestratorStateError` in its two places, `IndexError`, `OverflowError`). `_evolve`
--   is the update of a record. `Command.outbound` wraps the four commands that may be outstanding.
-- * Orchestrator/Adjudication, Coverage, Context, Moves, Budget: `adjudicate` with its tests, the
--   updates of the coverage, the `move_context` builders, turn ids and the helpers that issue a
--   command or change phase, the time budgets.
-- * Orchestrator/TechTurn, Handlers, Transition: one function for each handler, `transition`, and
--   `run` over a list of events.
-- * Orchestrator/Persistence (app/backend/orchestrator/persistence.py): encode, decode, load, save.
-- * Agents/Output, Call, Interviewer, Assessor (app/backend/agents/interviewer.py, assessor.py,
--   with the request, result and errors of app/backend/llm/vertex.py and errors.py): the typed
--   inputs and outputs, and a turn of each agent with its one retry.
-- * Llm/Pricing, Models, Trace, Backend, Keys, Schema, Reply, Client (app/backend/llm/pricing.py,
--   models_config.py, trace.py, _backend_protocol.py, vertex.py): prices, the model of each agent,
--   the trace record; the replies of a backend and `_call_with_retries` over them;
--   `_validate_against_schema` over any schema; and `call_model`, one function for each of its
--   steps and handlers, over its collaborators (`Client`).
-- * Llm/Ledger (app/backend/llm/cost_ledger.py, persistent_cost.py, and `session_cost_total` of
--   persistent_trace.py): the two ledgers, and the guard of the session's ceiling.
-- * Session/Working, World, Inputs, Execute, Drive, View, Service
--   (app/backend/services/dev_session.py): the session in memory; the tables, the scheduled tasks,
--   the collaborators (`Wiring`) and the monad of an exception over them; the inputs of the agents;
--   `_execute_one` with the agents' calls; `_drive`; the view; and the service's operations with
--   `_load`, `_insert_session` and the task of `_schedule_assessor` (`run_task`).
-- * Rubric/Document, Tables, Materialise, Seed (app/backend/services/rubric_importer.py,
--   app/backend/db/models/rubric.py): a file as a typed document, the tables as lists of rows in
--   the order of insertion, the three passes of `_materialise_stack`, and `RubricImporter.seed` as
--   one transaction that ends in a result or an exception (`Seeded`).
-- * Rubric/Workbook, Sheet, Convert (rubric_importer.py again): a workbook's sheet as rows of
--   cells, `_read_sheet`, the document that its competencies become, and `convert` over the sheets.
-- * Rubric/Snapshot (app/backend/services/rubric_snapshot.py,
--   app/backend/schemas/rubric_snapshot.py): the queries with their orders, and the copy that they
--   are assembled into.
-- * Rubric/Gate (scripts/sync_rubric_to_db.py): the check of a change, its findings and exit codes.
-- * FeatureFlags/Service, Tasks (app/backend/services/feature_flags.py): the registry, the cache
--   and `is_enabled` in the two parts that its `await` leaves; the queries as tasks of one event
--   loop, `step` by step, with notifications and time between them.
-- * Auth/Roles (infra/functions/auth_claims/roles.py): `load_mapping` and `decide`. Auth/Claims,
--   Verifier (app/backend/services/auth.py): `_check_claims`, the store of certificates, `verify`.
-- * Json, Prelude: the values of `dict[str, Any]`; lists and dictionaries, Python's `==` on keys,
--   signed integers, `str(n)`.
--
-- Proofs: Orchestrator/Runs carries a property from transitions to runs; Orchestrator/Invariant
-- (what each phase relies on), Progress, TurnIds, Signals, Flags, Phases, Attribution, Replies,
-- Coverage/ and Adjudication/ hold the theorems on the machine, Persistence/RoundTrip and Resume
-- those on the table, Agents/Retry and Integrity those on the agents. Session/Drive/ holds the
-- proof that the loop returns (Rank: what an event can still cause; Ran and Commands: what
-- executing leaves; Round: one round; Total: the loop), Session/Service/ those on the operations.
-- Llm/Audit holds those on `call_model`, through a client that logs (Retries: the loop; Endings,
-- Results, Calls: the one trace; Ceiling: the budget), Llm/Pricing/Sums that on costs,
-- Llm/Schema/Contract that on the check of a payload.
-- Rubric/Branches splits the ends of an import, Frame says what the inserts of one file leave alone
-- (`IsBlind`); Frozen, Receipt, Names, Mentions, Removal and Admission build on them; Importable
-- and Linked hold those on the conversion. FeatureFlags/Fresh holds the invariant of the tasks,
-- Auth/Staff and SignIn join the decision to the check of the token, Auth/Spacing counts the forced
-- fetches. Samples holds the data that the modules named Examples use.
--
-- Choices of the model:
--
-- * A `UUID` is its canonical text. Times are microseconds, as `datetime` has them, and a
--   difference of times is an integer; the source's `float` of seconds is compared exactly, in
--   microseconds.
-- * A confidence is the bit pattern of a double of [0, 0.99]. On non-negative doubles the patterns
--   are ordered as the numbers are, and the code only compares them.
-- * Python's integers have no bound, and neither have the numbers here. What a `timedelta` or a float
--   cannot hold is an exception (`StateError.overflow`): the handlers raise it for the minutes of a
--   plan and of the candidate timeout, whose declared bounds admit it. The theorems that exclude it
--   ask for minutes that fit (`IsPlan`, `IsSound`).
-- * Every function is total and structural: `run` recurs on the list of events. The one bound is
--   the source's own, `_MAX_DRIVE_STEPS` = 64 rounds of the drive loop. It is enough, since no
--   event causes more than four rounds.
-- * In the shell an exception ends the operation and leaves what was written before it. The tables
--   are dictionaries; `session_state` and `dev_transcript` are written together, as in one
--   transaction. The model, the ledger, the clock and the fresh id may change an outside of any
--   type, and what they read of the tables is an argument. A task runs on its own, `run_task`,
--   whenever the scheduler picks it.
-- * `uuid5`, `json.dumps`, the JSONB cast and pydantic's validation are parameters. What is relied
--   on is named: `Validates` (pydantic returns only plans within their declared bounds, and those
--   handed in have minutes that fit), `IsCollisionFree` (uuid5 has no collision), `IsLossless`, `KeepsLog` and `ReadsVersion` (what is
--   dumped is read back, at its version). Each is shown to hold of a concrete function in Examples.
-- * The chat log is dumped entry by entry, cast, and decoded by pydantic entry by entry, which may
--   fail. The cast may refuse a document (`Wiring.accepts`), as Postgres does one with \u0000; a save
--   then writes neither column.
-- * A request that is out of the bounds of `ModelCallRequest` raises before the model is called, and
--   an exception of a call that is no `WrapperError` passes through the agents; both leave the drive
--   loop. `IsRefusal` lists these exceptions with their causes. That the database, the guard of the
--   budget or a sink outside of `call_model` fails is not modelled.
-- * A price is a number of some unit u per 1000 tokens and an amount a number of u/1000, so that
--   the cost is an exact integer, as the source's `Decimal` is on amounts of this size. The clock
--   of `call_model` counts nanoseconds, for the source's `float` of seconds.
-- * The column of a trace's cost rounds, and is a function that `session_cost_total` is given.
-- * The loop of tenacity is a recursion on the attempts left, at most three in all. The time limit
--   of `asyncio.wait_for` is an answer of the backend (`out_of_time`) or of the wait between
--   attempts.
-- * A cell of a workbook is its text; NFC, `_slugify`, `int` and the split of a cell are
--   parameters.
-- * A file of the rubric is what `yaml.safe_load` and the schema's validation leave of it, a typed
--   document; both, SHA-256, the ids that the database generates, its orders of texts and ids and
--   the row that an unordered LIMIT 1 leaves are parameters. A transaction that raises leaves the
--   tables as they were. `created_at` is a number that the import is given.
-- * The table of the flags is a function of time, since others write it; a query reads it once, at
--   any time after it began. Times are milliseconds there, and of any unit in Auth.
-- * `str.lower`, `str.strip`, the decoders of google-auth and what a fetch returns are parameters.
-- * An agent takes the call of the model as an argument that may change a state of any type, which
--   stands for the trace sink, the ledger and the backend. Its prompt files are parameters.
--
-- Not modelled: the text of a candidate-facing file (`_extract_script`, `_render_script`: a
-- parameter), the trace contexts, digests and log lines of the shell, and `list_traces`; messages
-- and log lines of `call_model`, the Postgres trace sink, the connection of the flags' listener,
-- position templates, the HTTP API, and what only reads files or declares database tables.
pub mod Prelude
pub mod Json
pub mod Agents
pub mod Orchestrator
pub mod Llm
pub mod Session
pub mod Rubric
pub mod FeatureFlags
pub mod Auth
