-- ===== src/Lib.antt =====
-- OrganizationAI: a temporary decision history for synthetic expense requests, in Python
-- (backend/app). A submitted case is normalized (Layer 1), decided by five rules in order (Layer 2)
-- and stored with a chain of audit events, in one transaction. A reviewer then pauses, resumes,
-- reviews or undoes through the Control Deck, which appends one event a command. The visible control
-- state is never stored: it is the replay of the events.
--
-- The files, and the code that each models:
--   Base             names passed on, and helpers: Booleans, Lists, Int (integers), Text (str.strip),
--                    Json (values, UUIDs), Result (Python exceptions as values), Sort and Query
--                    (sorted and SQL's where), with their lemmas
--   Domain/Enums     backend/app/domain/enums.py: each enum is a data type, with `*_value` for
--                    `.value` and `outcome_of` for `DecisionOutcome(text)`
--   Domain/Models    backend/app/domain/models.py: each pydantic model is a record, and `new_*` is
--                    its constructor, with the validators in order; Models/Validity tells what passes
--   Domain/Control   backend/app/domain/control.py: Vocabulary, Reduce (reduce_control_state), Plan
--                    (plan_control_command). Deck is what these promise, as a state machine;
--                    Reversal, History, Order, Prefix and Live are about the planner and the reducer
--                    together
--   Policy           backend/app/policy: Profile, Normalization (with Laws), Evaluator (Drafts,
--                    Rules, Decision, Unique, Agreement)
--   Persistence      backend/app/persistence: Rows (the tables), Repository (the queries), Engine
--                    (the constraints, and the interface of the database under the session);
--                    Added, Appended and Untouched are about reading rows back after an insertion, and
--                    Widths about the texts that a column takes
--   Application      backend/app/application: Views (the read models of
--                    backend/app/api/schemas/temporary_history.py), History (submit_trace,
--                    read_trace), Fingerprint and ControlDeck (submit_control). Replay and Sound are
--                    about the replay of what is stored, and the children of History and ControlDeck
--                    about what a call writes and returns (Whole: row by row). Messages are the
--                    texts of the exceptions. Chain is about the numbers and links of a trace's events, Widths about the columns, and the children of Fingerprint read
--                    its canonical text back. Runs is a relation for any number of interleaved calls
--   Api              backend/app/api: Requests (the body of a control), Errors (the handlers) and
--                    Routes (the endpoints), with Answers and Created about their responses and
--                    Widths about what they store
--   Migrations       backend/alembic: TemporaryHistory and ControlDeck are the revisions
--                    6a1c2e3f9b4d and 7b2d4f5a8c6e as lists of operations, Names is `_table_for`,
--                    Environment is env.py, Declared the tables that the mapped classes declare.
--                    Schema, Operations and Statements say what is relied on of PostgreSQL, Checked
--                    meets it; Frame, Upgrade, Constraints and Immutable are about the schema that
--                    results
--   Runtime          Settings and Process: backend/app/core/settings.py and
--                    backend/app/persistence/db.py, Session its get_session, Health:
--                    backend/app/api/health.py, Startup: backend/app/main.py and
--                    backend/scripts/smoke.py. Loaded, Cached, Calls and
--                    Answers are about what is kept and answered
--   Examples         tests, and one concrete run for each result that has conditions
--
-- How the state is modelled. The database is a record of three lists of rows, passed through each
-- call; a call gives its result and the tables as committed. `with session.begin()` keeps the
-- flushed rows on a return and gives them up on a raise. What other transactions commit between a
-- call's queries and its flush is a parameter `others`. Exceptions are the errors of `Result`. The
-- schema is a record of tables and functions, which the operations of a revision change one after
-- another; an operation that raises leaves what those before it have made, and the end of the
-- transaction that env.py opens rolls it back. What `lru_cache` keeps is a record of three optional values, passed through each call.
--
-- Parameters, which stand for code outside the repository: pydantic's parser of an integer, its
-- `model_dump` and its error report, the clock, the id factory, SHA-256, `repr` of a text, and the
-- database's flush; also where pydantic-settings finds a value, SQLAlchemy's `create_engine`,
-- whether a database answers, whether FastAPI's constructor takes a title and a version (it asserts
-- that neither is empty), and what PostgreSQL does with an operation of a revision or a
-- statement. The flush's laws are those of a database that checks its constraints: it inserts all
-- the pending rows if no constraint is then violated, and otherwise none, naming a violated one.
-- `Persistence/Engine/Checked` is a flush that meets them. An operation of a revision is carried out
-- if the conditions of `is_allowed` hold, where the rows that are there meet a new unique index, and
-- has then the documented effect; a row trigger that raises aborts the statement.
-- `Migrations/Checked` meets both.
--
-- Bounds. Python's integers have no bound, and neither have those here. A UUID is a natural number.
-- Every recursion is structural but that of the decimal digits, which runs on as much fuel as the
-- number is large: a digit takes at least a factor of ten. Python's `str.strip` strips by its own
-- list of code points, which `is_space` repeats. The column of a sequence number is a 32-bit
-- integer; how many events a trace has is not bounded here. Python refuses to format an integer of
-- more than 4300 digits, which the parser of a request refuses, too: here every integer is formatted.
--
-- Not modelled: what FastAPI and pydantic do with the text of a request before a body or a
-- submission is constructed, log lines, the choice of revisions by Alembic, and statements other
-- than INSERT, UPDATE and DELETE (TRUNCATE runs no row trigger). An exception of the database other
-- than a violated constraint (a lost connection, a text that it cannot store) is not modelled
-- either: the result on the submit endpoint has the condition that no text holds a NUL.
pub mod Base
pub mod Domain
pub mod Policy
pub mod Persistence
pub mod Application
pub mod Api
pub mod Runtime
pub mod Migrations
mod Examples
