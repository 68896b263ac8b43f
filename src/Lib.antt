-- ===== src/Lib.antt =====
-- Growth Operator: an assistant that acts for a shop, and the controls around what it does.
--
-- A model's tool call goes through the mediation proxy (core/mediation/proxy.py). The proxy checks
-- the signed manifest of the agent instance, the rate windows and budgets in Redis, and the tier that
-- the approval engine (core/approvals/engine.py) gives the call from stored rules, incidents and the
-- owner's settings; a tier of 2 or more parks the call as an approval, which the owner resolves
-- (core/approvals/service.py). Each tool runs after an entry of the hash-chained audit log
-- (core/audit/writer.py), and a side effect needs the capability of such an entry and a single-use
-- token (core/approvals/tokens.py). Events go from an outbox table (core/events/outbox.py) through
-- streams to consumers (core/events/consumer.py). A pack's workflow is compiled to a program whose runs
-- (core/workflows/executor.py) call the agent runner and the tools of the proxy, park at an approval or
-- a wait, and are resumed by a signal. What a shop may do is what its plan and its packs grant
-- (core/tenancy/entitlements.py), and its members act by their roles (core/tenancy/permissions.py).
--
-- Files and what they model:
--   Prelude, and the files under it: names of the libraries, Boolean tests, lists, texts as lists of
--     code points, integers, Python's JSON (core/audit/writer.py, canonical_json) and how its text is
--     read back, and the order by which `max` and `sorted` choose.
--   Mediation/World and Mediation/Proxy: core/mediation/proxy.py, its state, and `call` with the checks
--     that it is made of, in the order of the source; Mediation/Limits: core/mediation/limits.py;
--     Mediation/Manifest and Mediation/Instances: core/mediation/manifest.py.
--   Approvals/Engine and Approvals/Tool: core/approvals/engine.py, the rules and the bridge from tools
--     to actions; Approvals/Service, Approvals/Trust, Approvals/Tokens: the files of those names in
--     core/approvals.
--   Audit: core/audit/writer.py. Tenancy/Settings, Tenancy/QuietHours: core/tenancy/settings.py and
--     core/tenancy/quiet_hours.py. Pricing/Extract: core/pricing/extract.py.
--   Landing/Lifecycle: core/landing/lifecycle.py. Events/Outbox, Events/Consumer: core/events/outbox.py
--     and core/events/consumer.py.
--   Workflows/Vars, Workflows/Program: the variables and the compiler of core/workflows; Workflows/Run,
--     Workflows/Executor, Workflows/Advance, Workflows/Resume: core/workflows/executor.py, the rows of a
--     run, the log and the outcomes of its steps, the loop over the program, and the signals that resume a
--     parked run; Workflows/Runs: concurrency and promotion of the queue; Workflows/Waits: its file.
--   Tenancy/Permissions, Tenancy/Invites, Tenancy/Entitlements, Tenancy/Resolver: roles and grants, seats and
--     invites, the passes of core/tenancy/entitlements.py, and its composition and its two assertions.
--   Ingestion, Ingestion/Review, Ingestion/Load: core/ingestion, the batches and their extraction, the review
--     of the rows, the load into the catalog and its revert.
--
-- State is passed explicitly: the tables that a function reads and writes are lists of rows in a
-- record, a query is a filter or the first row that passes a test, an update maps the rows that pass
-- one, and Redis is a record of the keys in use. A transaction is one function. Exceptions are values
-- of a result type, or `none`. Ids are numbers; times are numbers too, in the unit that each file
-- names. A new id and the clock are arguments.
--
-- Parameters: the hash SHA-256, the ed25519 keys, CEL, jsonschema, the zone database, the code of the
-- tools, of the agent runner and of the event handlers, the catalog of capabilities, which packs add to,
-- and the plan configuration as pydantic parses it. Arguments of a part, though the repository has their
-- code: the admission of an imported item by the catalog, and, for the proxy, the plan's answer.
--
-- The recursions are structural, but for these, which run on fuel. The printing of numbers in
-- Prelude/Json and the scan of a text in Pricing/Extract take the number itself and the length of the
-- text: each step divides the number by ten or passes at least one character. The loop of a run takes one
-- more than the length of its program, since a compiled instruction leads forward only; the undoing of
-- its steps takes the length of the program. The promotion of queued runs takes the number of runs, as each
-- round takes one out of the queue. The passes over the dependencies take one more than the number of
-- candidates, as each pass but the last drops one.
--
-- A signal to a run is handled to its end before the next, and the rows of a run are grouped in its
-- record, with a list of the instructions that called the agent runner, and one of those of its
-- compensation that did. Where a property is about two requests at a time, their reads and writes are separate steps.
--
-- Not modelled: the web front ends, HTTP routes and SQL access without logic, provider clients,
-- migrations and scripts; and as yet the guards, triggers and tool inputs of workflows, the agent
-- runtime, channels, billing, packs, the quote engine, the parsing of an upload, and sessions and
-- provisioning of core/tenancy.
mod Prelude
pub mod Pricing
pub mod Audit
pub mod Tenancy
pub mod Workflows
pub mod Approvals
pub mod Mediation
pub mod Landing
pub mod Events
pub mod Ingestion
