-- ===== src/Lib.antt =====
-- The credit and call-record core of a VoIP platform: the scripts that FreeSWITCH runs for a call,
-- the API that they ask whether it may begin and go on, and the worker that ends calls.
--
-- The scripts (freeswitch/lua) collect the caller's PIN, ask the API for the authorization, and
-- have a tick run every minute. The API (backend/app) authorizes a call: it resolves the DID and
-- its consultant, authenticates the customer by PIN, quotes a price, deducts the first block of
-- credit in Redis, inserts the stub of the call's row of statistics and opens the call's session
-- in Redis. While the call runs it is asked for ticks, which deduct the elapsed time. The worker
-- (backend/billing_worker) gets ESL events: an answer marks the row and the consultant, a hangup
-- refunds what was taken beyond the cost, tries to finalize the row and to append tracings, frees the
-- consultant and deletes the session. At its start it hangs up the sessions that no live call has.
-- The two share Redis and the tables, and nothing else.
--
-- Files:
-- Base, and Base/Classes, Int, Dict, Text, Text/Numbers: Python's integers, dicts and strings.
-- Decimal: decimal.Decimal, 28 digits, halves to even. Decimal/Sign and Width: zeros, digits.
-- Core: backend/app/config.py and core/exceptions.py, and what a handler takes from outside.
-- Core/Monad: a coroutine, a function from World (Redis and the tables) to a result and a World.
-- Core/Keeps: rules by which a coroutine keeps a relation between the worlds before and after it;
-- Core/Quiet: the relation of the reads; Core/Ensures: what a returned value says of its world;
-- Core/Blind: a change of the tables that a coroutine does not see.
-- Models, Models/Query: backend/app/models/db. Redis: the keys. Schemas: backend/app/models/schemas.
-- Credit: backend/app/services/credit_service.py, with Credit/Deduct, Seed and Tick.
-- Auth: backend/app/services/auth_service.py, with Auth/Admission, Rates and Laws.
-- Routing: backend/app/services/routing_service.py, with Routing/Gateway, Found, Laws and
-- Restated.
-- Call: backend/app/routers/call.py, with Call/Quoting, Found, Priced, Pricing, Granted, Routed,
-- Refused, Unmapped and Lost; Call/Restated, with Call/Blind: consultants with another status.
-- Billing: backend/app/routers/billing.py, with Billing/Laws and Refusal.
-- Health: backend/app/routers/health.py.
-- Application: backend/app/core/redis.py, dependencies.py and the lifespan of main.py.
-- Worker/Cdr: backend/billing_worker/services/cdr_service.py.
-- Worker/Answer, Worker/Hangup, Worker/Reconcile: backend/billing_worker/handlers, with
-- Worker/Hangup/Steps, Settle, Ending and Records, Worker/Reconcile/Stuck, Held, Live,
-- Orphans and Again, and Worker/Answer/Effect.
-- Worker/Esl: the blocks and events of backend/billing_worker/esl/client.py; Worker/Esl/Connection: its
-- client; Worker/Esl/Blocks, Events and Handshake: both against what a server writes.
-- Worker/Loop, Worker/Cycle: backend/billing_worker/worker.py, with Worker/Loop/Waits and
-- Worker/Cycle/Fuel and Blind.
-- Worker/Writes: the worker's handlers against a relation that its single writes keep.
-- Log, Solvency, Links: three such relations, over the API and the worker. System: them, as steps of
-- whole handlers.
-- Core/Coroutine: a coroutine cut at its awaits; Core/Coroutine/AllActs and Obeys: what its actions
-- are like, and what it keeps while others run in between. Interleaving: the actions that are
-- awaited; Interleaving/Cuts, Api and Worker: the handlers, cut; Interleaving/Schedule: a pool of
-- handlers that run side by side; Interleaving/Safety, Sequential, Pause, Races, LateTick and
-- Ledger: its theorems. Interleaving/Plain and Naming, with the handlers' own files in Api and
-- Worker, and Interleaving/Linked: the rows that sessions name. Interleaving/Caching and Coherent,
-- with Api/Owner and Caching: the account cache.
-- Lifecycle: one call from its authorization to its hangup, with Lifecycle/Charge,
-- Cutoff and Again.
-- Dialplan: freeswitch/lua, with Dialplan/Pin and Auth for dialplan/auth.lua, Dialplan/Tick for
-- billing/tick.lua, and Dialplan/Flow and Granted. Tests: a small deployment.
--
-- How the model corresponds to the code: a definition has the name of the function that it models,
-- and a long handler is cut into the steps that its comments number. A balance is the integer of
-- the key credit:{account}; a session is a record of the hash's fields, each there or not, which
-- hold the values that the readers parse back from the text that the writers format; a query is a
-- function of the tables; a time is in microseconds. Every call of Redis, the database or ESL is
-- at a Site, and an environment says which sites fail: a call that fails has done nothing and
-- raises. Floats are IEEE doubles in the code and here an unknown type with the operations that
-- the code uses, so the theorems hold for any rounding. Lua's numbers in the deduction script are
-- exact for these balances. asyncpg refuses a text for an integer column, so the update of the
-- row at a hangup raises, as Worker/Cdr has it.
--
-- A cut of a handler is found by rules from the handler's own code: its type names the code that
-- it cuts, and each of its actions is one command of Redis, one statement of the database with its
-- commit, or one script. A connection to FreeSWITCH is all that it will bring and the commands at
-- which it breaks. The dialplan's scripts give the list of what they tell FreeSWITCH; a request of
-- theirs is lost, or answered too late or in time, and what FastAPI answers to a body that its
-- schema refuses is a parameter.
--
-- Bounds: the event loop over a connection runs on fuel, and one more than the characters to read
-- is enough. The fuel of the decimal width and of `str` of a number is the number itself, which
-- has more than enough, since each step divides by ten. The other recursions are structural.
--
-- Not modelled: the database's connection pool, logging and start-up, FreeSWITCH itself, its
-- configuration and hangup.lua, which sets a variable that nothing reads, migrations, and Python's
-- underscores in numbers and non-ASCII digits and blanks. Redis integers are unbounded here, where
-- the real ones have 64 bits. A time of an event that is beyond the machine's numbers, where the
-- code raises OverflowError, counts as none here, like one too large for a date. The flush and the
-- commit of a stub row are one action here, and one that fails takes no id of the sequence, where
-- a commit that fails has used one up. A Numeric column rounds what is written to it; that the
-- database refuses a value too large for it is left out. A query with LIMIT 1 and no ORDER BY gets
-- the first row of the table's list, whose order stands for the one in which the database returns
-- the rows.
pub mod Base
pub mod Decimal
pub mod Core
pub mod Models
pub mod Redis
pub mod Credit
pub mod Routing
pub mod Auth
pub mod Schemas
pub mod Call
pub mod Billing
pub mod Health
pub mod Application
pub mod Worker
pub mod Links
pub mod Log
pub mod Lifecycle
pub mod Solvency
pub mod System
pub mod Interleaving
pub mod Dialplan
mod Tests
