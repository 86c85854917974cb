-- ===== src/Lib.antt =====
-- smartDialer, an outbound dialler: workers share a Postgres database, in which they reserve agents
-- and borrowers, place calls through telephony providers, apply the providers' events and reap what
-- a crashed worker leaves. This library models that core and proves what it keeps.
--
-- The parts and their files. Paths on the right are below src/smartdialer, unless they say more.
--
--   Domain            domain/enums.py, domain/transitions.py, domain/models.py: states, ranks,
--                     can_apply, snapshots, requests and decisions.
--   Store             migrations/001_init.sql: the tables as lists of rows. Store.Validity is the
--                     invariant of the rows, Store.Evolution how rows may change, Store.Keeping what
--                     it takes of a statement to keep both.
--   Repo              repo/agents.py, borrowers.py, calls.py, events.py, decisions.py: a function per
--                     statement or method. Repo.Counters and Repo.Triggers are migrations/002_counters.sql
--                     (at the repository's root), Repo.Metrics is repo/metrics.py.
--   Allocator         allocator/allocator.py, leases.py: _reserve_and_create, _allocate_one,
--                     cancel_excess_ringing; Allocator.Batch is allocate_batch.
--   Worker            worker/event_applier.py (EventApplier), worker/reaper.py (Reaper), the tick of
--                     worker/pacing_loop.py (PacingLoop); Leader is its run_forever, with db.py.
--                     Loops: the loops of worker/runner.py and of reaper.py.
--   Pacing            pacing/progressive.py, predictive.py; Pacing.Estimators is estimators.py.
--   Safety, Config    safety/rules.py, safety/controller.py, config.py (limits and leases).
--   Providers         providers/base.py (EventMap, Registry), breaker.py, registry.py, and the
--                     simulated provider of mock_a.py (Mock); Plivo is plivo.py.
--   Clock             clock.py: the virtual clock.
--   Ids               ids.py: the texts of keys.
--   Api               api/webhooks.py: the route that ingests events.
--   LiveStatus        live_status.py: the counts that the terminal and the dashboard show.
--   Sim               sim/runner.py (Runner), sim/injectors.py (Injectors), sim/report.py (Report): the
--                     simulator's loop, what it injects, and the numbers of its report; World is
--                     sim/world.py with the seed command of cli.py; Wiring is how the runner puts the
--                     allocator under the controller.
--   Loadtest          loadtest/run_load.py (at the repository's root): its contended reservations.
--   System            the whole program: a step is a transaction of any worker or of the webhook
--                     route, with any arguments; Reach is any sequence of them.
--   Tests             a small database and runs on it.
--
-- How the code is read. A transaction is one step and commits as a whole, so two transactions
-- interleave only between their steps: that is what Postgres gives them by its row locks. Where
-- the code picks rows with SKIP LOCKED, the rows that others hold are an argument. `now` is the
-- database's now(), `clock_now` the worker's clock; neither is assumed to rise. Times and spans are
-- natural numbers of milliseconds, and `seconds n` is n seconds. A row that a statement does not
-- find leaves the tables as they are. What the outside decides (a provider's answer, a deadlock, the
-- transactions of others while a worker waits) is an argument, in records that say so.
-- A worker that crashes takes no further step. ON CONFLICT and a UNIQUE constraint are written out
-- where the statement meets them: a duplicate event is dropped, a second idempotency key is an
-- exception that rolls the transaction back.
--
-- Floats are an interface, Common.Decimal, of which only named hypotheses are assumed: in some
-- theorems that `<` is irreflexive or asymmetric, which holds of IEEE numbers and of their NaNs.
-- Tests.Fixed has an instance of thousandths.
--
-- Bounds. The retries after a deadlock are at most MAX_DEADLOCK_RETRIES = 3 as in the code, and the
-- number of attempts left is the recursion's argument, so the loops end. A batch is a schedule of
-- turns, as long as it is, and so are a run of the clock and one of the simulator. The decimals of a
-- number n recur on n + 1, which is more than its digits. Everything else recurs on a list.
--
-- Left out or simplified. Numbers of rows have no gaps after a conflict. An idempotency key is the
-- triple that its text is made of (Ids.RoundTrip). JSON payloads, rationales and evaluation logs are
-- not kept. The UNIQUE constraint on provider_call_id is not checked: where two calls have a
-- reference, the first row answers. A state of a virtual clock is told without the tasks behind the
-- waiters. An HTTP service is an argument of the Plivo client, and the JSON of its answers is read
-- already. The wiring of a worker, the command line but for its seed, the pages that show the live
-- view, the simulator's files, charts and random draws, and the load test's timing are not modelled.
mod Common
pub mod Domain
pub mod Config
pub mod Clock
pub mod Pacing
pub mod Safety
pub mod Store
pub mod Ids
pub mod Repo
pub mod Providers
pub mod Worker
pub mod Allocator
pub mod System
pub mod Api
pub mod LiveStatus
pub mod Loadtest
pub mod Sim
mod Tests
