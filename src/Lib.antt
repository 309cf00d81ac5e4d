-- ===== src/Lib.antt =====
-- A copy trader for forex accounts. A master's trades arrive as broker events; the copier decides
-- what each slave's account must do, sizes the copies, and sends them to cTrader brokers or to MT5
-- terminals, and remembers in the mappings which slave position copies which master position.
--
-- The way of an event: copier/src/copier/domain/decision.py turns a master's event, the fleet and
-- the mappings into intents, with the volumes of domain/sizing.py; engine/dispatch.py gates the
-- intents, creates their mappings and sends them through the token bucket of engine/throttle.py;
-- the slaves' reports write the mappings, in db/repo.py, which the next decision reads.
--
-- Modules, with paths under copier/src/copier:
-- Base: shared names, Boolean tests, lists and dictionaries.
-- Decimal: Python's decimal arithmetic as domain/sizing.py uses it, with 28 digits and
--   ROUND_HALF_EVEN; a coefficient and a number of places, never negative.
-- Text: texts as lists of character codes, and Python's str, int, startswith, endswith and split.
-- Models: domain/models.py.
-- Sizing: domain/sizing.py. `none` is an exception (a division by zero).
-- Decision: domain/decision.py, `decide` and its handlers; Decision/Loops has the loops.
-- OrderIds: client_order_id_for of engine/dispatch.py, master_position_of of engine/service.py,
--   _extract_master_id_from_label of engine/reconcile.py, and the close suffix of mt5/outbox.py.
-- Throttle: TokenBucket of engine/throttle.py as a state with steps: a request, a cancellation and
--   the scheduled drain.
-- Mappings: the table `mappings` of db/migrations/001_initial.sql (from the repository's root) and
--   the statements of db/repo.py that write it.
-- Dispatch: the Dispatcher of engine/dispatch.py; Dispatch/Handlers has dispatch and what handles
--   one intent, Dispatch/Sends the retries of one request.
-- Routing: build_routing of engine/routing.py, over the loaders of symbols and aliases, and in
--   Routing/Cache its RoutingCache.
-- Service: the CopierService of engine/service.py; Service/Reports has the slaves' reports.
-- Outbox: the commands of MT5 terminals, in mt5/outbox.py and db/repo.py; Outbox/Enqueue has what is
--   put in, Outbox/Settle the acknowledgements, Outbox/Lots the volumes in lots, and
--   Outbox/Deals which deals of a netting follower reduce the copies, in main.py.
-- Drift: compute_drift of engine/reconcile.py.
-- Ingress: mt5/ingress.py. Book has the virtual positions of a netting master, Stored their rows in
--   mt5_net_ledger, and Report and Events the events of a terminal's report. An operation changes a
--   position in place, so it writes the list and the dict of changed rows.
-- Wallets: one investor's wallets in api/src/api/portal_ledger.py, portal_common.py and the routes
--   portal_investor.py, portal_admin.py and portal_bonus.py, in whole cents. A handler gives none for
--   an HTTP error. The lock on the investor's ledger makes each transaction one step; the status that a
--   handler reads before it is an argument.
-- Reconcile: the Reconciler of engine/reconcile.py from the computed items on.
-- CloseAll: close_all of main.py for an org, with the writes of others in between.
-- Mpin: check_mpin of api/src/api/mpin_core.py (from the repository's root), as two steps between which
--   other requests run, and as one; verify_password is a parameter.
-- Ledger: the moves of requests and the transfer pairs of api/src/api/portal_ledger.py (from the
--   repository's root).
-- Tests: runs on small inputs, and the theorems at concrete inputs.
--
-- Conventions. Ids, volumes and times are whole numbers. A price is of an abstract type F, since
-- the code passes floats through; where it calculates with them, the operations are parameters
-- (`Prices` in Dispatch). The texts of alerts and log entries are constructors with what they show.
-- Lots have two decimals where the code has floats. Time in the throttle is in whole ticks, and a
-- token takes a whole number of them. The slaves without an entry are a Python set, and the order
-- of its loop is the parameter set_order of Decision. An exception is `none`, or `raised` with the
-- store where something was written before it. A SQL statement is one step.
--
-- Fuel. The digits of a number n take at most n + 1 steps, and the search for the shift of a
-- quotient of a numerator of d digits at most 27 + d; both are given in full, and lemmas in
-- Text/Print and Decimal/Rounding show that they are enough. A send has fuel for four attempts:
-- there are three retry delays.
--
-- Not modelled: the parsing of broker events and of the MT5 bridge's messages, its registry, the
-- service's risk engine, capture and delayed checks, the state trackers, the control server and
-- most of the application's wiring; the rest of the API, the dashboard, the terminal's expert
-- advisor and the chart scripts. The network, the database engine, Twisted, protobuf and md5 (a
-- parameter of Drift) are outside.
pub mod Base
pub mod Decimal
pub mod Text
pub mod Sizing
pub mod Models
pub mod OrderIds
pub mod Decision
pub mod Throttle
pub mod Mappings
pub mod Dispatch
pub mod Routing
pub mod Service
pub mod Outbox
pub mod Drift
pub mod Reconcile
pub mod CloseAll
pub mod Mpin
pub mod Ledger
pub mod Ingress
pub mod Wallets
pub mod Tests
