-- ===== src/Ingress.antt =====
-- copier/src/copier/mt5/ingress.py: an MT5 master's report as the events the decision core reads.
-- Book has the ledger of a netting master, Walk and Held what a deal does to it, Ages its order,
-- Stored its rows in the database, and Events the report.
pub mod Book
pub mod Held
pub mod Ages
pub mod Closes
pub mod Trades
pub mod Nets
pub mod Stored
pub mod Found
pub mod Walk
pub mod Keyed
pub mod Marks
pub mod Protect
pub mod Rows
pub mod Restart
pub mod Opens
pub mod Changes
pub mod Report
pub mod Events
pub mod Quiet
pub mod Pendings
pub mod Orders
pub mod Oldest
