-- ===== src/Wallets.antt =====
-- The wallets of one investor in one org: the figures of api/src/api/portal_ledger.py and
-- portal_common.py, and the requests of routes/portal_investor.py, portal_admin.py and
-- portal_bonus.py that move money. Store has the tables and figures, Filing the investor's requests,
-- Deciding the admin's decisions, and the others what holds over them.
pub mod Store
pub mod Filing
pub mod Deciding
pub mod Sums
pub mod Guards
pub mod Clean
pub mod Covered
pub mod Moves
pub mod Payments
pub mod Confirming
pub mod Runs
