-- ===== src/Drift.antt =====
-- compute_drift of copier/src/copier/engine/reconcile.py: the brokers' positions against the mappings.
-- Signed has the signed volumes, Items the types and the indexes, Checks the checks of single rows and
-- positions, Netting the net positions, and Compute the whole.
pub mod Signed
pub mod Items
pub mod Checks
pub mod Netting
pub mod Compute
pub mod Repairs
pub mod Reports
pub mod Vanished
