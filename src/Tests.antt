-- ===== src/Tests.antt =====
-- Runs of the models on small inputs, and the theorems at concrete inputs.
mod SizingTests
mod DecisionTests
mod ThrottleTests
mod MappingsTests
mod DispatchTests
mod MpinTests
mod RoutingTests
mod IngressTests
mod WalletsTests
mod LedgerTests
mod ServiceTests
mod OutboxTests
mod DriftTests
mod ReconcileTests
mod CloseAllTests
