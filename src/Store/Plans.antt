-- ===== src/Store/Plans.antt =====
-- internal/store/exchange.go: the plans of the shop. `Editing` and `Execution` have the functions,
-- `Requests` joins them in one type, and the other children prove what holds of all of them.
pub mod Editing
pub mod Execution
pub mod Loading
pub mod Requests
pub mod Diagram
pub mod Lifecycle
pub mod Exclusive
pub mod Unsent
pub mod Histories
pub mod Claims
pub mod Ownership
mod Tests
