-- ===== src/Staging.antt =====
-- Staged operations: gateway/staging.py, gateway/execution.py (its decision logic), gateway/expiry.py,
-- gateway/scheduler.py, gateway/undo.py (its gate), api/routes/operations.py, and the tables of
-- gateway/state_db.py that they share.
pub mod Store
pub mod Execute
pub mod Create
pub mod Destination
pub mod Decide
pub mod Loops
pub mod Lifecycle
pub mod Examples
