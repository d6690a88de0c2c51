-- ===== src/QuickActions.antt =====
-- src/ulsp/controller/quick-actions: the store of code actions by range, the store of actions
-- that are in progress, and the controller over them.
pub mod RangeStore
pub mod Runs
pub mod Controller
