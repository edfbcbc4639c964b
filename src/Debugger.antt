-- ===== src/Debugger.antt =====
-- packages/extension/src/debugger-coordinator.ts: the sessions of Chrome's debugger.
pub mod Dialogs
pub mod Cancellation
pub mod Sessions
