-- ===== src/Instance.antt =====
-- internal/instance: the run-time state of a component instance.
pub mod Handles
pub mod Waitables
pub mod Sched
pub mod Streams
pub mod Tasks
