-- ===== src/Host.antt =====
-- The model host of the runtime: the scheduler of invocations, and the host's state machine.
pub mod Scheduler
pub mod ModelHost
