-- ===== src/Watchdog.antt =====
-- pyleaner/watchdog.py: the monitor process and the recovery coordinator.
pub mod Types
pub mod Monitor
pub mod Recovery
pub mod Processes
pub mod Shutdown
pub mod Guards
pub mod Receiver
pub mod Lifecycle
pub mod Proc
pub mod Settings
pub mod Workers
