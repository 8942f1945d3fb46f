-- ===== src/Tests.antt =====
-- Runs of the definitions at concrete inputs, and the theorems at inputs that meet their hypotheses.
mod Monitor
mod Pools
mod Timeouts
mod Incidents
mod Workers
mod Rpc
mod Documents
mod Processes
mod Frames
mod Shutdown
mod Handlers
mod Environments
mod Guards
mod Lifecycles
mod Messages
