-- ===== src/Observability.antt =====
-- pyleaner/observability.py: the events, and the fingerprints of a task's Lean environment.
pub mod Lines
pub mod Imports
pub mod Sorted
pub mod Closure
pub mod Environment
pub mod Cached
pub mod Members
pub mod Reached
pub mod Items
pub mod Found
pub mod OneFile
pub mod Same
pub mod Events
