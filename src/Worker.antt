-- ===== src/Worker.antt =====
-- pyleaner/worker.py: the worker's handlers and its main loop.
pub mod Methods
pub mod Dispatch
pub mod Loop
pub mod Document
pub mod Handlers
pub mod Goals
