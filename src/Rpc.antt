-- ===== src/Rpc.antt =====
-- pyleaner/rpc_session.py: one worker's RPC session with the Lean server, its errors, and the
-- keep-alive rounds.
pub mod Errors
pub mod Session
pub mod KeepAlive
