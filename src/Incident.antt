-- ===== src/Incident.antt =====
-- What a caller of `submit_resilient` (pyleaner/client.py) learns of a restart: the monitor's reason
-- and the attribution of pyleaner/watchdog.py, and the responses of pyleaner/worker.py.
pub mod Reasons
pub mod Callers
