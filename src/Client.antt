-- ===== src/Client.antt =====
-- pyleaner/client.py: the resilient submission and the message layer of the client.
pub mod Resilient
pub mod Frames
pub mod Terminal
pub mod Processes
pub mod Connection
pub mod Messages
