-- ===== src/Tests.antt =====
-- Sample data, and the theorems at concrete inputs.
mod Samples
mod Sockets
mod Console
mod Workers
mod Messages
mod Meeting
mod Control
mod Caches
