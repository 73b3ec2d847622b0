-- ===== src/Room.antt =====
-- src/rendezvous-room.ts: one signaling room, its hibernatable WebSockets and what it does to them.
pub mod State
pub mod Rules
pub mod Teardown
pub mod Alarms
pub mod Ownership
pub mod Messages
pub mod Silent
pub mod Relay
pub mod Tests
pub mod RelayTests
