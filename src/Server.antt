-- ===== src/Server.antt =====
-- server.c: the session server. `Session` has its data, `Wire` the reading of a message,
-- `Receive` the handling of one, and `Loop` an iteration of the main loop.
pub mod Session
pub mod Wire
pub mod Receive
pub mod Loop
pub mod Invariant
pub mod Kill
pub mod Attach
pub mod Parked
pub mod Start
pub mod Listing
pub mod Tests
