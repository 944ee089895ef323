-- ===== src/Server.antt =====
-- `zuvloop/_server.py`, the accept half of `zuvloop/_connect.py`, and the part of
-- `zig/transport.zig` that reports a closed transport to its server.
mod Defs
mod Accept
mod Close
mod Waiting
pub mod Counting
pub mod Admission
pub mod Handshakes
pub mod Waking
pub mod Frames
pub mod Sound
pub mod Closing
pub mod Steps
pub mod Rounds
pub mod Shut
pub mod Faults
mod Tests
pub use Defs.*
pub use Accept.*
pub use Close.*
pub use Waiting.*
