-- ===== src/Sockets.antt =====
-- `zuvloop/_sockets.py`: the `sock_*` helpers over the loop's reader and writer registrations.
mod Defs
pub mod Dialing
pub mod Connecting
pub mod Watching
pub mod Retrying
mod Tests
pub use Defs.*
