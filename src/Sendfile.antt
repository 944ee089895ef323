-- ===== src/Sendfile.antt =====
-- `zuvloop/_sendfile.py`: `sock_sendfile` and `sendfile` by `os.sendfile` or by reads and writes.
mod Defs
mod Protocol
pub mod Native
mod Parts
mod Copying
pub mod Fallback
pub mod Restoring
pub mod Dispatch
pub mod Dispatching
mod Tests
pub use Defs.*
pub use Protocol.*
pub mod Stream
mod Owning
mod Waking
pub mod Draining
mod Falling
pub mod Fallen
pub mod Giving
mod StreamTests
