-- ===== src/Connect.antt =====
-- Setting up connections and listening sockets: `zuvloop/_connect.py`, but for what accepts connections.
pub mod Defs
pub mod Binding
pub mod Checks
pub mod Leaving
pub mod Blaming
pub mod Listening
pub mod Refusing
pub mod Validity
pub mod Creating
pub mod Datagram
pub mod Handing
pub mod Racing
pub mod Raced
pub mod Holding
pub mod Stopping
pub mod Serving
pub mod Served
pub mod Piping
pub mod Piped
pub mod Subprocess
pub mod Living
mod Upgrading
pub mod Upgraded
mod EndpointTests
mod RaceTests
mod UpgradeTests
mod Tests
