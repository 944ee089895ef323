-- ===== src/Signals.antt =====
-- Signal handlers and the process-wide wakeup descriptor: `zuvloop/_loop.py` and the parts of
-- `zuvloop/_base.py` that it calls.
mod Defs
mod Wakeup
mod Handlers
mod Delivery
mod Ownership
mod Safety
mod Adding
mod Closing
pub mod Steps
pub mod Undoing
pub mod Arriving
mod Tests
pub use Defs.*
