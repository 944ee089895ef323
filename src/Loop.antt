-- ===== src/Loop.antt =====
-- The loop's own bookkeeping in `zuvloop/_base.py`: running and closing it, and the reporting of errors.
mod Reporting
pub mod Escaping
pub mod Running
mod Restoring
mod Closing
mod Closed
mod Executors
mod Generators
mod Accounting
mod Tests
mod ClosingTests
