-- ===== src/Processes.antt =====
-- Child processes: `zuvloop/_process.py`.
mod Reaper
mod Watching
pub mod Steps
pub mod Reaping
pub mod Refining
pub mod Spawning
pub mod Descriptors
pub mod Opening
mod Tests
