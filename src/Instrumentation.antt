-- ===== src/Instrumentation.antt =====
-- The telemetry of the loop: `zuvloop/_instrumentation.py` and the sampler of `zuvloop/_base.py`.
mod Defs
mod Sampling
mod Bounds
mod Latch
mod Tests
