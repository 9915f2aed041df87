-- ===== src/Tests.antt =====
-- The theorems at concrete inputs, and runs of the definitions.
mod Fixtures
mod Protocol
mod Play
mod Screens
mod Threads
