-- ===== src/Tests.antt =====
-- Runs of the program on a small deployment, and the theorems at concrete inputs.
mod Fixtures
mod Api
mod Worker
mod Whole
mod Link
mod Dialplan
