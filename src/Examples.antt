-- ===== src/Examples.antt =====
-- Tests, and an application of each theorem at a concrete input.
mod Fixtures
mod Pins
mod Guards
mod Queue
mod Stores
mod Fit
mod Routes
mod Dispatching
