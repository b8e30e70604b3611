-- ===== src/Examples.antt =====
-- The theorems at concrete inputs, and runs of the definitions.
pub mod Host
pub mod Flat
pub mod Watched
mod Parsing
mod Evaluating
mod Logs
mod Stores
mod Observing
mod Journeys
mod Passes
mod Bindings
mod Claims
