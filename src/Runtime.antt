-- ===== src/Runtime.antt =====
-- crates/gmr-runtime: what a reading does to an anchor.
pub mod Translate
pub mod Policy
pub mod Log
pub mod Observe
pub mod Errors
pub mod Deployment
pub mod Close
pub mod Revise
pub mod Observer
pub mod Scheduler
pub mod Looking
pub mod Pass
pub mod Blind
pub mod Open
pub mod View
pub mod Edges
pub mod Shown
pub mod Depends
pub mod Holding
