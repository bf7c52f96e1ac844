-- ===== src/Pinning.antt =====
-- src/domain/pinning: the guards, the trackers, the economics and the session pinner.
pub mod FlipFlop
pub mod Saar
pub mod Economics
pub mod Pinner
pub mod SubRoute
pub mod ToolFailure
pub mod LoopEscalation
