-- ===== src/Routing.antt =====
-- src/domain/routing: the context-fit gate and the speculative prewarm guard.
pub mod ContextFit
pub mod Prewarm
pub mod Degraded
pub mod Isotonic
