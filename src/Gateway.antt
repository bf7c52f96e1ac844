-- ===== src/Gateway.antt =====
-- src/infrastructure/gateway: the circuit breaker and the dispatch.
pub mod CircuitBreaker
pub mod Selection
pub mod Dispatch
