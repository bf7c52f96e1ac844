-- ===== src/Persistence.antt =====
-- src/domain/types/store-port.ts, the pin part, and src/infrastructure/persistence: its two
-- implementations with their retention, the write queue and the rate limits.
pub mod StorePort
pub mod History
pub mod MemoryStore
pub mod WriteQueue
pub mod SqliteStore
pub mod TokenBucket
