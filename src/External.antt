-- ===== src/External.antt =====
-- The third-party components that the runtime builds on, as interfaces: operations with the laws
-- that their documentation states. Each has a concrete value.
pub mod Semaphore
pub mod ConcurrentMap
