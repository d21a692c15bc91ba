-- ===== src/Scheduler.antt =====
-- src/modules/scheduler: the claims (scheduler.repository.ts) and the tick (scheduler.service.ts).
pub mod Tick
pub mod Claimed
pub mod Publishing
pub mod Queueing
pub mod Delivery
pub mod Repository
pub mod Service
pub mod Lifecycle
