-- ===== src/Tests.antt =====
-- Concrete runs: a small database, and the theorems at concrete inputs.
mod Data
mod Migrations
mod Locks
mod Processes
mod Claims
mod Histories
mod Database
mod Executions
mod Attempts
mod Http
mod Config
mod Shutdown
mod Publishing
mod Delivery
