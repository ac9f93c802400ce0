-- ===== src/Tests.antt =====
-- Concrete runs of the models, and the theorems applied to them.
pub mod Hash
pub mod Ports
pub mod Chat
pub mod Loser
pub mod Threads
pub mod Server
pub mod Mirror
pub mod Watcher
pub mod CharCount
pub mod Boss
pub mod Miner
pub mod Config
pub mod Client
