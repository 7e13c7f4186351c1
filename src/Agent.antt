-- ===== src/Agent.antt =====
-- The agent (agent/): its loops (agent.py), one module for each behaviour, and what they use.
pub mod VastLoop
pub mod Room
pub mod Heartbeat
pub mod Miner
pub mod State
pub mod Rentals
pub mod Blobs
pub mod EnvFile
pub mod Storage
pub mod ImageCache
pub mod HeatSource
pub mod Work
pub mod PowerMeter
pub mod SessionSource
pub mod MediaSync
pub mod Enrollment
mod Tests
