-- ===== src/Weather.antt =====
-- The local weather schedule (agent/weather.py): runs of cold and of hot hours in the forecast, and
-- the listing decision that is made from them when the dispatcher is out of reach.
pub mod Windows
pub mod Runs
pub mod Spells
pub mod Schedule
mod Tests
