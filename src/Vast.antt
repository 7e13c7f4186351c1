-- ===== src/Vast.antt =====
-- The Vast.AI provider (agent/vast_provider.py): the CLI wrapper and the listing state machine.
pub mod Monad
pub mod Cli
pub mod Provider
mod Tests
