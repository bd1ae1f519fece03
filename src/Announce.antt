-- ===== src/Announce.antt =====
-- tools/announce_bot.py, the bot that announces the work on two repositories in one channel.
pub mod Chunks
pub mod Config
pub mod World
pub mod Inventory
pub mod Bot
pub mod Tests
