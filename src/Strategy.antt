-- ===== src/Strategy.antt =====
-- flowcat-core/src/audio/strategy.rs: the decisions of when a user turn starts and stops, when
-- the user is muted, and when speech interrupts the bot.
pub mod Stop
pub mod Mute
pub mod Start
