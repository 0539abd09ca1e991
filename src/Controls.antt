-- ===== src/Controls.antt =====
-- What an operator switches while the bot runs, each a table that the processes share: the kill flag,
-- the bot's run flag, the strategies' toggles, and the record of the bars that were traded.
pub mod KillSwitch
pub mod BotControl
pub mod Toggles
pub mod SignalDedup
