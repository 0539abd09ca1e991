-- ===== src/Risk.antt =====
-- Position sizing and the gates before a trade: src/risk/.
pub mod Sizing
pub mod Manager
