-- ===== src/Tests.antt =====
-- The theorems at concrete inputs, over fixed-point numbers.
pub mod Carrier
pub mod Execution
pub mod PropFirm
pub mod Watchdog
pub mod Controls
pub mod Risk
pub mod Portfolio
pub mod Simulation
pub mod Allocator
pub mod Journal
pub mod Bot
pub mod Mt5
pub mod Loop
pub mod Mock
pub mod Users
pub mod Signup
pub mod Strategies
