-- ===== src/Tests.antt =====
-- Concrete inputs for the theorems of the other modules.
pub mod Tenths
pub mod Pages
pub mod Strings
pub mod Books
pub mod Series
pub mod Sim
pub mod Files
pub mod Strategies
pub mod Clocks
pub mod Exchanges
pub mod Feeds
pub mod Rounds
pub mod Replays
