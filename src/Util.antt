-- ===== src/Util.antt =====
-- The containers of includes/util.
pub mod HashMap
pub mod Text
pub mod Strings
pub mod NodeList
pub mod Counters
pub mod CounterLaws
pub mod Tests
