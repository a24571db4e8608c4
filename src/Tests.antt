-- ===== src/Tests.antt =====
-- The theorems at concrete inputs, with whole numbers for prices.
pub mod Data
pub mod Rings
pub mod Import
pub mod Around
pub mod Further
pub mod Sessions
pub mod Start
pub mod Program
pub mod Stores
pub mod Pipeline
pub mod Markets
