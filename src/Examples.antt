-- ===== src/Examples.antt =====
-- Test data and the theorems applied to it.
pub mod Data
pub mod Files
pub mod Processes
pub mod Terminals
pub mod Keys
pub mod Calls
pub mod Screens
pub mod Schedules
pub mod Programs
pub mod Blocks
pub mod Switches
pub mod Users
pub mod Sessions
