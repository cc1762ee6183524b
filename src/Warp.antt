-- ===== src/Warp.antt =====
-- The WARP module (warp/): the selective split list and the health monitor.
pub mod Split
pub mod Health
pub mod Feeds
pub mod Manual
pub mod Guards
