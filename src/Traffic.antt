-- ===== src/Traffic.antt =====
-- Traffic statistics of keys (services/traffic_stats.py, repositories/traffic_stats.py).
pub mod Tables
pub mod Refresh
pub mod Hourly
pub mod Truth
