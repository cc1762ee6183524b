-- ===== src/Backends.antt =====
-- Which backends may be changed (services/backend_health.py).
pub mod Health
