-- ===== src/Relays.antt =====
-- The health of the relays (services/relay_health.py).
pub mod Health
