-- ===== src/Keys.antt =====
-- VPN keys: the table and its lifecycle (repositories/vpn_keys.py, repositories/relays.py), the
-- addresses of the AWG pool (adapters/ip_allocator.py) and expiry (services/key_expiry.py).
pub mod Store
pub mod Lifecycle
pub mod Relay
pub mod Expiry
pub mod Addresses
pub mod Awg
