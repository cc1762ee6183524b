-- ===== src/Bot.antt =====
-- The rate limiter (bot/rate_limit.py), and the ordered dictionary under it.
pub mod Ordered
pub mod RateLimit
