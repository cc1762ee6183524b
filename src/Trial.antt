-- ===== src/Trial.antt =====
-- Trial keys (services/trial_access.py, repositories/trial_requests.py, and the trial columns of
-- repositories/users.py).
pub mod Desk
pub mod Quota
pub mod Decisions
