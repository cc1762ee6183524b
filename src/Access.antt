-- ===== src/Access.antt =====
-- Users, roles and access requests (models/access.py, services/users.py,
-- services/access_approval.py, repositories/users.py, repositories/access_requests.py).
pub mod World
pub mod Users
pub mod Requests
pub mod Commands
pub mod Finality
pub mod Revoke
pub mod Block
pub mod Guard
