-- ===== src/Access/Requests.antt =====
-- AccessApprovalService (services/access_approval.py) over AccessRequestRepository
-- (repositories/access_requests.py).
pub mod Decide
use vpnbot.Prelude.{
  ℕ, suc, ◌+◌, ◌-◌, String, Bool, true, false, not, ◌&&◌, ◌||◌, List, [], ◌∷◌, Option, none, some,
  Dict, get, put, nat_eq, is_some, keep, find, length, take, drop, ◌==◌, min, if◌then◌else◌,
}
use vpnbot.Access.World.{
  Timestamp, AccessRequestStatus, pending, approved, rejected, UserRole, User, TelegramUserProfile,
  AccessRequest, World, Error, access_denied, not_found, invalid_operation, integrity_error,
  runtime_error, Result, ok, err, Action, ◌>>=◌, ◌>>◌, pure, raise, or_raise, transaction, raise_if,
  gets, modify_db, now, write_audit, is_superadmin, is_moderator, is_approved,
}
use vpnbot.Access.Users.{
  is_blocked_user, get_user, ensure_user, require_moderator_or_admin, approve_access_request_user,
  reject_access_request_user,
}

abbrev pub is_pending_status : AccessRequestStatus → Bool
is_pending_status pending = true
is_pending_status _ = false

abbrev pub status_eq : AccessRequestStatus → AccessRequestStatus → Bool
status_eq pending pending = true
status_eq approved approved = true
status_eq rejected rejected = true
status_eq _ _ = false

abbrev pub rows : Dict ℕ AccessRequest → List AccessRequest
rows [] = []
rows ((id, request) ∷ table) = request ∷ rows table

-- A pending request of this user: the rows that the partial unique index covers.
abbrev pub is_pending_of : ℕ → AccessRequest → Bool
is_pending_of user request = request.telegram_user_id == user && is_pending_status request.status

abbrev pub find_request : ℕ → World → Option AccessRequest
find_request id w = get w.db.requests id

-- The index leaves at most one such row, so the order by time does not choose.
abbrev pub find_pending : ℕ → World → Option AccessRequest
find_pending user w = find (is_pending_of user) (rows w.db.requests)

abbrev pub fresh_request : ℕ → ℕ → Option String → Timestamp → AccessRequest
fresh_request id user username at = record {
  id = id;
  telegram_user_id = user;
  username = username;
  status = pending;
  requested_at = at;
  decided_by = none;
  decided_at = none;
}

-- INSERT, refused by idx_access_requests_one_pending where the user has a pending request.
unfoldable pub create : ℕ → Option String → Timestamp → Action AccessRequest
create user username at = do
  known ← gets (find_pending user)
  raise_if (is_some known) integrity_error
  id ← gets (λ w. w.db.next_request)
  modify_db λ db. record db {
    requests = put db.requests id (fresh_request id user username at);
    next_request = suc id;
  }
  found ← gets (find_request id)
  or_raise found runtime_error

-- `except sqlite3.IntegrityError`
abbrev pub or_existing : ℕ → Result AccessRequest × World → Result (AccessRequest × Bool) × World
or_existing user (ok request, w) = (ok (request, true), w)
or_existing user (err integrity_error, w) =
    (do
      found ← gets (find_pending user)
      request ← or_raise found integrity_error
      pure (request, false))
      w
or_existing user (err e, w) = (err e, w)

unfoldable pub create_pending_idempotent :
    ℕ → Option String → Timestamp → Action (AccessRequest × Bool)
unfolding create
create_pending_idempotent user username at w = or_existing user (create user username at w)

abbrev pub decided : AccessRequestStatus → ℕ → Timestamp → AccessRequest → AccessRequest
decided status actor at request = record request {
  status = status;
  decided_by = some actor;
  decided_at = some at;
}

-- UPDATE ... WHERE id = ? AND status = 'pending'; whether a row was changed.
abbrev pub decide_found :
    ℕ → AccessRequestStatus → ℕ → Timestamp → Option AccessRequest → Action Bool
decide_found id status actor at none = pure false
decide_found id status actor at (some request) =
    if is_pending_status request.status
    then (do
      modify_db λ db. record db { requests = put db.requests id (decided status actor at request) }
      pure true)
    else pure false

unfoldable pub set_status_if_pending : ℕ → AccessRequestStatus → ℕ → Timestamp → Action Bool
set_status_if_pending id status actor at = do
  found ← gets (find_request id)
  decide_found id status actor at found

-- `_clamp_limit` of repositories/_helpers.py
unfoldable pub clamp_limit : ℕ → ℕ
clamp_limit limit = min limit 500

unfoldable pub count_by_status : AccessRequestStatus → World → ℕ
count_by_status status w = length (keep (λ r. status_eq r.status status) (rows w.db.requests))

pub record AccessRequestResult : Type 0 where
  pub user : User
  pub request : Option AccessRequest
  pub created : Bool

-- Access is there already: a superadmin, or an approved user or moderator who is not blocked.
abbrev pub has_access : User → Bool
has_access user =
    is_superadmin user.role
    || is_approved user.role && not (is_blocked_user user)
    || is_moderator user.role && not (is_blocked_user user)

abbrev pub file_request :
    TelegramUserProfile → User → Option AccessRequest → Action AccessRequestResult
file_request profile user (some request) =
    pure (record { user = user; request = some request; created = false })
file_request profile user none = do
  at ← now
  result ← create_pending_idempotent profile.telegram_user_id profile.username at
  if result.1 then write_audit profile.telegram_user_id "access_requested" result.0.id else pure tt
  pure (record { user = user; request = some result.0; created = result.1 })

unfoldable pub create_or_get_request : List ℕ → TelegramUserProfile → Action AccessRequestResult
unfolding create_pending_idempotent
create_or_get_request admin_ids profile = transaction do
  user ← ensure_user admin_ids profile
  known ← gets (find_pending profile.telegram_user_id)
  if has_access user
      then pure (record { user = user; request = none; created = false })
      else file_request profile user known

unfoldable pub approve : List ℕ → ℕ → ℕ → Action (AccessRequest × Bool)
unfolding require_moderator_or_admin set_status_if_pending
approve admin_ids actor id = do
  require_moderator_or_admin actor
  transaction do
    found ← gets (find_request id)
    request ← or_raise found not_found
    at ← now
    changed ← set_status_if_pending id approved actor at
    if changed
        then (do
          approve_access_request_user admin_ids actor request.telegram_user_id request.requested_at
          write_audit actor "access_approved" id)
        else pure tt
    after ← gets (find_request id)
    refreshed ← or_raise after not_found
    pure (refreshed, changed)

unfoldable pub reject : ℕ → ℕ → Action (AccessRequest × Bool)
unfolding require_moderator_or_admin set_status_if_pending
reject actor id = do
  require_moderator_or_admin actor
  transaction do
    found ← gets (find_request id)
    request ← or_raise found not_found
    at ← now
    changed ← set_status_if_pending id rejected actor at
    if changed
        then (do
          reject_access_request_user actor request.telegram_user_id
          write_audit actor "access_rejected" id)
        else pure tt
    after ← gets (find_request id)
    refreshed ← or_raise after not_found
    pure (refreshed, changed)

unfoldable pub count_pending : ℕ → Action ℕ
unfolding require_moderator_or_admin count_by_status
count_pending actor = do require_moderator_or_admin actor; gets (count_by_status pending)

unfoldable pub get_request : ℕ → ℕ → Action AccessRequest
unfolding require_moderator_or_admin
get_request actor id = do
  require_moderator_or_admin actor
  found ← gets (find_request id)
  or_raise found not_found

unfoldable pub check_access : ℕ → Action UserRole
unfolding get_user is_blocked_user
check_access actor = do
  user ← get_user actor
  raise_if (is_blocked_user user) invalid_operation
  pure user.role
