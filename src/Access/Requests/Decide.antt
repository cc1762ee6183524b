-- ===== src/Access/Requests/Decide.antt =====
-- A request is decided once (services/access_approval.py, repositories/access_requests.py).
use vpnbot.Prelude.{ℕ, ◌<◌, String, ◌≡◌, false, List, Option, some, get, get-put, nat_eq, arith}
use vpnbot.Access.World.{
  Timestamp, AccessRequestStatus, TelegramUserProfile, AccessRequest, Db, World,
}
use vpnbot.Access.Users.{ensure_user, approve_access_request_user, reject_access_request_user}
use vpnbot.Access.Requests.{
  is_pending_status, create_or_get_request, create_pending_idempotent, set_status_if_pending,
  approve, reject,
}

-- What the request operations have to leave alone: a row that is decided.
pub record IsDecided (id : ℕ) (request : AccessRequest) (db : Db) : Type 0 where
  pub stored : get db.requests id ≡ some request
  pub known : id < db.next_request
  pub settled : is_pending_status request.status ≡ false

-- The user operations do not touch the requests.
ensure_user-requests :
    (ids : List ℕ) (profile : TelegramUserProfile) (w : World)
    → ((ensure_user ids profile w).1.db.requests ≡ w.db.requests)
      × ((ensure_user ids profile w).1.db.next_request ≡ w.db.next_request)
unfolding ensure_user
ensure_user-requests ids profile w = ground arith

approve_access_request_user-requests :
    (ids : List ℕ) (actor target : ℕ) (at : Timestamp) (w : World)
    → ((approve_access_request_user ids actor target at w).1.db.requests ≡ w.db.requests)
      × ((approve_access_request_user ids actor target at w).1.db.next_request ≡ w.db.next_request)
unfolding approve_access_request_user
approve_access_request_user-requests ids actor target at w = ground arith

reject_access_request_user-requests :
    (actor target : ℕ) (w : World)
    → ((reject_access_request_user actor target w).1.db.requests ≡ w.db.requests)
      × ((reject_access_request_user actor target w).1.db.next_request ≡ w.db.next_request)
unfolding reject_access_request_user
reject_access_request_user-requests actor target w = ground arith

module _ (id : ℕ) (request : AccessRequest) where
  create_pending_idempotent-IsDecided :
      (user : ℕ) (username : Option String) (at : Timestamp) (w : World)
      → IsDecided id request w.db
      → IsDecided id request (create_pending_idempotent user username at w).1.db
  unfolding create_pending_idempotent
  create_pending_idempotent-IsDecided user username at w d = grind (arith, get-put)

  set_status_if_pending-IsDecided :
      (other actor : ℕ) (status : AccessRequestStatus) (at : Timestamp) (w : World)
      → IsDecided id request w.db
      → IsDecided id request (set_status_if_pending other status actor at w).1.db
  unfolding set_status_if_pending
  set_status_if_pending-IsDecided other actor status at w d = grind (arith, get-put)

  pub create_or_get_request-IsDecided :
      (ids : List ℕ) (profile : TelegramUserProfile) (w : World)
      → IsDecided id request w.db
      → IsDecided id request (create_or_get_request ids profile w).1.db
  unfolding create_or_get_request
  create_or_get_request-IsDecided ids profile w d =
      grind (arith, get-put, ensure_user-requests ids profile w)

  pub approve-IsDecided :
      (ids : List ℕ) (actor other : ℕ) (w : World)
      → IsDecided id request w.db
      → IsDecided id request (approve ids actor other w).1.db
  unfolding approve
  approve-IsDecided ids actor other w d =
      grind (arith, get-put, approve_access_request_user-requests)

  pub reject-IsDecided :
      (actor other : ℕ) (w : World)
      → IsDecided id request w.db
      → IsDecided id request (reject actor other w).1.db
  unfolding reject
  reject-IsDecided actor other w d = grind (arith, get-put, reject_access_request_user-requests)
