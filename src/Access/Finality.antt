-- ===== src/Access/Finality.antt =====
-- A decided access request stays as it is, whatever comes later.
use vpnbot.Prelude.{ℕ, String, ◌≡◌, Bool, List, [], ◌∷◌, Option, nat_eq, arith}
use vpnbot.Access.World.{
  UserRole, superadmin, moderator, approved_user, pending_user, blocked_user, AccessRequest, World,
  Result, ok, err,
}
use vpnbot.Access.Users.{
  bootstrap_admins, set_role, unblock_user, set_language, set_expiry_notifications,
}
use vpnbot.Access.Revoke.{KeyOperationError}
use vpnbot.Access.Block.{begin_block, end_block}
use vpnbot.Access.Requests.Decide.{
  IsDecided, create_or_get_request-IsDecided, approve-IsDecided, reject-IsDecided,
}
use vpnbot.Access.Commands.{
  Command, bootstrap, start, set_role_to, block, after_begun, unblock, approve_request,
  reject_request, choose_language, choose_notifications, perform, perform_all,
}

-- A change of a role does not touch the requests.
set_role-requests :
    (ids : List ℕ) (actor target : ℕ) (role : UserRole) (w : World)
    → ((set_role ids actor target role w).1.db.requests ≡ w.db.requests)
      × ((set_role ids actor target role w).1.db.next_request ≡ w.db.next_request)
unfolding set_role
set_role-requests ids actor target superadmin w = ground arith
set_role-requests ids actor target moderator w = ground arith
set_role-requests ids actor target approved_user w = ground arith
set_role-requests ids actor target pending_user w = ground arith
set_role-requests ids actor target blocked_user w = ground arith

module _ (id : ℕ) (request : AccessRequest) (ids : List ℕ) (w : World)
    (d : IsDecided id request w.db) where
  set_role-IsDecided :
      (actor target : ℕ) (role : UserRole)
      → IsDecided id request (set_role ids actor target role w).1.db
  set_role-IsDecided actor target role = ground (arith, set_role-requests ids actor target role w)

  unblock_user-IsDecided :
      (actor target : ℕ) → IsDecided id request (unblock_user ids actor target w).1.db
  unfolding unblock_user
  unblock_user-IsDecided actor target = ground arith

  bootstrap_admins-IsDecided : IsDecided id request (bootstrap_admins ids w).1.db
  unfolding bootstrap_admins
  bootstrap_admins-IsDecided = ground arith

  begin_block-IsDecided :
      (actor target : ℕ) → IsDecided id request (begin_block ids actor target w).1.db
  unfolding begin_block
  begin_block-IsDecided actor target = ground arith

  set_language-IsDecided :
      (actor : ℕ) (language : Option String)
      → IsDecided id request (set_language actor language w).1.db
  unfolding set_language
  set_language-IsDecided actor language = ground arith

  set_expiry_notifications-IsDecided :
      (actor : ℕ) (enabled : Bool)
      → IsDecided id request (set_expiry_notifications actor enabled w).1.db
  unfolding set_expiry_notifications
  set_expiry_notifications-IsDecided actor enabled = ground arith

module _ (id : ℕ) (request : AccessRequest) (ids : List ℕ) where
  after_begun-IsDecided :
      (actor target : ℕ) (keys proxies : List ℕ) (errors : List KeyOperationError)
      (begun : Result (Unit {0}) × World)
      → IsDecided id request begun.1.db
      → IsDecided id request (after_begun actor target keys proxies errors begun).db
  unfolding end_block
  after_begun-IsDecided actor target keys proxies errors (err e, w) d = d
  after_begun-IsDecided actor target keys proxies errors (ok _, w) d = ground arith

  perform-IsDecided :
      (command : Command) (w : World)
      → IsDecided id request w.db
      → IsDecided id request (perform ids command w).db
  unfolding perform
  perform-IsDecided bootstrap w d = bootstrap_admins-IsDecided id request ids w d
  perform-IsDecided (start profile) w d = create_or_get_request-IsDecided id request ids profile w d
  perform-IsDecided (set_role_to a t role) w d = set_role-IsDecided id request ids w d a t role
  perform-IsDecided (block a t keys proxies errors) w d =
      after_begun-IsDecided a t keys proxies errors (begin_block ids a t w)
        (begin_block-IsDecided id request ids w d a t)
  perform-IsDecided (unblock a t) w d = unblock_user-IsDecided id request ids w d a t
  perform-IsDecided (approve_request a other) w d = approve-IsDecided id request ids a other w d
  perform-IsDecided (reject_request a other) w d = reject-IsDecided id request a other w d
  perform-IsDecided (choose_language a l) w d = set_language-IsDecided id request ids w d a l
  perform-IsDecided (choose_notifications a e) w d =
      set_expiry_notifications-IsDecided id request ids w d a e

  -- Once a request is approved or rejected, its row stays the same through any commands: it is
  -- decided at most once, and the first decision stands.
  pub perform_all-IsDecided :
      (commands : List Command) (w : World)
      → IsDecided id request w.db
      → IsDecided id request (perform_all ids commands w).db
  unfolding perform_all
  perform_all-IsDecided [] w d = d
  perform_all-IsDecided (command ∷ commands) w d =
      perform_all-IsDecided commands (perform ids command w) (perform-IsDecided command w d)
