-- ===== src/Access/Block.antt =====
-- UserService.block_user (services/users.py) over the loops of Access.Revoke. `S` is the state of
-- the keys, the proxy accesses and their backends; a backend that is not wired is `none`.
use vpnbot.Prelude.{
  ℕ, Bool, true, false, ◌&&◌, List, [], ◌∷◌, Option, none, some, nat_eq, if◌then◌else◌,
}
use vpnbot.Access.World.{
  blocked_user, User, World, access_denied, invalid_operation, Result, ok, err, Action, ◌>>=◌, ◌>>◌,
  pure, raise_if, now, clear_user_state, write_audit, is_superadmin, is_moderator, is_listed,
}
use vpnbot.Access.Users.{get_user, require_moderator_or_admin, write_role}
use vpnbot.Access.Revoke.{xray, not_wired, KeyOperationError, Backend, Run, is_empty, revoke_all}

pub record BlockUserResult : Type 0 where
  pub user : User
  pub revoked_key_ids : List ℕ
  pub errors : List KeyOperationError
  pub revoked_proxy_ids : List ℕ

-- What comes before any revocation.
unfoldable pub begin_block : List ℕ → ℕ → ℕ → Action (Unit {0})
unfolding require_moderator_or_admin get_user write_role
begin_block admin_ids actor_id target_id = do
  actor ← require_moderator_or_admin actor_id
  raise_if (is_listed admin_ids target_id) invalid_operation
  target ← get_user target_id
  raise_if (is_superadmin target.role) invalid_operation
  raise_if (is_moderator actor.role && is_moderator target.role) access_denied
  at ← now
  write_role target_id blocked_user at (some at)
  write_audit actor_id "user_blocked" target_id
  clear_user_state target_id

-- What comes after it.
unfoldable pub end_block : ℕ → ℕ → List ℕ → List ℕ → List KeyOperationError → Action BlockUserResult
unfolding get_user
end_block actor_id target_id keys proxies errors = do
  write_audit actor_id
      (if is_empty errors then "user_blocked" else "user_blocked_with_revoke_errors") target_id
  user ← get_user target_id
  pure
      (record { user = user; revoked_key_ids = keys; errors = errors; revoked_proxy_ids = proxies })

module _ {S : Type 0} where
  abbrev pub fresh_run : S → List KeyOperationError → Run S
  fresh_run s errors = record {
    state = s;
    succeeded = [];
    failures = [];
    revoked = [];
    errors = errors;
  }

  unfoldable pub revoke_keys : Option (Backend S) → ℕ → S → Option (Run S)
  unfolding revoke_all
  revoke_keys none fuel s =
      some (fresh_run s (record { key_id = 0; key_type = xray; error = not_wired } ∷ []))
  revoke_keys (some keys) fuel s = revoke_all keys fuel (fresh_run s [])

  -- The proxies go on with the errors of the keys.
  unfoldable pub revoke_proxies : Option (Backend S) → ℕ → Run S → Option (Run S)
  unfolding revoke_all
  revoke_proxies none fuel run = some (fresh_run run.state run.errors)
  revoke_proxies (some proxies) fuel run = revoke_all proxies fuel (fresh_run run.state run.errors)

  unfoldable pub finish :
      ℕ → ℕ → List ℕ → World → Option (Run S) → Option (Result BlockUserResult × World × S)
  unfolding end_block
  finish actor target keys w none = none
  finish actor target keys w (some run) =
      let (r, w') = end_block actor target keys run.revoked run.errors w in some (r, w', run.state)

  unfoldable pub after_keys :
      Option (Backend S)
      → ℕ
      → ℕ
      → ℕ
      → World
      → Option (Run S)
      → Option (Result BlockUserResult × World × S)
  unfolding finish revoke_proxies
  after_keys proxies fuel actor target w none = none
  after_keys proxies fuel actor target w (some run) =
      finish actor target run.revoked w (revoke_proxies proxies fuel run)

  unfoldable pub after_begin :
      Option (Backend S)
      → Option (Backend S)
      → ℕ
      → ℕ
      → ℕ
      → Bool
      → S
      → Result (Unit {0}) × World
      → Option (Result BlockUserResult × World × S)
  unfolding finish after_keys revoke_keys
  after_begin keys proxies fuel actor target revoke s (err e, w) = some (err e, w, s)
  after_begin keys proxies fuel actor target true s (ok _, w) =
      after_keys proxies fuel actor target w (revoke_keys keys fuel s)
  after_begin keys proxies fuel actor target false s (ok _, w) =
      finish actor target [] w (some (fresh_run s []))

  -- On fuel for the loops; `none` when it runs out.
  unfoldable pub block_user :
      List ℕ
      → Option (Backend S)
      → Option (Backend S)
      → ℕ
      → ℕ
      → ℕ
      → Bool
      → World
      → S
      → Option (Result BlockUserResult × World × S)
  unfolding begin_block after_begin
  block_user admin_ids keys proxies fuel actor target revoke w s =
      after_begin keys proxies fuel actor target revoke s (begin_block admin_ids actor target w)
