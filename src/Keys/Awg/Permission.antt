-- ===== src/Keys/Awg/Permission.antt =====
-- Who may issue and who may manage a key (services/awg.py, `_ensure_can_create` and the check of
-- `_get_awg_key_for_manage`).
use vpnbot.Prelude.{ℕ, Bool, true, false, not, ◌&&◌, ◌||◌, nat_eq, ◌==◌}
use vpnbot.Access.World.{
  World, Result, ok, err, User, Action, ◌>>=◌, ◌>>◌, raise_if, access_denied, is_superadmin,
  is_approved,
}
use vpnbot.Access.Users.{require_approved_or_admin, get_user, is_blocked_user}

abbrev ensure_owner : Bool → User → ℕ → Action (Unit {0})
ensure_owner true actor owner_id = do
  raise_if (not (is_superadmin actor.role)) access_denied
  owner ← get_user owner_id
  raise_if (is_blocked_user owner) access_denied
ensure_owner false actor owner_id = do
  owner ← require_approved_or_admin owner_id
  raise_if (not (is_superadmin owner.role || is_approved owner.role)) access_denied

unfoldable pub ensure_can_create : ℕ → ℕ → Bool → Action (Unit {0})
unfolding require_approved_or_admin get_user is_blocked_user
ensure_can_create actor_id owner_id allow_pending_owner = do
  actor ← require_approved_or_admin actor_id
  raise_if (not (is_superadmin actor.role) && not (actor_id == owner_id)) access_denied
  ensure_owner allow_pending_owner actor owner_id

-- Whether a check on the users passes.
abbrev pub passes : {A : Type 0} → Result A × World → Bool
passes (ok a, w) = true
passes (err e, w) = false

-- The role that a manager of the key needs.
abbrev pub may_manage : ℕ → ℕ → Action (Unit {0})
may_manage actor_id owner_id = do
  actor ← require_approved_or_admin actor_id
  raise_if (not (is_superadmin actor.role) && not (owner_id == actor_id)) access_denied
