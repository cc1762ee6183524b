-- ===== src/Keys/Awg/Service.antt =====
-- Revoking, deleting and reconciling an AWG key (services/awg.py).
use vpnbot.Prelude.{
  ℕ, String, Bool, true, false, not, List, [], ◌∷◌, Option, none, some, get, nat_eq, str_eq,
  if◌then◌else◌,
}
use vpnbot.Access.World.{World}
use vpnbot.Access.Users.{require_approved_or_admin, require_superadmin}
use vpnbot.Backends.Health.{Blocked, BackendHealth, require_mutation_allowed, mark_degraded}
use vpnbot.Backends.Health
use vpnbot.Keys.Store.{
  VpnKey, VpnKeyStatus, pending_apply, apply_failed, pending_revoke, pending_delete, delete_failed,
  revoked, deleted, Store, Outcome, is_in, mark_active, set_status, mark_revoked,
  hard_delete_with_stats,
}
use vpnbot.Keys.Awg.Permission.{may_manage, passes}
use vpnbot.Keys.Awg.{
  Peer, Server, blocked, access_denied, key_not_found, not_awg_key, wrong_status, no_public_key,
  database_failed, given, refused, Step, ◌>>=◌, ◌>>◌, give, or_refuse, or_handle, statement,
  refuse_if, Removed, remove_peer, find_peer, find_managed, may_exist, is_awg, Texts, stored_key,
}

abbrev pub allowed : Option Blocked → Step (Unit {0})
allowed none = give tt
allowed (some reason) = λ s. (refused (blocked reason), s)

-- `backend_health.require_mutation_allowed(VpnKeyType.AWG)`
abbrev pub require_allowed : Step (Unit {0})
require_allowed s = allowed (require_mutation_allowed Health.awg s.health) s

abbrev pub lookup : ℕ → Step VpnKey
lookup id s = or_refuse (get s.store.keys id) key_not_found s

-- A statement whose failure ends the call.
abbrev pub write : Bool → (Store → Outcome (Unit {0}) × Store) → Step (Unit {0})
write true f s = (refused database_failed, s)
write false f s = statement f s

abbrev pub set_key_status : ℕ → VpnKeyStatus → ℕ → Step (Unit {0})
set_key_status id status now = statement (set_status id status now [])

-- What the other calls take.
pub record Call : Type 0 where
  pub actor : ℕ
  pub world : World
  pub remove : Removed
  pub now : ℕ

module _ (t : Texts) where
  -- The public key to remove: the row's, or that of the block that names the row.
  abbrev pub key_to_remove : VpnKey → List Peer → String
  key_to_remove key config =
      if str_eq (stored_key t key) ""
      then t.strip (find_managed key.id config)
      else stored_key t key

  unfoldable pub remove_awg_access : Removed → VpnKey → Step (Unit {0})
  unfolding remove_peer find_managed
  remove_awg_access answer key s =
      (do
        refuse_if (str_eq (key_to_remove key s.config) "") no_public_key
        remove_peer answer key.id (key_to_remove key s.config))
        s

  abbrev pub get_for_manage : Call → ℕ → Step VpnKey
  get_for_manage call id = do
    refuse_if (not (passes (require_approved_or_admin call.actor call.world))) access_denied
    key ← lookup id
    refuse_if (not (is_awg key.key_type)) not_awg_key
    refuse_if (not (passes (may_manage call.actor key.owner_user_id call.world))) access_denied
    give key

  -- What the two ways to revoke share, once the key is found.
  unfoldable pub revoke_found : ℕ → ℕ → Removed → ℕ → VpnKey → Step VpnKey
  unfolding remove_awg_access set_status mark_revoked
  revoke_found id actor answer now key =
      if is_in (revoked ∷ deleted ∷ []) key.status then give key else do
        refuse_if (not (may_exist key)) wrong_status
        set_key_status id pending_revoke now
        or_handle (remove_awg_access answer key) (set_key_status id key.status now)
        statement (mark_revoked id actor now)
        lookup id

  unfoldable pub revoke_awg_key : Call → ℕ → Step VpnKey
  unfolding require_mutation_allowed require_approved_or_admin revoke_found
  revoke_awg_key call id = do
    require_allowed
    key ← get_for_manage call id
    revoke_found id call.actor call.remove call.now key

  abbrev pub revoker : Option ℕ → VpnKey → ℕ
  revoker none key = key.created_by
  revoker (some actor) key = actor

  unfoldable pub revoke_awg_key_system : Option ℕ → Removed → ℕ → ℕ → Step VpnKey
  unfolding require_mutation_allowed revoke_found
  revoke_awg_key_system actor answer now id = do
    require_allowed
    key ← lookup id
    refuse_if (not (is_awg key.key_type)) not_awg_key
    revoke_found id (revoker actor key) answer now key

  abbrev pub remove_if : Bool → Removed → VpnKey → Step (Unit {0})
  remove_if true answer key = remove_awg_access answer key
  remove_if false answer key = give tt

  abbrev pub hard_delete : ℕ → ℕ → Step (Unit {0})
  hard_delete id now s = (given tt, record s { store = hard_delete_with_stats id now s.store })

  unfoldable pub delete_awg_key : Call → ℕ → Step (Unit {0})
  unfolding require_mutation_allowed require_approved_or_admin remove_awg_access set_status
      hard_delete_with_stats
  delete_awg_key call id = do
    require_allowed
    key ← get_for_manage call id
    set_key_status id pending_delete call.now
    or_handle (remove_if (may_exist key) call.remove key) (set_key_status id delete_failed call.now)
    hard_delete id call.now

  -- The status that a look at the config settles, if any.
  abbrev pub settle : Bool → VpnKeyStatus → ℕ → ℕ → Step (Unit {0})
  settle true pending_apply id now = statement (mark_active id now none none)
  settle true apply_failed id now = statement (mark_active id now none none)
  settle false pending_apply id now = set_key_status id apply_failed now
  settle _ _ id now = give tt

  abbrev some_text : String → Option String
  some_text text = if str_eq text "" then none else some text

  abbrev pub peer_present : VpnKey → Server → Bool
  peer_present key s = find_peer (some_text (stored_key t key)) none s.config

  abbrev pub settle_key : Call → ℕ → VpnKey → Step (Unit {0})
  settle_key call id key s = settle (peer_present key s) key.status id call.now s

  unfoldable pub reconcile_key_status : Call → ℕ → Step VpnKey
  unfolding require_mutation_allowed require_superadmin find_peer mark_active set_status
  reconcile_key_status call id = do
    refuse_if (not (passes (require_superadmin call.actor call.world))) access_denied
    require_allowed
    key ← lookup id
    refuse_if (not (is_awg key.key_type)) not_awg_key
    settle_key call id key
    lookup id
