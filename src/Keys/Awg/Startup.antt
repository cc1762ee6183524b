-- ===== src/Keys/Awg/Startup.antt =====
-- What a restart does with a key that was left between two statuses (services/awg.py,
-- `_startup_reconcile_key`). The loop over the pages of such keys is left out.
use vpnbot.Prelude.{ℕ, zero, suc, Bool, true, false, not, ◌&&◌, Option, none, some, any, str_eq}
use vpnbot.Keys.Store.{
  VpnKey, VpnKeyStatus, pending_apply, apply_failed, pending_revoke, pending_delete, delete_failed,
  set_status, mark_active, mark_revoked, hard_delete_with_stats,
}
use vpnbot.Keys.Awg.{Server, Step, ◌>>◌, give, or_handle, statement, Removed, find_peer, Texts}
use vpnbot.Keys.Awg.Service.{set_key_status, hard_delete, remove_awg_access}

-- `_runtime_peer_present`
abbrev pub runtime_peer_present : VpnKey → Server → Bool
runtime_peer_present key s = elim key.public_key [
  | none ↦ false
  | some text ↦ not (str_eq text "") && any (λ other. str_eq other text) s.runtime
]

abbrev pub is_pending_apply : VpnKeyStatus → Bool
is_pending_apply pending_apply = true
is_pending_apply _ = false

-- `key.revoked_by or key.deleted_by or key.created_by`
abbrev pub or_number : Option ℕ → ℕ → ℕ
or_number none n = n
or_number (some zero) n = n
or_number (some (suc m)) n = suc m

-- What a restart takes: the adapter's answers, and whether what runs can be read.
pub record Restart : Type 0 where
  pub remove : Removed
  pub readable : Bool
  pub now : ℕ

module _ (t : Texts) (run : Restart) (id : ℕ) where
  abbrev pub fail_pending : Bool → Step Bool
  fail_pending true = do set_key_status id apply_failed run.now; give true
  fail_pending false = give false

  -- A key that was being applied and has no peer in the config.
  abbrev pub restart_unapplied : Bool → VpnKey → Step Bool
  restart_unapplied true key = do
    remove_awg_access t run.remove key
    fail_pending (is_pending_apply key.status)
    give true
  restart_unapplied false key = fail_pending (is_pending_apply key.status)

  abbrev pub restart_applied : Bool → VpnKey → Step Bool
  restart_applied true key = do statement (mark_active id run.now none none); give true
  restart_applied false key =
      λ s. restart_unapplied (run.readable && runtime_peer_present key s) key s

  abbrev pub restart_in : VpnKeyStatus → VpnKey → Step Bool
  restart_in pending_apply key =
      λ s. restart_applied (find_peer key.public_key key.client_ip s.config) key s
  restart_in apply_failed key =
      λ s. restart_applied (find_peer key.public_key key.client_ip s.config) key s
  restart_in pending_revoke key = do
    remove_awg_access t run.remove key
    statement (
        mark_revoked id (or_number key.revoked_by (or_number key.deleted_by key.created_by))
          run.now)
    give true
  restart_in pending_delete key = do
    or_handle (remove_awg_access t run.remove key) (set_key_status id delete_failed run.now)
    hard_delete t id run.now
    give true
  restart_in delete_failed key = do
    or_handle (remove_awg_access t run.remove key) (set_key_status id delete_failed run.now)
    hard_delete t id run.now
    give true
  restart_in _ key = give false

  unfoldable pub startup_reconcile_key : VpnKey → Step Bool
  unfolding find_peer remove_awg_access set_status mark_active mark_revoked hard_delete_with_stats
  startup_reconcile_key key = restart_in key.status key
