-- ===== src/Keys/Awg/Accounted/Restarted.antt =====
-- A restart keeps every access accounted for (services/awg.py).
use vpnbot.Prelude.{ℕ, ◌≡◌, refl, sym, Bool, true, false, ◌&&◌, none, some, get, nat_eq}
use std.Path.{subst}
use vpnbot.Keys.Store.{
  VpnKey, VpnKeyStatus, pending_apply, apply_failed, pending_revoke, pending_delete, delete_failed,
  set_status, mark_active, mark_revoked,
}
use vpnbot.Keys.Awg.{
  Server, Reply, given, refused, Step, continue, ◌>>◌, give, statement, find_peer, Texts,
}
use vpnbot.Keys.Awg.Service.{set_key_status, remove_awg_access, hard_delete}
use vpnbot.Keys.Awg.Startup.{
  Restart, runtime_peer_present, is_pending_apply, or_number, fail_pending, restart_unapplied,
  restart_applied, restart_in, startup_reconcile_key,
}
use vpnbot.Keys.Awg.Accounted.{IsAccounted}
use vpnbot.Keys.Awg.Accounted.Kept.{
  IsKept, continue-IsKept, fewer-IsAccounted, set_key_status-IsKept, mark_active-IsAccounted,
}
use vpnbot.Keys.Awg.Accounted.Revoked.{
  IsTaken, IsKeyOf, IsGone, after_taken, remove_awg_access-IsTaken, found-IsKeyOf,
  mark_revoked-IsAccounted, hard_delete-IsAccounted,
}

module _ (t : Texts) where
  -- What follows a removal, without a handler.
  taken_next :
      {A : Type 0} (id : ℕ) (key : VpnKey) (s : Server) (r : Reply (Unit {0}) × Server)
      (next : Step A)
      → IsAccounted t s
      → IsKeyOf t id key s
      → IsTaken t key s r
      → ((after : Server)
          → IsKeyOf t id key after
          → IsGone t key after
          → IsAccounted t after
          → IsAccounted t (next after).1)
      → IsAccounted t (continue r.0 (λ _. next) r.1).1
  taken_next id key s (given a, after) next h same (fewer, rows, gone) then_ =
      then_ after (subst (λ store. IsKeyOf t id key (record s { store = store })) (sym rows) same)
        gone (fewer-IsAccounted t s after fewer rows h)
  taken_next id key s (refused e, after) next h same (fewer, rows) then_ =
      fewer-IsAccounted t s after fewer rows h

module _ (t : Texts) (run : Restart) (id : ℕ) where
  fail_pending-IsKept : (b : Bool) → IsKept t (fail_pending t run id b)
  unfolding set_status
  fail_pending-IsKept true s h = set_key_status-IsKept t id apply_failed run.now refl s h
  fail_pending-IsKept false s h = h

  restart_unapplied-IsAccounted :
      (present : Bool) (key : VpnKey) (s : Server)
      → get s.store.keys id ≡ some key
      → IsAccounted t s
      → IsAccounted t (restart_unapplied t run id present key s).1
  restart_unapplied-IsAccounted false key s found h =
      fail_pending-IsKept (is_pending_apply key.status) s h
  restart_unapplied-IsAccounted true key s found h =
      taken_next t id key s (remove_awg_access t run.remove key s)
        (fail_pending t run id (is_pending_apply key.status) >> give true) h
        (found-IsKeyOf t id key s found) (remove_awg_access-IsTaken t run.remove key s)
        (λ after same gone h'.
          let r = fail_pending t run id (is_pending_apply key.status) after in
          continue-IsKept t r.0 (λ _. give true) r.1 (λ _ s' h''. h'')
            (fail_pending-IsKept (is_pending_apply key.status) after h'))

  restart_applied-IsAccounted :
      (present : Bool) (key : VpnKey) (s : Server)
      → get s.store.keys id ≡ some key
      → IsAccounted t s
      → IsAccounted t (restart_applied t run id present key s).1
  restart_applied-IsAccounted true key s found h =
      let r = statement (mark_active id run.now none none) s in
      continue-IsKept t r.0 (λ _. give true) r.1 (λ _ s' h'. h')
        (mark_active-IsAccounted t id run.now none none s (λ row e. refl) h)
  restart_applied-IsAccounted false key s found h =
      restart_unapplied-IsAccounted (run.readable && runtime_peer_present key s) key s found h

  deleted-IsAccounted :
      (key : VpnKey) (s : Server)
      → get s.store.keys id ≡ some key
      → IsAccounted t s
      → IsAccounted t (restart_in t run id delete_failed key s).1
  deleted-IsAccounted key s found h =
      after_taken t id key s (remove_awg_access t run.remove key s)
        (set_key_status id delete_failed run.now) (hard_delete t id run.now >> give true) h
        (found-IsKeyOf t id key s found) (remove_awg_access-IsTaken t run.remove key s)
        (set_key_status-IsKept t id delete_failed run.now refl)
        (λ after same gone h'. hard_delete-IsAccounted t id run.now key after same gone h')

  restart_in-IsAccounted :
      (status : VpnKeyStatus) (key : VpnKey) (s : Server)
      → get s.store.keys id ≡ some key
      → IsAccounted t s
      → IsAccounted t (restart_in t run id status key s).1
  restart_in-IsAccounted pending_apply key s found h =
      restart_applied-IsAccounted (find_peer key.public_key key.client_ip s.config) key s found h
  restart_in-IsAccounted apply_failed key s found h =
      restart_applied-IsAccounted (find_peer key.public_key key.client_ip s.config) key s found h
  restart_in-IsAccounted pending_revoke key s found h =
      let revoker = or_number key.revoked_by (or_number key.deleted_by key.created_by) in
      taken_next t id key s (remove_awg_access t run.remove key s)
        (statement (mark_revoked id revoker run.now) >> give true) h
        (found-IsKeyOf t id key s found) (remove_awg_access-IsTaken t run.remove key s)
        (λ after same gone h'.
          let r = statement (mark_revoked id revoker run.now) after in
          continue-IsKept t r.0 (λ _. give true) r.1 (λ _ s' h''. h'')
            (mark_revoked-IsAccounted t id revoker run.now key after same gone h'))
  restart_in-IsAccounted pending_delete key s found h = deleted-IsAccounted key s found h
  restart_in-IsAccounted delete_failed key s found h = deleted-IsAccounted key s found h
  restart_in-IsAccounted _ key s found h = h

  pub startup_reconcile_key-IsAccounted :
      (key : VpnKey) (s : Server)
      → get s.store.keys id ≡ some key
      → IsAccounted t s
      → IsAccounted t (startup_reconcile_key t run id key s).1
  unfolding startup_reconcile_key
  startup_reconcile_key-IsAccounted key s found h = restart_in-IsAccounted key.status key s found h
