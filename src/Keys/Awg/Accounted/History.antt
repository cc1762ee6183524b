-- ===== src/Keys/Awg/Accounted/History.antt =====
-- Any sequence of calls on the AWG keys, and of restarts (services/awg.py).
use vpnbot.Prelude.{ℕ, ◌≡◌, refl, List, [], ◌∷◌, All, Option, none, some, get, nat_eq}
use vpnbot.Keys.Store.{VpnKey}
use vpnbot.Keys.Awg.{Server, Removed, Texts}
use vpnbot.Keys.Awg.Service.{
  Call, revoke_awg_key, revoke_awg_key_system, delete_awg_key, reconcile_key_status,
}
use vpnbot.Keys.Awg.Issuing.{Issue, create_awg_key}
use vpnbot.Keys.Awg.Startup.{Restart, startup_reconcile_key}
use vpnbot.Keys.Awg.Accounted.{IsAccounted}
use vpnbot.Keys.Awg.Accounted.Managed.{
  revoke_awg_key-IsKept, revoke_awg_key_system-IsKept, delete_awg_key-IsKept,
  reconcile_key_status-IsKept,
}
use vpnbot.Keys.Awg.Accounted.Issued.{IsReadable, create_awg_key-IsKept}
use vpnbot.Keys.Awg.Accounted.Restarted.{startup_reconcile_key-IsAccounted}

pub data Command : Type 0 where
  issue : Issue → Command
  revoke : Call → ℕ → Command
  expire : Option ℕ → Removed → ℕ → ℕ → Command
  delete : Call → ℕ → Command
  reconcile : Call → ℕ → Command
  restart : Restart → ℕ → Command

module _ (t : Texts) where
  abbrev pub IsSound : Command → Type 0
  IsSound (issue run) = IsReadable t run
  IsSound _ = Unit

  abbrev restart_found : Restart → ℕ → Option VpnKey → Server → Server
  restart_found run id none s = s
  restart_found run id (some key) s = (startup_reconcile_key t run id key s).1

  unfoldable pub perform : Command → Server → Server
  perform (issue run) s = (create_awg_key run s).1
  perform (revoke call id) s = (revoke_awg_key t call id s).1
  perform (expire actor answer now id) s = (revoke_awg_key_system t actor answer now id s).1
  perform (delete call id) s = (delete_awg_key t call id s).1
  perform (reconcile call id) s = (reconcile_key_status t call id s).1
  perform (restart run id) s = restart_found run id (get s.store.keys id) s

  unfoldable pub perform_all : List Command → Server → Server
  unfolding perform
  perform_all [] s = s
  perform_all (command ∷ commands) s = perform_all commands (perform command s)

  restart_found-IsAccounted :
      (run : Restart) (id : ℕ) (found : Option VpnKey) (s : Server)
      → get s.store.keys id ≡ found
      → IsAccounted t s
      → IsAccounted t (restart_found run id found s)
  restart_found-IsAccounted run id none s e h = h
  restart_found-IsAccounted run id (some key) s e h =
      startup_reconcile_key-IsAccounted t run id key s e h

  perform-IsAccounted :
      (command : Command) (s : Server)
      → IsSound command
      → IsAccounted t s
      → IsAccounted t (perform command s)
  unfolding perform
  perform-IsAccounted (issue run) s sound h = create_awg_key-IsKept t run sound s h
  perform-IsAccounted (revoke call id) s sound h = revoke_awg_key-IsKept t call id s h
  perform-IsAccounted (expire actor answer now id) s sound h =
      revoke_awg_key_system-IsKept t actor answer now id s h
  perform-IsAccounted (delete call id) s sound h = delete_awg_key-IsKept t call id s h
  perform-IsAccounted (reconcile call id) s sound h = reconcile_key_status-IsKept t call id s h
  perform-IsAccounted (restart run id) s sound h =
      restart_found-IsAccounted run id (get s.store.keys id) s refl h

  -- Through any calls and restarts, whatever the adapter and the database fail at, each public key
  -- that has access on the server is that of a row in a status in which access may exist. It is so at
  -- the start, and the keys that are generated are not empty and read as themselves out of their
  -- rows.
  pub perform_all-IsAccounted :
      (commands : List Command) (s : Server)
      → All IsSound commands
      → IsAccounted t s
      → IsAccounted t (perform_all commands s)
  unfolding perform_all
  perform_all-IsAccounted [] s sound h = h
  perform_all-IsAccounted (command ∷ commands) s sound h =
      perform_all-IsAccounted commands (perform command s) sound.1
        (perform-IsAccounted command s sound.0 h)
