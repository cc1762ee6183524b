-- ===== src/Keys/Lifecycle.antt =====
-- What the statements on keys keep and what they refuse (repositories/vpn_keys.py,
-- repositories/relays.py).
pub mod Relays
pub mod Numbers
pub mod Archive
use vpnbot.Prelude.{
  ℕ, suc, ◌+◌, ◌<◌, ◌≤◌, ◌≡◌, refl, String, Bool, true, false, not, ◌&&◌, ◌||◌, List, [], ◌∷◌, ◌++◌,
  Option, none, some, Dict, get, put, get-put, remove, get-remove_ne, nat_eq, any, map, is_some,
  str_eq, ◌==◌, max, arith, if◌then◌else◌, Bool-cases, Option-cases, inl, inr,
}
use vpnbot.Keys.Store.{
  VpnKeyType, VpnKeyStatus, VpnKey, Relay, Traffic, Archived, Store, KeyError, Outcome, returned,
  raised, pending_apply, active, apply_failed, deleted, revoked, invalid_transition,
  relay_unavailable, concurrent_modification, status_eq, is_in, is_deleted, highest, first_or_zero,
  set_first, next_id, insert_key, relay_enabled, reserve_key_number, create_pending, update_key,
  mark_active, set_status, update_key_status, mark_revoked, mark_deleted, hard_delete_with_stats,
  update_note, update_payload, names_relay, any_key, delete_if_unused,
}

-- The commands of the repositories on one store; `force` sets a status whatever it was.
pub data Statement : Type 0 where
  create : VpnKey → Option String → Statement
  reserve : Statement
  activate : ℕ → ℕ → Option String → Option String → Statement
  transition : ℕ → VpnKeyStatus → ℕ → VpnKeyStatus → List VpnKeyStatus → Statement
  force : ℕ → VpnKeyStatus → ℕ → Statement
  revoke : ℕ → ℕ → ℕ → Statement
  soft_delete : ℕ → ℕ → ℕ → Statement
  hard_delete : ℕ → ℕ → Statement
  annotate : ℕ → Option String → ℕ → Statement
  repack : ℕ → String → String → ℕ → Statement
  drop_relay : ℕ → Statement

module _ (well_formed : String → Bool) where
  unfoldable pub execute : Statement → Store → Store
  execute (create key relay) s = (create_pending well_formed key relay s).1
  execute reserve s = (reserve_key_number s).1
  execute (activate id now payload public_payload) s =
      (mark_active id now payload public_payload s).1
  execute (transition id status now allowed others) s =
      (set_status id status now (allowed ∷ others) s).1
  execute (force id status now) s = (update_key_status id status now s).1
  execute (revoke id actor now) s = (mark_revoked id actor now s).1
  execute (soft_delete id actor now) s = (mark_deleted id actor now s).1
  execute (hard_delete id now) s = hard_delete_with_stats id now s
  execute (annotate id note now) s = (update_note id note now s).1
  execute (repack id payload public_payload now) s =
      (update_payload id payload public_payload now s).1
  execute (drop_relay id) s = (delete_if_unused id s).1

  unfoldable pub execute_all : List Statement → Store → Store
  unfolding execute
  execute_all [] s = s
  execute_all (statement ∷ statements) s = execute_all statements (execute statement s)

-- A key in use whose relay is in the table of the relays, or which goes through none.
abbrev pub relay_known : String → Dict ℕ Relay → Bool
relay_known name [] = false
relay_known name ((id, relay) ∷ relays) = str_eq relay.name name || relay_known name relays

abbrev pub is_reachable : Dict ℕ Relay → VpnKey → Bool
is_reachable relays key =
    is_deleted key || elim key.relay [ none ↦ true | some relay ↦ relay_known relay relays ]

abbrev pub all_keys : (VpnKey → Bool) → Dict ℕ VpnKey → Bool
all_keys test [] = true
all_keys test ((id, key) ∷ keys) = test key && all_keys test keys

pub all_keys-get :
    (test : VpnKey → Bool) (keys : Dict ℕ VpnKey) (id : ℕ) (key : VpnKey)
    → all_keys test keys ≡ true
    → get keys id ≡ some key
    → test key ≡ true
unfolding get
all_keys-get test [] id key h e = ground arith
all_keys-get test ((j, k) ∷ keys) id key h e = ground (arith, all_keys-get test keys id key)

pub all_keys-put :
    (test : VpnKey → Bool) (keys : Dict ℕ VpnKey) (id : ℕ) (key : VpnKey)
    → all_keys test keys ≡ true
    → test key ≡ true
    → all_keys test (put keys id key) ≡ true
unfolding put
all_keys-put test [] id key h e = ground arith
all_keys-put test ((j, k) ∷ keys) id key h e = ground (arith, all_keys-put test keys id key)

pub all_keys-remove :
    (test : VpnKey → Bool) (keys : Dict ℕ VpnKey) (id : ℕ)
    → all_keys test keys ≡ true
    → all_keys test (remove keys id) ≡ true
unfolding remove
all_keys-remove test [] id h = ground arith
all_keys-remove test ((j, k) ∷ keys) id h = ground (arith, all_keys-remove test keys id)

pub relay_enabled-known :
    (name : String) (relays : Dict ℕ Relay)
    → relay_enabled name relays ≡ true
    → relay_known name relays ≡ true
relay_enabled-known name [] h = h
relay_enabled-known name ((id, relay) ∷ relays) h = ground (arith, relay_enabled-known name relays)
