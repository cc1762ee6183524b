-- ===== src/Keys/Lifecycle/Relays.antt =====
-- A key in use never names a relay that is gone (repositories/vpn_keys.py,
-- repositories/relays.py).
use vpnbot.Prelude.{
  ℕ, ◌≡◌, refl, sym, ap, ◌∙◌, String, Bool, true, false, not, ◌||◌, List, [], ◌∷◌, Option, none,
  some, Dict, get, remove, nat_eq, str_eq, arith, Bool-cases, Option-cases, inl, inr, eq_iff,
}
use vpnbot.Keys.Store.{
  VpnKeyStatus, VpnKey, Relay, Store, KeyError, or_raise, pending_apply, apply_failed, deleted,
  revoked, invalid_transition, concurrent_modification, status_eq, is_in, is_deleted, next_id,
  insert_key, relay_enabled, reserve_key_number, create_pending, update_key, mark_active,
  set_status, update_key_status, mark_revoked, mark_deleted, hard_delete_with_stats, update_note,
  update_payload, names_relay, any_key, activated, moved, as_revoked, as_deleted, noted, repacked,
  any_row, in_statuses, is_open, is_kept, delete_if_unused,
}
use vpnbot.Keys.Lifecycle.{
  Statement, create, reserve, activate, transition, force, revoke, soft_delete, hard_delete,
  annotate, repack, drop_relay, execute, execute_all, relay_known, is_reachable, all_keys,
  all_keys-get, all_keys-put, all_keys-remove, relay_enabled-known,
}

relay_known-remove :
    (name : String) (relays : Dict ℕ Relay) (id : ℕ) (relay : Relay)
    → get relays id ≡ some relay
    → str_eq relay.name name ≡ false
    → relay_known name (remove relays id) ≡ relay_known name relays
unfolding get remove
relay_known-remove name [] id relay e h = refl
relay_known-remove name ((j, r) ∷ relays) id relay e h =
    ground (arith, relay_known-remove name relays id relay)

str_eq-sym : (a b : String) → str_eq a b ≡ false → str_eq b a ≡ false
str_eq-sym a b h = ground (arith, eq_iff a b, eq_iff b a)

reachable_one :
    (key : VpnKey) (relays : Dict ℕ Relay) (id : ℕ) (relay : Relay)
    → get relays id ≡ some relay
    → names_relay relay.name key ≡ false
    → is_reachable relays key ≡ true
    → is_reachable (remove relays id) key ≡ true
reachable_one key relays id relay e unused h = elim (Option-cases key.relay) [
  | inl direct ↦ ground arith
  | inr (name, through) ↦
      ground (arith, str_eq-sym name relay.name, relay_known-remove name relays id relay e)
]

reachable-remove :
    (keys : Dict ℕ VpnKey) (relays : Dict ℕ Relay) (id : ℕ) (relay : Relay)
    → get relays id ≡ some relay
    → any_key (names_relay relay.name) keys ≡ false
    → all_keys (is_reachable relays) keys ≡ true
    → all_keys (is_reachable (remove relays id)) keys ≡ true
reachable-remove [] relays id relay e unused h = refl
reachable-remove ((j, k) ∷ keys) relays id relay e unused h =
    ground (arith, reachable_one k relays id relay e, reachable-remove keys relays id relay e)

-- Every key in use goes through no relay or through one that the table has.
abbrev pub Linked : Store → Type 0
Linked s = all_keys (is_reachable s.relays) s.keys ≡ true

module _ (s : Store) (h : Linked s) where
  insert_key-Linked :
      (key : VpnKey)
      → is_reachable s.relays (record key { status = pending_apply }) ≡ true
      → Linked (insert_key key s).1
  insert_key-Linked key e =
      all_keys-put (is_reachable s.relays) s.keys (next_id s)
        (record key { id = next_id s; status = pending_apply }) h e

  create_pending-Linked :
      (well_formed : String → Bool) (key : VpnKey) (relay : Option String)
      → Linked (create_pending well_formed key relay s).1
  unfolding create_pending
  create_pending-Linked well_formed key none = insert_key-Linked (record key { relay = none }) refl
  create_pending-Linked well_formed key (some relay) = elim (Bool-cases (well_formed relay)) [
    | inr e ↦ rw e h
    | inl e ↦ elim (Bool-cases (relay_enabled relay s.relays)) [
      | inr e' ↦ rw (e, e') h
      | inl e' ↦
          rw (e, e')
            (insert_key-Linked (record key { relay = some relay })
              (relay_enabled-known relay s.relays e'))
    ]
  ]

  update_key-Linked :
      (id : ℕ) (test : VpnKey → Bool) (change : VpnKey → VpnKey)
      → ((key : VpnKey)
          → test key ≡ true
          → is_reachable s.relays key ≡ true
          → is_reachable s.relays (change key) ≡ true)
      → Linked (update_key id test change s).1
  unfolding update_key
  update_key-Linked id test change keeps = elim (Option-cases (get s.keys id)) [
    | inl e ↦ rw e h
    | inr (key, e) ↦ elim (Bool-cases (test key)) [
      | inr e' ↦ rw (e, e') h
      | inl e' ↦
          rw (e, e')
            (all_keys-put (is_reachable s.relays) s.keys id (change key) h
              (keeps key e' (all_keys-get (is_reachable s.relays) s.keys id key h e)))
    ]
  ]

  delete_if_unused-Linked : (id : ℕ) → Linked (delete_if_unused id s).1
  unfolding delete_if_unused
  delete_if_unused-Linked id = elim (Option-cases (get s.relays id)) [
    | inl e ↦ rw e h
    | inr (relay, e) ↦ elim (Bool-cases (any_key (names_relay relay.name) s.keys)) [
      | inl used ↦ rw (e, used) h
      | inr unused ↦ rw (e, unused) (reachable-remove s.keys s.relays id relay e unused h)
    ]
  ]

  mark_active-Linked :
      (id now : ℕ) (payload public_payload : Option String)
      → Linked (mark_active id now payload public_payload s).1
  unfolding mark_active
  mark_active-Linked id now payload public_payload = elim (Option-cases (get s.keys id)) [
    | inl e ↦ rw e h
    | inr (key, e) ↦ rw e (
        update_key-Linked id (in_statuses (pending_apply ∷ apply_failed ∷ []))
          (activated now payload public_payload) λ k t r. ground arith)
  ]

or_raise-Linked : (e : KeyError) (p : Bool × Store) → Linked p.1 → Linked (or_raise e p).1
or_raise-Linked e (true, s) h = h
or_raise-Linked e (false, s) h = h

-- No key of this id is in status 'deleted'.
abbrev pub is_open_at : ℕ → Store → Bool
is_open_at id s = elim (get s.keys id) [ none ↦ true | some key ↦ not (is_deleted key) ]

-- A statement that sets a status may not be allowed from status 'deleted', and one that sets it
-- whatever it was may not meet a deleted row, unless it deletes.
abbrev pub leaves_deleted : Statement → Store → Bool
leaves_deleted (transition id status now allowed others) s = not (is_in (allowed ∷ others) deleted)
leaves_deleted (force id status now) s = is_open_at id s || status_eq status deleted
leaves_deleted _ s = true

abbrev pub AllLeaveDeleted : (String → Bool) → List Statement → Store → Type 0
AllLeaveDeleted well_formed [] s = Unit
AllLeaveDeleted well_formed (statement ∷ statements) s =
    (leaves_deleted statement s ≡ true)
    × AllLeaveDeleted well_formed statements (execute well_formed statement s)

is_deleted-status : (status : VpnKeyStatus) → status_eq status deleted ≡ true → status ≡ deleted
is_deleted-status deleted e = refl
is_deleted-status _ e = ground arith

-- A key in use has the relay that it names.
route :
    (relays : Dict ℕ Relay) (key : VpnKey)
    → is_deleted key ≡ false
    → is_reachable relays key ≡ true
    → elim key.relay [ none ↦ true | some relay ↦ relay_known relay relays ] ≡ true
route relays key e r = ground arith

open_status :
    (key : VpnKey) → not (is_in (revoked ∷ deleted ∷ []) key.status) ≡ true → is_deleted key ≡ false
open_status key t = ground arith

forced :
    (relays : Dict ℕ Relay) (key : VpnKey) (status : VpnKeyStatus) (now : ℕ)
    → (not (is_deleted key) || status_eq status deleted) ≡ true
    → is_reachable relays key ≡ true
    → is_reachable relays (moved status now key) ≡ true
forced relays key status now l r = elim (Bool-cases (status_eq status deleted)) [
  | inl e ↦ ground (arith, e)
  | inr e ↦ ground (arith, l, e, route relays key (ground (arith, l, e)) r)
]

transition-Linked :
    (relays : Dict ℕ Relay) (status : VpnKeyStatus) (now : ℕ) (allowed : VpnKeyStatus)
    (others : List VpnKeyStatus)
    → not (is_in (allowed ∷ others) deleted) ≡ true
    → (key : VpnKey) → is_in (allowed ∷ others) key.status ≡ true
    → is_reachable relays key ≡ true
    → is_reachable relays (record key { status = status; updated_at = now }) ≡ true
transition-Linked relays status now allowed others l key t r = elim (Bool-cases (is_deleted key)) [
  | inl e ↦ let same : key.status ≡ deleted = is_deleted-status key.status e in ground (arith, same)
  | inr e ↦ ground (arith, route relays key e r)
]

force-Linked :
    (s : Store) (h : Linked s) (id : ℕ) (status : VpnKeyStatus) (now : ℕ)
    → (is_open_at id s || status_eq status deleted) ≡ true
    → Linked (update_key id any_row (moved status now) s).1
unfolding update_key
force-Linked s h id status now l = elim (Option-cases (get s.keys id)) [
  | inl e ↦ rw e h
  | inr (key, e) ↦
      let before = all_keys-get (is_reachable s.relays) s.keys id key h e in
      let allowed : (not (is_deleted key) || status_eq status deleted) ≡ true =
        sym (
          ap
            (λ row.
              elim row [ none ↦ true | some k ↦ not (is_deleted k) ] || status_eq status deleted)
            e)
        ∙ l in
      rw e (
        all_keys-put (is_reachable s.relays) s.keys id (moved status now key) h
          (forced s.relays key status now allowed before))
]

module _ (well_formed : String → Bool) where
  execute-Linked :
      (statement : Statement) (s : Store)
      → leaves_deleted statement s ≡ true
      → Linked s
      → Linked (execute well_formed statement s)
  unfolding execute update_key_status set_status mark_revoked mark_deleted update_note
      update_payload hard_delete_with_stats reserve_key_number
  execute-Linked (create key relay) s l h = create_pending-Linked s h well_formed key relay
  execute-Linked reserve s l h = h
  execute-Linked (activate id now payload public_payload) s l h =
      mark_active-Linked s h id now payload public_payload
  execute-Linked (transition id status now allowed others) s l h =
      or_raise-Linked concurrent_modification
        (update_key id (in_statuses (allowed ∷ others)) (moved status now) s)
        (update_key-Linked s h id (in_statuses (allowed ∷ others)) (moved status now)
          (transition-Linked s.relays status now allowed others l))
  execute-Linked (force id status now) s l h = force-Linked s h id status now l
  execute-Linked (revoke id actor now) s l h =
      or_raise-Linked invalid_transition (update_key id is_open (as_revoked actor now) s) (
        update_key-Linked s h id is_open (as_revoked actor now)
          λ k t r. route s.relays k (open_status k t) r)
  execute-Linked (soft_delete id actor now) s l h =
      or_raise-Linked invalid_transition (update_key id is_kept (as_deleted actor now) s)
        (update_key-Linked s h id is_kept (as_deleted actor now) λ k t r. refl)
  execute-Linked (hard_delete id now) s l h = all_keys-remove (is_reachable s.relays) s.keys id h
  execute-Linked (annotate id text now) s l h =
      update_key-Linked s h id any_row (noted text now) λ k t r. r
  execute-Linked (repack id payload public_payload now) s l h =
      update_key-Linked s h id any_row (repacked payload public_payload now) λ k t r. r
  execute-Linked (drop_relay id) s l h = delete_if_unused-Linked s h id

  -- A key in use that goes through a relay names one that the table of the relays has. Every
  -- statement keeps this, in any sequence: a key issued through a relay against the deletion of
  -- that relay too. No transition is allowed from status 'deleted', and a status that is set
  -- whatever it was meets no deleted row, or deletes.
  pub execute_all-Linked :
      (statements : List Statement) (s : Store)
      → AllLeaveDeleted well_formed statements s
      → Linked s
      → Linked (execute_all well_formed statements s)
  unfolding execute_all
  execute_all-Linked [] s l h = h
  execute_all-Linked (statement ∷ statements) s l h =
      execute_all-Linked statements (execute well_formed statement s) l.1
        (execute-Linked statement s l.0 h)
