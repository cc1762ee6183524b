-- ===== src/Keys/Lifecycle/Numbers.antt =====
-- A number of the id space of keys is given out once (repositories/vpn_keys.py).
use vpnbot.Prelude.{
  ℕ, suc, ◌<◌, ◌≤◌, ◌≡◌, refl, sym, ap, String, Bool, true, false, not, List, [], ◌∷◌, ◌++◌, Option,
  none, some, Dict, get, put, remove, nat_eq, map, max, arith, if◌then◌else◌, Bool-cases,
  Option-cases, inl, inr,
}
use vpnbot.Keys.Store.{
  VpnKey, Store, KeyError, Outcome, returned, raised, or_raise, pending_apply, apply_failed,
  invalid_transition, invalid_relay_name, relay_unavailable, concurrent_modification, highest,
  first_or_zero, set_first, next_id, insert_key, relay_enabled, reserve_key_number, create_pending,
  update_key, mark_active, set_status, update_key_status, mark_revoked, mark_deleted,
  hard_delete_with_stats, update_note, update_payload, activated, moved, as_revoked, as_deleted,
  noted, repacked, any_row, in_statuses, is_open, is_kept, delete_if_unused,
}
use vpnbot.Keys.Lifecycle.{
  Statement, create, reserve, activate, transition, force, revoke, soft_delete, hard_delete,
  annotate, repack, drop_relay, execute, execute_all,
}

highest-put :
    (keys : Dict ℕ VpnKey) (id : ℕ) (key : VpnKey)
    → highest (put keys id key) ≤ max id (highest keys)
unfolding put
highest-put [] id key = ground arith
highest-put ((j, k) ∷ keys) id key = ground (arith, highest-put keys id key)

highest-remove : (keys : Dict ℕ VpnKey) (id : ℕ) → highest (remove keys id) ≤ highest keys
unfolding remove
highest-remove [] id = ground arith
highest-remove ((j, k) ∷ keys) id = ground (arith, highest-remove keys id)

pub highest-get :
    (keys : Dict ℕ VpnKey) (id : ℕ) (key : VpnKey) → get keys id ≡ some key → id ≤ highest keys
unfolding get
highest-get [] id key e = ground arith
highest-get ((j, k) ∷ keys) id key e = ground (arith, highest-get keys id key)

-- The counter of AUTOINCREMENT has reached every id, and `n`.
abbrev pub Counted : ℕ → Store → Type 0
Counted n s = (highest s.keys ≤ first_or_zero s.sequence) × (n ≤ first_or_zero s.sequence)

first-set : (m : ℕ) (ns : List ℕ) → first_or_zero (set_first m ns) ≡ m
first-set m [] = refl
first-set m (n ∷ ns) = refl

first-reserve :
    (m : ℕ) (ns : List ℕ)
    → m ≤ first_or_zero ns
    → first_or_zero (map suc (ns ++ m ∷ [])) ≡ suc (first_or_zero ns)
first-reserve m [] h = omega arith
first-reserve m (n ∷ ns) h = refl

module _ (n : ℕ) (s : Store) (h : Counted n s) where
  update_key-Counted :
      (id : ℕ) (test : VpnKey → Bool) (change : VpnKey → VpnKey)
      → Counted n (update_key id test change s).1
  unfolding update_key
  update_key-Counted id test change = elim (Option-cases (get s.keys id)) [
    | inl e ↦ rw e h
    | inr (key, e) ↦ elim (Bool-cases (test key)) [
      | inr e' ↦ rw (e, e') h
      | inl e' ↦
          rw (e, e')
            (omega (arith, h, highest-put s.keys id (change key), highest-get s.keys id key e), h.1)
    ]
  ]

  insert_key-Counted : (key : VpnKey) → Counted n (insert_key key s).1
  insert_key-Counted key =
      let row = record key { id = next_id s; status = pending_apply } in
      rw (first-set (next_id s) s.sequence)
        (omega (arith, highest-put s.keys (next_id s) row), omega (arith, h))

  create_pending-Counted :
      (well_formed : String → Bool) (key : VpnKey) (relay : Option String)
      → Counted n (create_pending well_formed key relay s).1
  unfolding create_pending
  create_pending-Counted well_formed key none = insert_key-Counted (record key { relay = none })
  create_pending-Counted well_formed key (some relay) = elim (Bool-cases (well_formed relay)) [
    | inr e ↦ rw e h
    | inl e ↦ elim (Bool-cases (relay_enabled relay s.relays)) [
      | inr e' ↦ rw (e, e') h
      | inl e' ↦ rw (e, e') (insert_key-Counted (record key { relay = some relay }))
    ]
  ]

  reserve_key_number-Counted : Counted n (reserve_key_number s).1
  unfolding reserve_key_number
  reserve_key_number-Counted =
      rw (first-reserve (highest s.keys) s.sequence h.0) (omega (arith, h), omega (arith, h))

  or_raise-Counted : (e : KeyError) (p : Bool × Store) → Counted n p.1 → Counted n (or_raise e p).1
  or_raise-Counted e (true, after) g = g
  or_raise-Counted e (false, after) g = g

  mark_active-Counted :
      (id now : ℕ) (payload public_payload : Option String)
      → Counted n (mark_active id now payload public_payload s).1
  unfolding mark_active
  mark_active-Counted id now payload public_payload = elim (Option-cases (get s.keys id)) [
    | inl e ↦ rw e h
    | inr (key, e) ↦ rw e (
        update_key-Counted id (in_statuses (pending_apply ∷ apply_failed ∷ []))
          (activated now payload public_payload))
  ]

  delete_if_unused-Counted : (id : ℕ) → Counted n (delete_if_unused id s).1
  unfolding delete_if_unused
  delete_if_unused-Counted id = ground arith

  execute-Counted :
      (well_formed : String → Bool) (statement : Statement)
      → Counted n (execute well_formed statement s)
  unfolding execute update_key_status set_status mark_revoked mark_deleted update_note
      update_payload hard_delete_with_stats
  execute-Counted well_formed (create key relay) = create_pending-Counted well_formed key relay
  execute-Counted well_formed reserve = reserve_key_number-Counted
  execute-Counted well_formed (activate id now payload public_payload) =
      mark_active-Counted id now payload public_payload
  execute-Counted well_formed (transition id status now allowed others) =
      or_raise-Counted concurrent_modification
        (update_key id (in_statuses (allowed ∷ others)) (moved status now) s)
        (update_key-Counted id (in_statuses (allowed ∷ others)) (moved status now))
  execute-Counted well_formed (force id status now) =
      update_key-Counted id any_row (moved status now)
  execute-Counted well_formed (revoke id actor now) =
      or_raise-Counted invalid_transition (update_key id is_open (as_revoked actor now) s)
        (update_key-Counted id is_open (as_revoked actor now))
  execute-Counted well_formed (soft_delete id actor now) =
      or_raise-Counted invalid_transition (update_key id is_kept (as_deleted actor now) s)
        (update_key-Counted id is_kept (as_deleted actor now))
  execute-Counted well_formed (hard_delete id now) =
      (omega (arith, h, highest-remove s.keys id), h.1)
  execute-Counted well_formed (annotate id text now) =
      update_key-Counted id any_row (noted text now)
  execute-Counted well_formed (repack id payload public_payload now) =
      update_key-Counted id any_row (repacked payload public_payload now)
  execute-Counted well_formed (drop_relay id) = delete_if_unused-Counted id

raised≢returned : (e : KeyError) (row : VpnKey) → raised e ≡ returned row → ⊥
raised≢returned e row h = cc

abbrev row_id : Outcome VpnKey → ℕ
row_id (returned row) = row.id
row_id (raised e) = 0

inserted-id :
    (formed enabled : Bool) (key row : VpnKey) (s : Store)
    → (if not formed
        then (raised invalid_relay_name, s)
        else if not enabled
        then (raised relay_unavailable, s)
        else insert_key key s).0
      ≡ returned row
    → row.id ≡ next_id s
inserted-id false enabled key row s e = absurd (raised≢returned invalid_relay_name row e)
inserted-id true false key row s e = absurd (raised≢returned relay_unavailable row e)
inserted-id true true key row s e = sym (ap row_id e)

module _ (well_formed : String → Bool) where
  execute_all-Counted :
      (n : ℕ) (statements : List Statement) (s : Store)
      → Counted n s
      → Counted n (execute_all well_formed statements s)
  unfolding execute_all
  execute_all-Counted n [] s h = h
  execute_all-Counted n (statement ∷ statements) s h =
      execute_all-Counted n statements (execute well_formed statement s)
        (execute-Counted n s h well_formed statement)

  created-id :
      (key : VpnKey) (relay : Option String) (row : VpnKey) (s : Store)
      → (create_pending well_formed key relay s).0 ≡ returned row
      → row.id ≡ next_id s
  unfolding create_pending
  created-id key none row s e = sym (ap row_id e)
  created-id key (some relay) row s e =
      inserted-id (well_formed relay) (relay_enabled relay s.relays)
        (record key { relay = some relay }) row s e

  -- A number that is reserved for a bundle, from a table whose counter has reached every id, is
  -- given to no key afterwards: whatever statements come between, a key that is created then has a
  -- larger id.
  pub reserve_key_number-fresh :
      (statements : List Statement) (s : Store)
      → highest s.keys ≤ first_or_zero s.sequence
      → (key : VpnKey) (relay : Option String) (row : VpnKey)
      → (create_pending well_formed key relay
          (execute_all well_formed statements (reserve_key_number s).1)).0
        ≡ returned row
      → (reserve_key_number s).0 < row.id
  unfolding reserve_key_number
  reserve_key_number-fresh statements s h key relay row e =
      let n = (reserve_key_number s).0 in
      let first : n ≡ suc (first_or_zero s.sequence) =
        first-reserve (highest s.keys) s.sequence h in
      let start : Counted n (reserve_key_number s).1 = (omega (arith, first, h), omega arith) in
      let after = execute_all well_formed statements (reserve_key_number s).1 in
      let counted = execute_all-Counted n statements (reserve_key_number s).1 start in
      let given = created-id key relay row after e in omega (arith, counted, given)
