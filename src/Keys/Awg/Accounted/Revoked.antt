-- ===== src/Keys/Awg/Accounted/Revoked.antt =====
-- Revoking, deleting and reconciling keep every access accounted for (services/awg.py).
use vpnbot.Prelude.{
  ℕ, ◌≡◌, refl, sym, ap, ◌∙◌, String, Bool, true, false, false≢true, not, List, [], ◌∷◌, Option,
  none, some, get, get-put_self, nat_eq, str_eq, eq_iff, arith, Bool-cases, inl, inr,
}
use std.Path.{subst}
use mathlib.Core.Option.{some-injective}
use vpnbot.Keys.Store.{
  VpnKey, VpnKeyStatus, pending_revoke, revoked, deleted, Store, KeyError, invalid_transition,
  or_raise, is_in, any_row, moved, is_open, as_revoked, update_key, update_found, set_status,
  mark_revoked,
}
use vpnbot.Keys.Awg.{
  Peer, Server, Refusal, Reply, given, refused, Step, continue, ◌>>◌, or_handle, handled,
  of_outcome, statement, Removed, remove_peer, may_exist, Texts, stored_key,
}
use vpnbot.Keys.Awg.Service.{
  set_key_status, lookup, key_to_remove, remove_awg_access, revoke_found, hard_delete,
}
use vpnbot.Keys.Awg.Accounted.{has_access, IsAccounted, IsFree, hard_delete-HasRow}
use vpnbot.Keys.Awg.Accounted.Withdrawn.{IsFewer, IsWithdrawn, remove_peer-IsWithdrawn}
use vpnbot.Keys.Awg.Accounted.Kept.{
  IsKept, continue-IsKept, refuse_if-IsAccounted, lookup-IsKept, fewer-IsAccounted,
  update-IsAccounted, set_key_status-IsKept,
}

module _ (t : Texts) where
  -- What a removal of a key's access ends in: when it does not raise, the row's public key has no
  -- access.
  abbrev pub IsTaken : VpnKey → Server → Reply (Unit {0}) × Server → Type 0
  IsTaken key before (given a, after) =
      IsFewer before after
      × (after.store ≡ before.store)
      × ((public_key : String)
          → has_access after public_key ≡ true
          → str_eq public_key "" ≡ false
          → str_eq (stored_key t key) public_key ≡ false)
  IsTaken key before (refused e, after) = IsFewer before after × (after.store ≡ before.store)

  absent :
      (key : VpnKey) (config : List Peer) (after : Server) (public_key : String)
      → has_access after (key_to_remove t key config) ≡ false
      → has_access after public_key ≡ true
      → str_eq public_key "" ≡ false
      → str_eq (stored_key t key) public_key ≡ false
  absent key config after public_key gone access filled =
      elim (Bool-cases (str_eq (stored_key t key) public_key)) [
        | inr differ ↦ differ
        | inl same ↦
            let e : stored_key t key ≡ public_key = (eq_iff (stored_key t key) public_key).0 same in
            let ne : str_eq (stored_key t key) "" ≡ false = ap (λ x. str_eq x "") e ∙ filled in
            let taken : key_to_remove t key config ≡ public_key = rw ne e in
            let lost = subst (λ x. has_access after x ≡ false) taken gone in
            absurd (false≢true (sym lost ∙ access))
      ]

  remove_peer-IsTaken :
      (key : VpnKey) (s : Server) (r : Reply (Unit {0}) × Server)
      → IsWithdrawn (key_to_remove t key s.config) s r
      → IsTaken key s r
  remove_peer-IsTaken key s (given a, after) (fewer, same, gone) = (
    fewer,
    same,
    λ public_key access filled. absent key s.config after public_key gone access filled,
  )
  remove_peer-IsTaken key s (refused e, after) h = h

  pub remove_awg_access-IsTaken :
      (answer : Removed) (key : VpnKey) (s : Server)
      → IsTaken key s (remove_awg_access t answer key s)
  unfolding remove_awg_access
  remove_awg_access-IsTaken answer key s =
      elim (Bool-cases (str_eq (key_to_remove t key s.config) "")) [
        | inl e ↦ rw e (λ public_key h. h, refl)
        | inr e ↦ rw e (
            remove_peer-IsTaken key s (remove_peer answer key.id (key_to_remove t key s.config) s)
              (remove_peer-IsWithdrawn answer key.id (key_to_remove t key s.config) s))
      ]

  -- The row that is there, if any, tells of the public key of this one.
  abbrev pub IsKeyOf : ℕ → VpnKey → Server → Type 0
  IsKeyOf id key s =
      (row : VpnKey) → get s.store.keys id ≡ some row → stored_key t row ≡ stored_key t key

  pub moved-IsKeyOf :
      (id : ℕ) (status : VpnKeyStatus) (now : ℕ) (key : VpnKey) (s : Server)
      → IsKeyOf id key s
      → IsKeyOf id key (set_key_status id status now s).1
  unfolding set_status update_key
  moved-IsKeyOf id status now key s h = moved_found (get s.store.keys id) refl
    where
      moved_found :
          (found : Option VpnKey)
          → get s.store.keys id ≡ found
          → (row : VpnKey)
          → get (update_found id any_row (moved status now) found s.store).1.keys id ≡ some row
          → stored_key t row ≡ stored_key t key
      moved_found none e row there = h row there
      moved_found (some old) e row there =
          let same : some (moved status now old) ≡ some row =
            sym (get-put_self s.store.keys id (moved status now old)) ∙ there in
          sym (ap (stored_key t) (some-injective _ _ same)) ∙ h old e

  pub found-IsKeyOf :
      (id : ℕ) (key : VpnKey) (s : Server) → get s.store.keys id ≡ some key → IsKeyOf id key s
  found-IsKeyOf id key s found row e = ap (stored_key t) (some-injective _ _ (sym e ∙ found))

  unheld :
      (id : ℕ) (key : VpnKey) (s : Server) (public_key : String)
      → IsKeyOf id key s
      → str_eq (stored_key t key) public_key ≡ false
      → IsFree t s.store.keys id public_key
  unheld id key s public_key same differ row e =
      let named = ap (λ x. str_eq x public_key) (same row e) in ground (arith, named, differ)

  or_raise-server :
      (e : KeyError) (r : Bool × Store) (s : Server)
      → (of_outcome (or_raise e r) s).1 ≡ record s { store = r.1 }
  or_raise-server e (true, store) s = refl
  or_raise-server e (false, store) s = refl

  -- Nothing has access with the public key of the row.
  abbrev pub IsGone : VpnKey → Server → Type 0
  IsGone key s =
      (public_key : String)
      → has_access s public_key ≡ true
      → str_eq public_key "" ≡ false
      → str_eq (stored_key t key) public_key ≡ false

  gone-IsFree :
      (id : ℕ) (key : VpnKey) (s : Server) (public_key : String)
      → IsKeyOf id key s
      → IsGone key s
      → IsAccounted t s
      → has_access s public_key ≡ true
      → IsFree t s.store.keys id public_key
  gone-IsFree id key s public_key same gone h access =
      unheld id key s public_key same (gone public_key access (h public_key access).0)

  pub mark_revoked-IsAccounted :
      (id actor now : ℕ) (key : VpnKey) (s : Server)
      → IsKeyOf id key s
      → IsGone key s
      → IsAccounted t s
      → IsAccounted t (statement (mark_revoked id actor now) s).1
  unfolding mark_revoked
  mark_revoked-IsAccounted id actor now key s same gone h =
      subst (IsAccounted t)
        (sym (
          or_raise-server invalid_transition (update_key id is_open (as_revoked actor now) s.store)
            s))
        (update-IsAccounted t id is_open (as_revoked actor now) s
          (λ public_key access row e holder.
            ground (arith, gone-IsFree id key s public_key same gone h access row e, holder))
          h)

  pub hard_delete-IsAccounted :
      (id now : ℕ) (key : VpnKey) (s : Server)
      → IsKeyOf id key s
      → IsGone key s
      → IsAccounted t s
      → IsAccounted t (hard_delete t id now s).1
  hard_delete-IsAccounted id now key s same gone h public_key access =
      let known = h public_key access in
      (
        known.0,
        hard_delete-HasRow t id now s.store public_key
            (gone-IsFree id key s public_key same gone h access) known.1,
      )

  -- What follows a removal, with the handler for one that raises.
  pub after_taken :
      {A : Type 0} (id : ℕ) (key : VpnKey) (s : Server) (r : Reply (Unit {0}) × Server)
      (handler : Step (Unit {0})) (next : Step A)
      → IsAccounted t s
      → IsKeyOf id key s
      → IsTaken key s r
      → IsKept t handler
      → ((after : Server)
          → IsKeyOf id key after
          → IsGone key after
          → IsAccounted t after
          → IsAccounted t (next after).1)
      → IsAccounted t (continue (handled handler r).0 (λ _. next) (handled handler r).1).1
  after_taken id key s (given a, after) handler next h same (fewer, rows, gone) kept then_ =
      then_ after (subst (λ store. IsKeyOf id key (record s { store = store })) (sym rows) same)
        gone (fewer-IsAccounted t s after fewer rows h)
  after_taken id key s (refused e, after) handler next h same (fewer, rows) kept then_ =
      kept after (fewer-IsAccounted t s after fewer rows h)

  pub revoke_found-IsAccounted :
      (id actor : ℕ) (answer : Removed) (now : ℕ) (key : VpnKey) (s : Server)
      → get s.store.keys id ≡ some key
      → IsAccounted t s
      → IsAccounted t (revoke_found t id actor answer now key s).1
  unfolding revoke_found set_status
  revoke_found-IsAccounted id actor answer now key s found h =
      let s1 = (set_key_status id pending_revoke now s).1 in
      let r = remove_awg_access t answer key s1 in
      elim (Bool-cases (is_in (revoked ∷ deleted ∷ []) key.status)) [
        | inl e ↦ simp e h
        | inr e ↦ simp e (
            refuse_if-IsAccounted t (not (may_exist key)) Refusal.wrong_status
              (set_key_status id pending_revoke now
                >> (or_handle (remove_awg_access t answer key) (set_key_status id key.status now)
                    >> (statement (mark_revoked id actor now) >> lookup id)))
              s
              (λ may.
                after_taken id key s1 r (set_key_status id key.status now)
                  (statement (mark_revoked id actor now) >> lookup id)
                  (set_key_status-IsKept t id pending_revoke now refl s h)
                  (moved-IsKeyOf id pending_revoke now key s (found-IsKeyOf id key s found))
                  (remove_awg_access-IsTaken answer key s1)
                  (set_key_status-IsKept t id key.status now ground (arith, may))
                  (λ after same gone h'.
                    let revoked_all = statement (mark_revoked id actor now) after in
                    continue-IsKept t revoked_all.0 (λ _. lookup id) revoked_all.1
                      (λ _. lookup-IsKept t id)
                      (mark_revoked-IsAccounted id actor now key after same gone h')))
              h)
      ]
