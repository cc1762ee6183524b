-- ===== src/Keys/Awg/Accounted/Managed.antt =====
-- The calls of the service on a key that is there keep every access accounted for
-- (services/awg.py).
use vpnbot.Prelude.{
  ℕ, ◌≡◌, refl, sym, ap, ◌∙◌, String, Bool, true, false, false≢true, not, Option, none, some, Dict,
  get, remove, get-put_ne, get-remove_ne, nat_eq, ◌==◌, ==_iff, arith, Bool-cases, inl, inr,
}
use std.Path.{subst}
use mathlib.Core.Option.{some-injective}
use vpnbot.Access.Users.{require_approved_or_admin, require_superadmin}
use vpnbot.Backends.Health
use vpnbot.Backends.Health.{Blocked, require_mutation_allowed}
use vpnbot.Keys.Store.{
  VpnKey, VpnKeyStatus, apply_failed, pending_apply, pending_delete, delete_failed, Store, any_row,
  moved, update_found, update_key, set_status, hard_delete_with_stats,
}
use vpnbot.Keys.Awg.{
  Server, Refusal, Reply, given, refused, Step, continue, ◌>>=◌, ◌>>◌, give, or_refuse, or_handle,
  refuse_if, Removed, may_exist, is_awg, Texts,
}
use vpnbot.Keys.Awg.Permission.{may_manage, passes}
use vpnbot.Keys.Awg.Service.{
  set_key_status, lookup, allowed, Call, remove_awg_access, get_for_manage, revoke_found,
  revoke_awg_key, revoke_awg_key_system, revoker, remove_if, hard_delete, delete_awg_key, settle,
  peer_present, settle_key, reconcile_key_status,
}
use vpnbot.Keys.Awg.Accounted.{holds, IsAccounted, HasRow}
use vpnbot.Keys.Awg.Accounted.Kept.{
  IsKept, continue-IsKept, refuse_if-IsAccounted, lookup-IsKept, set_key_status-IsKept,
  mark_active-IsAccounted,
}
use vpnbot.Keys.Awg.Accounted.Revoked.{
  after_taken, remove_awg_access-IsTaken, moved-IsKeyOf, found-IsKeyOf, revoke_found-IsAccounted,
  hard_delete-IsAccounted,
}

-- A refusal leaves the server as it is, and a key that is found is that of the id.
abbrev IsFound : ℕ → Server → Reply VpnKey × Server → Type 0
IsFound id s (given key, after) = (after ≡ s) × (get s.store.keys id ≡ some key)
IsFound id s (refused e, after) = after ≡ s

refuse_if-IsFound :
    (id : ℕ) (c : Bool) (e : Refusal) (k : Step VpnKey) (s : Server)
    → IsFound id s (k s)
    → IsFound id s ((refuse_if c e >> k) s)
refuse_if-IsFound id true e k s h = refl
refuse_if-IsFound id false e k s h = h

lookup-IsFound :
    (id : ℕ) (found : Option VpnKey) (f : VpnKey → Step VpnKey) (s : Server)
    → get s.store.keys id ≡ found
    → ((key : VpnKey) → get s.store.keys id ≡ some key → IsFound id s (f key s))
    → IsFound id s ((or_refuse found Refusal.key_not_found >>= f) s)
lookup-IsFound id none f s e h = refl
lookup-IsFound id (some key) f s e h = h key e

module _ (t : Texts) where
  get_for_manage-IsFound :
      (call : Call) (id : ℕ) (s : Server) → IsFound id s (get_for_manage t call id s)
  get_for_manage-IsFound call id s =
      refuse_if-IsFound id (not (passes (require_approved_or_admin call.actor call.world)))
        Refusal.access_denied _ s
        (lookup-IsFound id (get s.store.keys id) _ s refl (λ key found.
          refuse_if-IsFound id (not (is_awg key.key_type)) Refusal.not_awg_key _ s (
            refuse_if-IsFound id (not (passes (may_manage call.actor key.owner_user_id call.world)))
              Refusal.access_denied (give key) s (refl, found))))

  found-IsAccounted :
      {A : Type 0} (id : ℕ) (s : Server) (r : Reply VpnKey × Server) (f : VpnKey → Step A)
      → IsFound id s r
      → ((key : VpnKey) → get s.store.keys id ≡ some key → IsAccounted t (f key s).1)
      → IsAccounted t s
      → IsAccounted t (continue r.0 f r.1).1
  found-IsAccounted id s (given key, after) f (same, found) kept h =
      subst (λ other. IsAccounted t (f key other).1) (sym same) (kept key found)
  found-IsAccounted id s (refused e, after) f same kept h = subst (IsAccounted t) (sym same) h

  pub allowed-IsAccounted :
      {A : Type 0} (blocked : Option Blocked) (k : Step A) (s : Server)
      → IsAccounted t (k s).1
      → IsAccounted t s
      → IsAccounted t (continue (allowed blocked s).0 (λ _. k) (allowed blocked s).1).1
  allowed-IsAccounted none k s kept h = kept
  allowed-IsAccounted (some reason) k s kept h = h

  pub revoke_awg_key-IsKept : (call : Call) (id : ℕ) → IsKept t (revoke_awg_key t call id)
  unfolding revoke_awg_key
  revoke_awg_key-IsKept call id s h =
      allowed-IsAccounted (require_mutation_allowed Health.awg s.health) _ s
        (found-IsAccounted id s (get_for_manage t call id s)
          (revoke_found t id call.actor call.remove call.now) (get_for_manage-IsFound call id s)
          (λ key found. revoke_found-IsAccounted t id call.actor call.remove call.now key s found h)
          h)
        h

  pub revoke_awg_key_system-IsKept :
      (actor : Option ℕ) (answer : Removed) (now id : ℕ)
      → IsKept t (revoke_awg_key_system t actor answer now id)
  unfolding revoke_awg_key_system
  revoke_awg_key_system-IsKept actor answer now id s h =
      allowed-IsAccounted (require_mutation_allowed Health.awg s.health) _ s
        (looked_up (get s.store.keys id) refl) h
    where
      looked_up :
          (found : Option VpnKey)
          → get s.store.keys id ≡ found
          → IsAccounted t
              ((or_refuse found Refusal.key_not_found >>= (λ key.
                  refuse_if (not (is_awg key.key_type)) Refusal.not_awg_key
                  >> revoke_found t id (revoker t actor key) answer now key))
                s).1
      looked_up none e = h
      looked_up (some key) e =
          refuse_if-IsAccounted t (not (is_awg key.key_type)) Refusal.not_awg_key
            (revoke_found t id (revoker t actor key) answer now key) s
            (λ is_one. revoke_found-IsAccounted t id (revoker t actor key) answer now key s e h) h

  elsewhere-HasRow :
      (keys other : Dict ℕ VpnKey) (id : ℕ) (public_key : String)
      → ((row : VpnKey) → get keys id ≡ some row → holds t public_key row ≡ false)
      → ((j : ℕ) → (id == j) ≡ false → get other j ≡ get keys j)
      → HasRow t keys public_key
      → HasRow t other public_key
  elsewhere-HasRow keys other id public_key free same (j, row, found, h) =
      elim (Bool-cases (id == j)) [
        | inl e ↦
            let none_here = free row (ap (get keys) ((==_iff id j).0 e) ∙ found) in
            absurd (false≢true (sym none_here ∙ h))
        | inr e ↦ (j, row, same j e ∙ found, h)
      ]

  moved-elsewhere :
      (id j now : ℕ) (found : Option VpnKey) (s : Store)
      → (id == j) ≡ false
      → get (update_found id any_row (moved pending_delete now) found s).1.keys j ≡ get s.keys j
  moved-elsewhere id j now none s e = refl
  moved-elsewhere id j now (some row) s e = get-put_ne s.keys id j (moved pending_delete now row) e

  -- The row of a key that cannot have access is deleted with no removal.
  idle-IsAccounted :
      (id now : ℕ) (key : VpnKey) (s : Server)
      → get s.store.keys id ≡ some key
      → may_exist key ≡ false
      → IsAccounted t s
      → IsAccounted t (hard_delete t id now (set_key_status id pending_delete now s).1).1
  unfolding set_status update_key hard_delete_with_stats
  idle-IsAccounted id now key s found idle h public_key access =
      let known = h public_key access in
      let moved_keys =
        (update_found id any_row (moved pending_delete now) (get s.store.keys id) s.store).1.keys in
      (
        known.0,
        elsewhere-HasRow s.store.keys (remove moved_keys id) id public_key
            (λ row e.
              let same = ap may_exist (some-injective _ _ (sym e ∙ found)) in
              ground (arith, same, idle))
            (λ j e.
              get-remove_ne moved_keys id j e
              ∙ moved-elsewhere id j now (get s.store.keys id) s.store e)
            known.1,
      )

  delete_found-IsAccounted :
      (id now : ℕ) (answer : Removed) (key : VpnKey) (s : Server)
      → get s.store.keys id ≡ some key
      → IsAccounted t s
      → IsAccounted t
          ((do
            set_key_status id pending_delete now
            or_handle (remove_if t (may_exist key) answer key) (set_key_status id delete_failed now)
            hard_delete t id now)
            s).1
  unfolding set_status
  delete_found-IsAccounted id now answer key s found h =
      let s1 = (set_key_status id pending_delete now s).1 in
      elim (Bool-cases (may_exist key)) [
        | inr e ↦ simp e (idle-IsAccounted id now key s found e h)
        | inl e ↦ simp e (
            after_taken t id key s1 (remove_awg_access t answer key s1)
              (set_key_status id delete_failed now) (hard_delete t id now)
              (set_key_status-IsKept t id pending_delete now refl s h)
              (moved-IsKeyOf t id pending_delete now key s (found-IsKeyOf t id key s found))
              (remove_awg_access-IsTaken t answer key s1)
              (set_key_status-IsKept t id delete_failed now refl)
              (λ after same gone h'. hard_delete-IsAccounted t id now key after same gone h'))
      ]

  pub delete_awg_key-IsKept : (call : Call) (id : ℕ) → IsKept t (delete_awg_key t call id)
  unfolding delete_awg_key
  delete_awg_key-IsKept call id s h =
      allowed-IsAccounted (require_mutation_allowed Health.awg s.health) _ s
        (found-IsAccounted id s (get_for_manage t call id s) _ (get_for_manage-IsFound call id s)
          (λ key found. delete_found-IsAccounted id call.now call.remove key s found h) h)
        h

  settle-IsKept :
      (present : Bool) (status : VpnKeyStatus) (id now : ℕ)
      → IsKept t (settle t present status id now)
  settle-IsKept true pending_apply id now s h =
      mark_active-IsAccounted t id now none none s (λ row e. refl) h
  settle-IsKept true apply_failed id now s h =
      mark_active-IsAccounted t id now none none s (λ row e. refl) h
  settle-IsKept false pending_apply id now s h =
      set_key_status-IsKept t id apply_failed now refl s h
  settle-IsKept _ _ id now s h = h

  settled-IsAccounted :
      (call : Call) (id : ℕ) (found : Option VpnKey) (s : Server)
      → IsAccounted t s
      → IsAccounted t
          ((or_refuse found Refusal.key_not_found >>= (λ key.
              refuse_if (not (is_awg key.key_type)) Refusal.not_awg_key
              >> (settle_key t call id key >> lookup id)))
            s).1
  settled-IsAccounted call id none s h = h
  settled-IsAccounted call id (some key) s h =
      refuse_if-IsAccounted t (not (is_awg key.key_type)) Refusal.not_awg_key
        (settle_key t call id key >> lookup id) s
        (λ is_one.
          let settled = settle_key t call id key s in
          continue-IsKept t settled.0 (λ _. lookup id) settled.1 (λ _. lookup-IsKept t id)
            (settle-IsKept (peer_present t key s) key.status id call.now s h))
        h

  pub reconcile_key_status-IsKept :
      (call : Call) (id : ℕ) → IsKept t (reconcile_key_status t call id)
  unfolding reconcile_key_status
  reconcile_key_status-IsKept call id s h =
      refuse_if-IsAccounted t (not (passes (require_superadmin call.actor call.world)))
        Refusal.access_denied _ s
        (λ ok.
          allowed-IsAccounted (require_mutation_allowed Health.awg s.health) _ s
            (settled-IsAccounted call id (get s.store.keys id) s h) h)
        h
