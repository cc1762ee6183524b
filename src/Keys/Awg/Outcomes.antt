-- ===== src/Keys/Awg/Outcomes.antt =====
-- What a revocation and a failed issue leave (services/awg.py).
use vpnbot.Prelude.{
  ℕ, ◌≡◌, refl, sym, ap, ◌∙◌, String, Bool, true, false, [], ◌∷◌, Option, none, some, get, put,
  get-put_self, nat_eq, is_some, any, str_eq, arith, Bool-cases, inl, inr,
}
use std.Path.{subst}
use mathlib.Core.Option.{none-ne-some, some-injective}
use vpnbot.Backends.Health
use vpnbot.Backends.Health.{require_mutation_allowed, mark_degraded, is_uninstalled}
use vpnbot.Keys.Store.{
  VpnKey, VpnKeyStatus, pending_revoke, revoked, deleted, apply_failed, is_in, moved, as_revoked,
  any_row, is_open, update_key, update_found, set_status, mark_revoked,
}
use vpnbot.Keys.Awg.{
  Server, Peer, Reply, given, refused, adapter_failed, database_failed, Step, continue, handled,
  or_handle, statement, Refusal, ◌>>=◌, ◌>>◌, Removed, removed, not_removed, added, remove_peer,
  add_peer, may_exist, Texts,
}
use vpnbot.Keys.Awg.Permission.{ensure_can_create, passes}
use vpnbot.Keys.Awg.Service.{set_key_status, lookup, key_to_remove, remove_awg_access, revoke_found}
use vpnbot.Keys.Awg.Issuing.{Issue, compensate, compensated, apply_key}
use vpnbot.Keys.Awg.Accounted.{has_access}
use vpnbot.Keys.Awg.Accounted.Withdrawn.{remove_peer-IsWithdrawn}

module _ {A B : Type 0} where
  bind_given :
      (m : Step A) (f : A → Step B) (s after : Server) (a : A)
      → m s ≡ (given a, after)
      → (m >>= f) s ≡ f a after
  bind_given m f s after a e = ap (λ r. continue r.0 f r.1) e

  bind_refused :
      (m : Step A) (f : A → Step B) (s after : Server) (why : Refusal)
      → m s ≡ (refused why, after)
      → (m >>= f) s ≡ (refused why, after)
  bind_refused m f s after why e = ap (λ r. continue r.0 f r.1) e

module _ {A : Type 0} where
  or_handle_given :
      (m : Step A) (handler : Step (Unit {0})) (s after : Server) (a : A)
      → m s ≡ (given a, after)
      → or_handle m handler s ≡ (given a, after)
  or_handle_given m handler s after a e = ap (handled handler) e

  or_handle_refused :
      (m : Step A) (handler : Step (Unit {0})) (s after last : Server) (why : Refusal)
      → m s ≡ (refused why, after)
      → (handler after).1 ≡ last
      → or_handle m handler s ≡ (refused why, last)
  or_handle_refused m handler s after last why e f =
      ap (handled handler) e ∙ ap (λ x. (refused why, x)) f

-- The server with this row.
abbrev with_row : ℕ → VpnKey → Server → Server
with_row id row s = record s { store = record s.store { keys = put s.store.keys id row } }

set_key_status_row :
    (id : ℕ) (status : VpnKeyStatus) (now : ℕ) (row : VpnKey) (s : Server)
    → get s.store.keys id ≡ some row
    → set_key_status id status now s ≡ (given tt, with_row id (moved status now row) s)
unfolding set_status update_key
set_key_status_row id status now row s found = rw found refl

mark_revoked_row :
    (id actor now : ℕ) (row : VpnKey) (s : Server)
    → get s.store.keys id ≡ some row
    → is_open row ≡ true
    → statement (mark_revoked id actor now) s ≡ (given tt, with_row id (as_revoked actor now row) s)
unfolding mark_revoked update_key
mark_revoked_row id actor now row s found kept = rw found (rw kept refl)

lookup_row :
    (id : ℕ) (row : VpnKey) (s : Server)
    → get s.store.keys id ≡ some row
    → lookup id s ≡ (given row, s)
lookup_row id row s found = rw found refl

module _ (t : Texts) (id actor now : ℕ) (key : VpnKey) where
  abbrev pub pending : VpnKey
  pending = moved pending_revoke now key

  -- The key is revoked and without access, or back in its status.
  abbrev pub IsRevoked : Removed → Server → Reply VpnKey × Server → Type 0
  IsRevoked removed s r =
      (r.0 ≡ given (as_revoked actor now pending))
      × (get r.1.store.keys id ≡ some (as_revoked actor now pending))
      × (has_access r.1 (key_to_remove t key s.config) ≡ false)
  IsRevoked (not_removed of_config of_runtime) s r =
      (r.0 ≡ refused adapter_failed) × (get r.1.store.keys id ≡ some (moved key.status now pending))

  -- Where the row is pending.
  abbrev begun : Server → Server
  begun s = with_row id pending s

  revoke_begun :
      (answer : Removed) (s : Server)
      → get s.store.keys id ≡ some key
      → may_exist key ≡ true
      → revoke_found t id actor answer now key s
        ≡ (or_handle (remove_awg_access t answer key) (set_key_status id key.status now)
              >> (statement (mark_revoked id actor now) >> lookup id))
            (begun s)
  unfolding revoke_found
  revoke_begun answer s found may =
      let open_status : is_in (revoked ∷ deleted ∷ []) key.status ≡ false = ground (arith, may) in
      simp (open_status, may)
        (bind_given (set_key_status id pending_revoke now)
          (λ _.
            or_handle (remove_awg_access t answer key) (set_key_status id key.status now)
            >> (statement (mark_revoked id actor now) >> lookup id))
          s (begun s) tt (set_key_status_row id pending_revoke now key s found))

  remove_awg_access_filled :
      (answer : Removed) (s : Server)
      → str_eq (key_to_remove t key s.config) "" ≡ false
      → remove_awg_access t answer key s
        ≡ remove_peer answer key.id (key_to_remove t key s.config) s
  unfolding remove_awg_access
  remove_awg_access_filled answer s filled = rw filled refl

  -- A revocation of a key that may have access, and whose public key is known, ends: when the
  -- adapter has removed the peer, with the row revoked and no access left for the public key, and
  -- when it raises, with the row back in the status that it had.
  pub revoke_found-IsRevoked :
      (answer : Removed) (s : Server)
      → get s.store.keys id ≡ some key
      → may_exist key ≡ true
      → str_eq (key_to_remove t key s.config) "" ≡ false
      → IsRevoked answer s (revoke_found t id actor answer now key s)
  unfolding remove_peer
  revoke_found-IsRevoked removed s found may filled =
      let s1 = begun s in
      let public_key = key_to_remove t key s.config in
      let s2 = (remove_peer removed key.id public_key s1).1 in
      let row = as_revoked actor now pending in
      let last = with_row id row s2 in
      let handler = set_key_status id key.status now in
      let ends =
        revoke_begun removed s found may
        ∙ bind_given (or_handle (remove_awg_access t removed key) handler)
            (λ _. statement (mark_revoked id actor now) >> lookup id) s1 s2 tt
            (or_handle_given (remove_awg_access t removed key) handler s1 s2 tt
              (remove_awg_access_filled removed s1 filled))
        ∙ bind_given (statement (mark_revoked id actor now)) (λ _. lookup id) s2 last tt
            (mark_revoked_row id actor now pending s2 (get-put_self s.store.keys id pending) refl)
        ∙ lookup_row id row last (get-put_self s2.store.keys id row) in
      subst (IsRevoked removed s) (sym ends) (
        refl,
        get-put_self s2.store.keys id row,
        (remove_peer-IsWithdrawn removed key.id public_key s1).2,
      )
  revoke_found-IsRevoked (not_removed of_config of_runtime) s found may filled =
      let s1 = begun s in
      let public_key = key_to_remove t key s.config in
      let answer = not_removed of_config of_runtime in
      let s2 = (remove_peer answer key.id public_key s1).1 in
      let row = moved key.status now pending in
      let last = with_row id row s2 in
      let handler = set_key_status id key.status now in
      let ends =
        revoke_begun answer s found may
        ∙ bind_refused (or_handle (remove_awg_access t answer key) handler)
            (λ _. statement (mark_revoked id actor now) >> lookup id) s1 last adapter_failed
            (or_handle_refused (remove_awg_access t answer key) handler s1 s2 last adapter_failed
              (remove_awg_access_filled answer s1 filled)
              (ap (λ r. r.1)
                (set_key_status_row id key.status now pending s2
                  (get-put_self s.store.keys id pending)))) in
      subst (IsRevoked answer s) (sym ends) (refl, get-put_self s2.store.keys id row)

-- What is left of a peer whose row could not be made active.
abbrev pub IsCompensated : ℕ → String → Removed → Bool → Server → Type 0
IsCompensated id public_key removed true after = has_access after public_key ≡ false
IsCompensated id public_key removed false after =
    (has_access after public_key ≡ false)
    × ((row : VpnKey) → get after.store.keys id ≡ some row → row.status ≡ apply_failed)
IsCompensated id public_key (not_removed of_config of_runtime) _ after =
    is_some (require_mutation_allowed Health.awg after.health) ≡ true

blocked_after :
    (h : Health.BackendHealth) (reason : String)
    → is_some (require_mutation_allowed Health.awg (mark_degraded Health.awg reason h)) ≡ true
unfolding require_mutation_allowed mark_degraded is_uninstalled
blocked_after h reason = elim (Bool-cases (any (Health.backend_eqb Health.awg) h.uninstalled)) [
  | inl e ↦ simp e refl
  | inr e ↦ simp (e, get-put_self) refl
]

corrected :
    (id now : ℕ) (found : Option VpnKey) (s : Server)
    → get s.store.keys id ≡ found
    → (row : VpnKey)
    → get (update_found id any_row (moved apply_failed now) found s.store).1.keys id ≡ some row
    → row.status ≡ apply_failed
corrected id now none s e row there = absurd (none-ne-some row (sym e ∙ there))
corrected id now (some old) s e row there = sym (
    ap (λ x. x.status)
      (some-injective _ _
        (sym (get-put_self s.store.keys id (moved apply_failed now old)) ∙ there)))

compensated-IsCompensated :
    (answer : Removed) (fails : Bool) (id now : ℕ) (public_key : String) (s : Server)
    → IsCompensated id public_key answer fails
        (compensated fails now id (remove_peer answer id public_key s)).1
unfolding remove_peer set_status update_key
compensated-IsCompensated removed true id now public_key s =
    (remove_peer-IsWithdrawn removed id public_key s).2
compensated-IsCompensated removed false id now public_key s = (
  (remove_peer-IsWithdrawn removed id public_key s).2,
  corrected id now (get s.store.keys id) s refl,
)
compensated-IsCompensated (not_removed of_config of_runtime) _ id now public_key s =
    blocked_after s.health "post-apply mark_active failed and compensation failed"

-- A key whose peer was added and whose row then could not be made active is refused, and either
-- its public key has no access any more, with the row marked as failed if the database takes it,
-- or the backend refuses every further change.
pub apply_key-IsCompensated :
    (run : Issue) (client_ip public_key : String) (id : ℕ) (s : Server)
    → passes (ensure_can_create run.actor run.owner run.allow_pending_owner run.apply_world) ≡ true
    → run.add ≡ added
    → run.activation_fails ≡ true
    → ((apply_key run client_ip public_key id s).0 ≡ refused database_failed)
      × IsCompensated id public_key run.compensation run.correction_fails
          (apply_key run client_ip public_key id s).1
unfolding apply_key compensate add_peer
apply_key-IsCompensated run client_ip public_key id s may put_in fails =
    let peer : Peer = record { key_id = some id; public_key = public_key; client_ip = client_ip } in
    rw (may, put_in, fails)
      (
        refl,
        compensated-IsCompensated run.compensation run.correction_fails id run.now public_key
            (add_peer added peer s).1,
      )
