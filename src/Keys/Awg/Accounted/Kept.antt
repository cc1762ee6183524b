-- ===== src/Keys/Awg/Accounted/Kept.antt =====
-- The steps that keep every access accounted for.
use vpnbot.Prelude.{
  ℕ, ◌≡◌, refl, sym, String, Bool, true, false, [], ◌∷◌, Option, none, some, get, nat_eq, arith,
}
use std.Path.{subst}
use vpnbot.Keys.Store.{
  VpnKey, VpnKeyStatus, is_in, any_row, moved, activated, update_key, set_status, mark_active,
  mark_active_found, in_statuses, pending_apply, apply_failed,
}
use vpnbot.Keys.Awg.{
  Server, Refusal, Reply, given, refused, Step, continue, ◌>>=◌, ◌>>◌, or_refuse, handled,
  statement, refuse_if, access_may_exist, Texts, stored_key,
}
use vpnbot.Keys.Awg.Service.{set_key_status, lookup}
use vpnbot.Keys.Awg.Accounted.{has_access, IsAccounted, HasRow, Keeps, update_key-HasRow}
use vpnbot.Keys.Awg.Accounted.Withdrawn.{IsFewer}

module _ (t : Texts) where
  abbrev pub IsKept : {A : Type 0} → Step A → Type 0
  IsKept m = (s : Server) → IsAccounted t s → IsAccounted t (m s).1

  pub continue-IsKept :
      {A B : Type 0} (r : Reply A) (f : A → Step B) (s : Server)
      → ((a : A) → IsKept (f a))
      → IsAccounted t s
      → IsAccounted t (continue r f s).1
  continue-IsKept (given a) f s kept h = kept a s h
  continue-IsKept (refused e) f s kept h = h

  pub bind-IsKept :
      {A B : Type 0} (m : Step A) (f : A → Step B)
      → IsKept m
      → ((a : A) → IsKept (f a))
      → IsKept (m >>= f)
  bind-IsKept m f km kf s h = continue-IsKept (m s).0 f (m s).1 kf (km s h)

  -- A test before a step, whose outcome the step may use.
  pub refuse_if-IsAccounted :
      {B : Type 0} (c : Bool) (e : Refusal) (k : Step B) (s : Server)
      → (c ≡ false → IsAccounted t (k s).1)
      → IsAccounted t s
      → IsAccounted t ((refuse_if c e >> k) s).1
  refuse_if-IsAccounted true e k s kept h = h
  refuse_if-IsAccounted false e k s kept h = kept refl

  pub or_refuse-IsKept :
      {A B : Type 0} (o : Option A) (e : Refusal) (f : A → Step B) (s : Server)
      → ((a : A) → o ≡ some a → IsAccounted t (f a s).1)
      → IsAccounted t s
      → IsAccounted t ((or_refuse o e >>= f) s).1
  or_refuse-IsKept none e f s kept h = h
  or_refuse-IsKept (some a) e f s kept h = kept a refl

  pub lookup-IsKept : (id : ℕ) → IsKept (lookup id)
  lookup-IsKept id s h = or_refuse_alone (get s.store.keys id)
    where
      or_refuse_alone : (o : Option VpnKey) → IsAccounted t (or_refuse o Refusal.key_not_found s).1
      or_refuse_alone none = h
      or_refuse_alone (some key) = h

  pub handled-IsKept :
      {A : Type 0} (handler : Step (Unit {0})) (r : Reply A) (s : Server)
      → IsKept handler
      → IsAccounted t s
      → IsAccounted t (handled handler (r, s)).1
  handled-IsKept handler (given a) s kept h = h
  handled-IsKept handler (refused e) s kept h = kept s h

  -- Fewer accesses, over the same rows.
  pub fewer-IsAccounted :
      (before after : Server)
      → IsFewer before after
      → after.store ≡ before.store
      → IsAccounted t before
      → IsAccounted t after
  fewer-IsAccounted before after fewer same h public_key access =
      let known = h public_key (fewer public_key access) in
      (known.0, subst (λ store. HasRow t store.keys public_key) (sym same) known.1)

  -- An update of a row that keeps it a holder of whatever has access.
  pub update-IsAccounted :
      (id : ℕ) (test : VpnKey → Bool) (change : VpnKey → VpnKey) (s : Server)
      → ((public_key : String)
          → has_access s public_key ≡ true
          → Keeps t s.store.keys id change public_key)
      → IsAccounted t s
      → IsAccounted t (record s { store = (update_key id test change s.store).1 })
  update-IsAccounted id test change s keeps h public_key access =
      let known = h public_key access in
      (
        known.0,
        update_key-HasRow t id test change s.store public_key (keeps public_key access) known.1,
      )

  pub set_key_status-IsKept :
      (id : ℕ) (status : VpnKeyStatus) (now : ℕ)
      → is_in access_may_exist status ≡ true
      → IsKept (set_key_status id status now)
  unfolding set_status
  set_key_status-IsKept id status now may s h =
      update-IsAccounted id any_row (moved status now) s
        (λ public_key access row e holder. ground (arith, holder, may)) h

  -- The payload is kept, or another that tells of the same public key.
  abbrev pub IsSameKey : ℕ → Option String → Option String → ℕ → Server → Type 0
  IsSameKey now payload public_payload id s =
      (row : VpnKey)
      → get s.store.keys id ≡ some row
      → stored_key t (activated now payload public_payload row) ≡ stored_key t row

  mark_active_found-IsAccounted :
      (id now : ℕ) (payload public_payload : Option String) (found : Option VpnKey) (s : Server)
      → IsSameKey now payload public_payload id s
      → IsAccounted t s
      → IsAccounted t (statement (mark_active_found id now payload public_payload found) s).1
  mark_active_found-IsAccounted id now payload public_payload none s same h = h
  mark_active_found-IsAccounted id now payload public_payload (some current) s same h =
      update-IsAccounted id (in_statuses (pending_apply ∷ apply_failed ∷ []))
        (activated now payload public_payload) s
        (λ public_key access row e holder. ground (arith, holder, same row e)) h

  pub mark_active-IsAccounted :
      (id now : ℕ) (payload public_payload : Option String) (s : Server)
      → IsSameKey now payload public_payload id s
      → IsAccounted t s
      → IsAccounted t (statement (mark_active id now payload public_payload) s).1
  unfolding mark_active
  mark_active-IsAccounted id now payload public_payload s same h =
      mark_active_found-IsAccounted id now payload public_payload (get s.store.keys id) s same h
