-- ===== src/Keys/Awg/Accounted.antt =====
-- Whoever has access on the AWG server has a row whose access may exist (services/awg.py).
pub mod Withdrawn
pub mod Kept
pub mod Revoked
pub mod Managed
pub mod Applied
pub mod Issued
pub mod Restarted
pub mod History
use vpnbot.Prelude.{
  ℕ, ◌≡◌, refl, sym, ap, ◌∙◌, String, Bool, true, false, not, ◌&&◌, ◌||◌, List, [], ◌∷◌, Option,
  none, some, Dict, get, put, remove, get-put_self, get-put_ne, get-remove_ne, nat_eq, any, keep,
  str_eq, eq_iff, ◌==◌, ==_iff, arith, if◌then◌else◌, Bool-cases, Option-cases, inl, inr,
}
use mathlib.Core.Option.{some-injective}
use vpnbot.Keys.Store.{
  VpnKey, VpnKeyStatus, Store, update_key, update_found, hard_delete_with_stats,
}
use vpnbot.Keys.Awg.{
  Peer, Server, is_managed, may_exist, Texts, stored_key, without_peer, without_runtime,
}

abbrev pub peer_access : List Peer → String → Bool
peer_access config public_key = any (λ peer. str_eq peer.public_key public_key) config

abbrev pub runtime_access : List String → String → Bool
runtime_access runtime public_key = any (λ other. str_eq other public_key) runtime

abbrev pub has_access : Server → String → Bool
has_access s public_key = peer_access s.config public_key || runtime_access s.runtime public_key

module _ (t : Texts) where
  -- The key's row, in a status in which its access may exist.
  abbrev pub holds : String → VpnKey → Bool
  holds public_key row = may_exist row && str_eq (stored_key t row) public_key

  abbrev pub HasRow : Dict ℕ VpnKey → String → Type 0
  HasRow keys public_key =
      (id : ℕ) × (row : VpnKey) × (get keys id ≡ some row) × (holds public_key row ≡ true)

  abbrev pub IsAccounted : Server → Type 0
  IsAccounted s =
      (public_key : String)
      → has_access s public_key ≡ true
      → (str_eq public_key "" ≡ false) × HasRow s.store.keys public_key

  -- A change of the row of one key that keeps it a holder, if it was one.
  abbrev pub Keeps : Dict ℕ VpnKey → ℕ → (VpnKey → VpnKey) → String → Type 0
  Keeps keys id change public_key =
      (row : VpnKey)
      → get keys id ≡ some row
      → holds public_key row ≡ true
      → holds public_key (change row) ≡ true

  put-HasRow :
      (keys : Dict ℕ VpnKey) (id : ℕ) (row : VpnKey) (change : VpnKey → VpnKey)
      (public_key : String)
      → get keys id ≡ some row
      → Keeps keys id change public_key
      → HasRow keys public_key
      → HasRow (put keys id (change row)) public_key
  put-HasRow keys id row change public_key e keeps (j, other, found, h) =
      elim (Bool-cases (id == j)) [
        | inl same ↦
            let e' : id ≡ j = (==_iff id j).0 same in
            let there : some row ≡ some other = cc (e, found, e') in
            (
              id,
              change row,
              get-put_self keys id (change row),
              keeps row e (rw (some-injective _ _ there) h),
            )
        | inr differ ↦ (j, other, get-put_ne keys id j (change row) differ ∙ found, h)
      ]

  update_found-HasRow :
      (id : ℕ) (test : VpnKey → Bool) (change : VpnKey → VpnKey) (found : Option VpnKey)
      (store : Store) (public_key : String)
      → get store.keys id ≡ found
      → Keeps store.keys id change public_key
      → HasRow store.keys public_key
      → HasRow (update_found id test change found store).1.keys public_key
  update_found-HasRow id test change none store public_key e keeps h = h
  update_found-HasRow id test change (some row) store public_key e keeps h =
      elim (Bool-cases (test row)) [
        | inl yes_it ↦ rw yes_it (put-HasRow store.keys id row change public_key e keeps h)
        | inr other ↦ rw other h
      ]

  pub update_key-HasRow :
      (id : ℕ) (test : VpnKey → Bool) (change : VpnKey → VpnKey) (store : Store)
      (public_key : String)
      → Keeps store.keys id change public_key
      → HasRow store.keys public_key
      → HasRow (update_key id test change store).1.keys public_key
  unfolding update_key
  update_key-HasRow id test change store public_key keeps h =
      update_found-HasRow id test change (get store.keys id) store public_key refl keeps h

  -- No row of the key holds the public key.
  abbrev pub IsFree : Dict ℕ VpnKey → ℕ → String → Type 0
  IsFree keys id public_key = (row : VpnKey) → get keys id ≡ some row → holds public_key row ≡ false

  pub hard_delete-HasRow :
      (id now : ℕ) (store : Store) (public_key : String)
      → IsFree store.keys id public_key
      → HasRow store.keys public_key
      → HasRow (hard_delete_with_stats id now store).keys public_key
  unfolding hard_delete_with_stats
  hard_delete-HasRow id now store public_key free (j, row, found, h) = elim (Bool-cases (id == j)) [
    | inl same ↦ ground (arith, free row (ap (get store.keys) ((==_iff id j).0 same) ∙ found), h)
    | inr differ ↦ (j, row, get-remove_ne store.keys id j differ ∙ found, h)
  ]
