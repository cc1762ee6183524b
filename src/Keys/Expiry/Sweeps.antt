-- ===== src/Keys/Expiry/Sweeps.antt =====
-- Sweeps of expired keys (services/key_expiry.py).
use vpnbot.Prelude.{
  ℕ, zero, suc, ◌+◌, ◌≤◌, ◌≡◌, refl, Bool, ◌&&◌, ◌||◌, List, [], ◌∷◌, any, keep, take, length, ◌==◌,
  arith,
}
use vpnbot.Access.Requests.{clamp_limit}
use vpnbot.Keys.Store.{VpnKey, VpnKeyType, Store}
use vpnbot.Keys.Expiry.{
  rows, insert_by_expiry, by_expiry, is_expired, list_expired_active, Sweep, is_wired, revoke_key,
  revoke_each, revoke_expired_keys,
}

any-insert_by_expiry :
    (test : VpnKey → Bool) (key : VpnKey) (keys : List VpnKey)
    → any test (insert_by_expiry key keys) ≡ (test key || any test keys)
unfolding insert_by_expiry
any-insert_by_expiry test key [] = refl
any-insert_by_expiry test key (other ∷ keys) = ground (arith, any-insert_by_expiry test key keys)

pub any-by_expiry :
    (test : VpnKey → Bool) (keys : List VpnKey) → any test (by_expiry keys) ≡ any test keys
unfolding by_expiry
any-by_expiry test [] = refl
any-by_expiry test (key ∷ keys) =
    ground (arith, any-insert_by_expiry test key (by_expiry keys), any-by_expiry test keys)

length-insert_by_expiry :
    (key : VpnKey) (keys : List VpnKey) → length (insert_by_expiry key keys) ≡ suc (length keys)
unfolding insert_by_expiry
length-insert_by_expiry key [] = refl
length-insert_by_expiry key (other ∷ keys) = ground (arith, length-insert_by_expiry key keys)

length-by_expiry : (keys : List VpnKey) → length (by_expiry keys) ≡ length keys
unfolding by_expiry
length-by_expiry [] = refl
length-by_expiry (key ∷ keys) =
    omega (arith, length-insert_by_expiry key (by_expiry keys), length-by_expiry keys)

take_all : (n : ℕ) (keys : List VpnKey) → length keys ≤ n → take n keys ≡ keys
take_all zero [] h = refl
take_all zero (key ∷ keys) h = ground arith
take_all (suc n) [] h = refl
take_all (suc n) (key ∷ keys) h = ground (arith, take_all n keys)

pub any-keep :
    (test also : VpnKey → Bool) (keys : List VpnKey)
    → any also (keep test keys) ≡ any (λ k. test k && also k) keys
any-keep test also [] = refl
any-keep test also (key ∷ keys) = ground (arith, any-keep test also keys)

-- The keys that a sweep finds, if they are no more than it takes.
list_expired_active-all :
    (now : ℕ) (s : Store)
    → length (keep (is_expired now) (rows s.keys)) ≤ 100
    → list_expired_active now 100 s ≡ by_expiry (keep (is_expired now) (rows s.keys))
unfolding list_expired_active clamp_limit
list_expired_active-all now s fits =
    let found = keep (is_expired now) (rows s.keys) in
    take_all 100 (by_expiry found) omega (arith, fits, length-by_expiry found)

module _ {S : Type 0} (revoke : VpnKeyType → ℕ → S → Bool × S) (has_hysteria : Bool) where
  abbrev is_asked_for : ℕ → VpnKey → Bool
  is_asked_for id key = is_wired revoke has_hysteria key.key_type && (key.id == id)

  revoke_key_lem :
      (key : VpnKey) (sweep : Sweep S) (id : ℕ)
      → let s' = revoke_key revoke has_hysteria key sweep in
        (any (λ i. i == id) s'.asked ≡ (is_asked_for id key || any (λ i. i == id) sweep.asked))
        × (s'.count + s'.skipped ≡ suc (sweep.count + sweep.skipped))
  unfolding revoke_key
  revoke_key_lem key sweep id = ground arith

  revoke_each_lem :
      (keys : List VpnKey) (sweep : Sweep S) (id : ℕ)
      → let s' = revoke_each revoke has_hysteria keys sweep in
        (any (λ i. i == id) s'.asked
          ≡ (any (is_asked_for id) keys || any (λ i. i == id) sweep.asked))
        × (s'.count + s'.skipped ≡ length keys + (sweep.count + sweep.skipped))
  unfolding revoke_each
  revoke_each_lem [] sweep id = (refl, omega arith)
  revoke_each_lem (key ∷ keys) sweep id =
      let step = revoke_key_lem key sweep id in
      let rest = revoke_each_lem keys (revoke_key revoke has_hysteria key sweep) id in
      (ground (arith, step.0, rest.0), omega (arith, step.1, rest.1))

  -- If no more than a hundred active keys have expired, a sweep asks to revoke exactly those of
  -- them whose service is wired, whatever fails on the way, and each one that expired counts as
  -- revoked or as skipped.
  pub revoke_expired_keys_complete :
      (now : ℕ) (s : Store) (backend : S) (skipped id : ℕ)
      → length (keep (is_expired now) (rows s.keys)) ≤ 100
      → (any (λ i. i == id) (revoke_expired_keys revoke has_hysteria now s backend skipped).asked
          ≡ any
              (λ k. is_expired now k && (is_wired revoke has_hysteria k.key_type && (k.id == id)))
              (rows s.keys))
        × ((revoke_expired_keys revoke has_hysteria now s backend skipped).count
              + (revoke_expired_keys revoke has_hysteria now s backend skipped).skipped
            ≡ length (keep (is_expired now) (rows s.keys)) + skipped)
  unfolding revoke_expired_keys
  revoke_expired_keys_complete now s backend skipped id fits =
      let found = keep (is_expired now) (rows s.keys) in
      let start : Sweep S = record {
        backend = backend;
        asked = [];
        count = 0;
        skipped = skipped;
      } in
      let all = revoke_each_lem (by_expiry found) start id in
      rw (list_expired_active-all now s fits) (
        ground (
          arith,
          all.0,
          any-by_expiry (is_asked_for id) found,
          any-keep (is_expired now) (is_asked_for id) (rows s.keys),
        ),
        omega (arith, all.1, length-by_expiry found),
      )
