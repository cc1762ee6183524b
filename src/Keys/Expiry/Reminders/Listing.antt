-- ===== src/Keys/Expiry/Reminders/Listing.antt =====
-- The rows that a pass lists (`list_not_notified_expiring` of repositories/vpn_keys.py).
use vpnbot.Prelude.{
  ℕ, zero, suc, ◌≡◌, refl, sym, Bool, true, false, not, ◌&&◌, List, [], ◌∷◌, none, some, Dict, get,
  nat_eq, keep, take, All, ltb, leb, ◌==◌, ==_iff, arith, Bool-cases, inl, inr, if◌then◌else◌,
}
use vpnbot.Access.Requests.{clamp_limit}
use vpnbot.Keys.Store.{VpnKey, Store}
use vpnbot.Keys.Expiry.{
  rows, expires, insert_by_expiry, by_expiry, is_expiring, is_active, is_notified,
  list_not_notified_expiring,
}
use vpnbot.Keys.Expiry.Reminders.Table.{IsTable, is_fresh}

and_last : (a b c : Bool) → (a && b && c) ≡ true → c ≡ true
and_last a b c h = ground arith

pub All-map :
    {A : Type 0} (P Q : A → Type 0) → ((x : A) → P x → Q x) → (xs : List A) → All P xs → All Q xs
All-map P Q f [] h = tt
All-map P Q f (x ∷ xs) h = (f x h.0, All-map P Q f xs h.1)

rows-get : (d : Dict ℕ VpnKey) → IsTable d → All (λ key. get d key.id ≡ some key) (rows d)
unfolding get
rows-get [] h = tt
rows-get ((id, key) ∷ d) h =
    let (own, fresh, rest) = h in
    (
      rw ((==_iff id key.id).1 (sym own)) refl,
      All-map (λ k. get d k.id ≡ some k)
          (λ k. (if id == k.id then some key else get d k.id) ≡ some k)
          (λ k found. elim (Bool-cases (id == k.id)) [
            | inl same ↦
                let e : id ≡ k.id = (==_iff id k.id).0 same in rw same (cc (e, fresh, found))
            | inr other ↦ rw other found
          ])
          (rows d) (rows-get d rest),
    )

All-insert_by_expiry :
    (P : VpnKey → Type 0) (key : VpnKey) (keys : List VpnKey)
    → P key
    → All P keys
    → All P (insert_by_expiry key keys)
unfolding insert_by_expiry
All-insert_by_expiry P key [] h hs = (h, tt)
All-insert_by_expiry P key (other ∷ keys) h hs =
    elim (Bool-cases (leb (expires key) (expires other))) [
      | inl e ↦ rw e (h, hs)
      | inr e ↦ rw e (hs.0, All-insert_by_expiry P key keys h hs.1)
    ]

All-by_expiry : (P : VpnKey → Type 0) (keys : List VpnKey) → All P keys → All P (by_expiry keys)
unfolding by_expiry
All-by_expiry P [] h = tt
All-by_expiry P (key ∷ keys) h =
    All-insert_by_expiry P key (by_expiry keys) h.0 (All-by_expiry P keys h.1)

All-take : (P : VpnKey → Type 0) (n : ℕ) (keys : List VpnKey) → All P keys → All P (take n keys)
All-take P zero keys h = tt
All-take P (suc n) [] h = tt
All-take P (suc n) (key ∷ keys) h = (h.0, All-take P n keys h.1)

All-keep :
    (P Q : VpnKey → Type 0) (test : VpnKey → Bool)
    → ((key : VpnKey) → test key ≡ true → P key → Q key)
    → (keys : List VpnKey) → All P keys
    → All Q (keep test keys)
All-keep P Q test f [] h = tt
All-keep P Q test f (key ∷ keys) h = elim (Bool-cases (test key)) [
  | inl e ↦ simp e (f key e h.0, All-keep P Q test f keys h.1)
  | inr e ↦ simp e (All-keep P Q test f keys h.1)
]

-- The keys that are listed at a threshold have no mark of it.
pub list_not_notified_expiring-fresh :
    (now deadline days limit : ℕ) (s : Store)
    → IsTable s.keys
    → All
        (λ key. is_fresh days s key.id ≡ true)
        (list_not_notified_expiring now deadline days limit s)
unfolding list_not_notified_expiring
list_not_notified_expiring-fresh now deadline days limit s h =
    let fresh : VpnKey → Type 0 = λ key. is_fresh days s key.id ≡ true in
    let found = keep (is_expiring now deadline days) (rows s.keys) in
    All-take fresh (clamp_limit limit) (by_expiry found) (
      All-by_expiry fresh found (
        All-keep (λ key. get s.keys key.id ≡ some key) fresh (is_expiring now deadline days)
          (λ key e row. simp row (
            and_last (is_active key)
              (elim key.expires_at [ none ↦ false | some at ↦ ltb now at && leb at deadline ])
              (not (is_notified days key)) e))
          (rows s.keys) (rows-get s.keys h)))
