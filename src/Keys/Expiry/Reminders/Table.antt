-- ===== src/Keys/Expiry/Reminders/Table.antt =====
-- The column `expiry_notified_days` of the table (repositories/vpn_keys.py).
use vpnbot.Prelude.{
  ℕ, ◌≡◌, refl, sym, ap, ◌∙◌, Bool, not, ◌&&◌, ◌||◌, List, [], ◌∷◌, Option, none, some, Dict, get,
  put, nat_eq, get-put, get-put_ne, any, is_some, ◌==◌, ==_iff, arith, Bool-cases, Option-cases,
  inl, inr, if◌then◌else◌,
}
use vpnbot.Keys.Store.{VpnKey, Store, update_key, update_found, any_row}
use vpnbot.Keys.Expiry.{insert_day, sorted_days, notified, mark_expiry_notified}

any-insert_day : (t : ℕ → Bool) (d : ℕ) (xs : List ℕ) → any t (insert_day d xs) ≡ (t d || any t xs)
unfolding insert_day
any-insert_day t d [] = refl
any-insert_day t d (x ∷ xs) = ground (arith, any-insert_day t d xs, ==_iff d x)

any-sorted_days : (t : ℕ → Bool) (xs : List ℕ) → any t (sorted_days xs) ≡ any t xs
unfolding sorted_days
any-sorted_days t [] = refl
any-sorted_days t (x ∷ xs) =
    ground (arith, any-insert_day t x (sorted_days xs), any-sorted_days t xs)

-- Each row stands under its id, once.
abbrev pub IsTable : Dict ℕ VpnKey → Type 0
IsTable [] = Unit
IsTable ((id, key) ∷ d) = (key.id ≡ id) × (get d id ≡ none) × IsTable d

abbrev pub days_of : Option VpnKey → List ℕ
days_of none = []
days_of (some key) = key.expiry_notified_days

-- The threshold is marked on the row of this id.
abbrev pub is_marked : ℕ → ℕ → Store → Bool
is_marked id days s = any (λ d. d == days) (days_of (get s.keys id))

IsTable-put :
    (d : Dict ℕ VpnKey) (id : ℕ) (old new : VpnKey)
    → IsTable d
    → get d id ≡ some old
    → new.id ≡ id
    → IsTable (put d id new)
unfolding get put
IsTable-put [] id old new h found same = ground arith
IsTable-put ((j, key) ∷ d) id old new h found same =
    let (own, fresh, rest) = h in
    elim (Bool-cases (j == id)) [
      | inl e ↦ rw e (same ∙ sym ((==_iff j id).0 e), fresh, rest)
      | inr e ↦
          let tail : get d id ≡ some old = sym (rw e refl) ∙ found in
          rw e (
            own,
            get-put_ne d id j new ground (arith, e, ==_iff id j, ==_iff j id) ∙ fresh,
            IsTable-put d id old new rest tail same,
          )
    ]

IsTable-get :
    (d : Dict ℕ VpnKey) (id : ℕ) (key : VpnKey) → IsTable d → get d id ≡ some key → key.id ≡ id
unfolding get
IsTable-get [] id key h found = ground arith
IsTable-get ((j, row) ∷ d) id key h found =
    let (own, fresh, rest) = h in
    elim (Bool-cases (j == id)) [
      | inl e ↦
          let same : some row ≡ some key = sym (rw e refl) ∙ found in
          cc (same, own, (==_iff j id).0 e)
      | inr e ↦ IsTable-get d id key rest (sym (rw e refl) ∙ found)
    ]

mark_missing :
    (id days : ℕ) (s : Store)
    → get s.keys id ≡ none
    → (mark_expiry_notified id days s).keys ≡ s.keys
unfolding mark_expiry_notified update_key
mark_missing id days s e = ap (λ o. (update_found id any_row (notified days) o s).1.keys) e

mark_row :
    (id days : ℕ) (s : Store) (key : VpnKey)
    → get s.keys id ≡ some key
    → (mark_expiry_notified id days s).keys ≡ put s.keys id (notified days key)
unfolding mark_expiry_notified update_key
mark_row id days s key e = ap (λ o. (update_found id any_row (notified days) o s).1.keys) e

notified-id : (days : ℕ) (key : VpnKey) → (notified days key).id ≡ key.id
unfolding notified
notified-id days key = refl

pub mark_expiry_notified-IsTable :
    (id days : ℕ) (s : Store) → IsTable s.keys → IsTable (mark_expiry_notified id days s).keys
mark_expiry_notified-IsTable id days s h = elim (Option-cases (get s.keys id)) [
  | inl e ↦ rw (mark_missing id days s e) h
  | inr (key, e) ↦ rw (mark_row id days s key e) (
      IsTable-put s.keys id key (notified days key) h e
        (notified-id days key ∙ IsTable-get s.keys id key h e))
]

-- The row of any id after a mark.
get-mark_row :
    (id days j : ℕ) (s : Store) (key : VpnKey)
    → get s.keys id ≡ some key
    → get (mark_expiry_notified id days s).keys j
      ≡ (if id == j then some (notified days key) else get s.keys j)
get-mark_row id days j s key e =
    rw (mark_row id days s key e) (get-put s.keys id j (notified days key))

any-notified :
    (d days : ℕ) (key : VpnKey)
    → any (λ x. x == d) (notified days key).expiry_notified_days
      ≡ ((days == d) || any (λ x. x == d) key.expiry_notified_days)
unfolding notified
any-notified d days key = ground (
  arith,
  any-insert_day (λ x. x == d) days (sorted_days key.expiry_notified_days),
  any-sorted_days (λ x. x == d) key.expiry_notified_days,
)

pub is_marked-mark :
    (id days j d : ℕ) (s : Store)
    → is_marked j d (mark_expiry_notified id days s)
      ≡ (is_marked j d s || ((id == j) && (days == d) && is_some (get s.keys id)))
is_marked-mark id days j d s = elim (Option-cases (get s.keys id)) [
  | inl e ↦ rw (mark_missing id days s e, e) (ground arith)
  | inr (key, e) ↦
      rw (get-mark_row id days j s key e, e)
        (elim (Bool-cases (id == j)) [
          | inl same ↦ rw (same, any-notified d days key, ← (==_iff id j).0 same, e) (ground arith)
          | inr other ↦ rw other (ground arith)
        ])
]

pub get-mark :
    (id days j : ℕ) (s : Store)
    → is_some (get (mark_expiry_notified id days s).keys j) ≡ is_some (get s.keys j)
get-mark id days j s = elim (Option-cases (get s.keys id)) [
  | inl e ↦ rw (mark_missing id days s e) refl
  | inr (key, e) ↦ rw (get-mark_row id days j s key e) (elim (Bool-cases (id == j)) [
    | inl same ↦ rw (same, ← (==_iff id j).0 same, e) refl
    | inr other ↦ rw other refl
  ])
]

-- A key whose threshold may be marked still: its row is there, without the mark.
abbrev pub is_fresh : ℕ → Store → ℕ → Bool
is_fresh days s id = is_some (get s.keys id) && not (is_marked id days s)
