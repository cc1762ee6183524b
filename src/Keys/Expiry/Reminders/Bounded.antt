-- ===== src/Keys/Expiry/Reminders/Bounded.antt =====
-- The reminders of a key in one pass, against the marks on its row (services/key_expiry.py).
use vpnbot.Prelude.{
  ℕ, suc, ◌+◌, ◌*◌, ◌≤◌, ◌≡◌, ◌⊎◌, refl, Bool, true, false, not, ◌||◌, List, [], ◌∷◌, Dict, get,
  nat_eq, any, keep, length, All, ◌==◌, ==_iff, arith, Bool-cases, inl, inr,
}
use vpnbot.Access.World.{User}
use vpnbot.Keys.Store.{VpnKey, Store}
use vpnbot.Keys.Expiry.{
  Progress, message, opted_out, mark_expiry_notified, notify_key, notify_keys, notify_threshold,
  notify_thresholds, list_not_notified_expiring, day,
}
use vpnbot.Keys.Expiry.Reminders.{sent_to}
use vpnbot.Keys.Expiry.Reminders.Table.{
  IsTable, is_marked, is_fresh, mark_expiry_notified-IsTable, is_marked-mark, get-mark,
}
use vpnbot.Keys.Expiry.Reminders.Listing.{All-map, list_not_notified_expiring-fresh}

-- The thresholds that a key has no mark of.
abbrev pub left : List ℕ → ℕ → Store → ℕ
left days id s = length (keep (λ d. not (is_marked id d s)) days)

-- A mark takes none or more thresholds off.
left-mark :
    (days : List ℕ) (id d j : ℕ) (s : Store)
    → left days j (mark_expiry_notified id d s) ≤ left days j s
left-mark [] id d j s = omega arith
left-mark (x ∷ days) id d j s = ground (arith, left-mark days id d j s, is_marked-mark id d j x s)

-- The first mark of a threshold takes it off.
left-mark_fresh :
    (days : List ℕ) (id d : ℕ) (s : Store)
    → any (λ x. x == d) days ≡ true
    → is_fresh d s id ≡ true
    → suc (left days id (mark_expiry_notified id d s)) ≤ left days id s
left-mark_fresh [] id d s h fresh = ground arith
left-mark_fresh (x ∷ days) id d s h fresh = elim (Bool-cases (x == d)) [
  | inl same ↦
      let e : x ≡ d = (==_iff x d).0 same in
      rw e (
        ground
          (arith, is_marked-mark id d id d s, left-mark days id d id s, ==_iff id id, ==_iff d d))
  | inr other ↦
      ground
        (arith, is_marked-mark id d id x s, left-mark_fresh days id d s, ==_iff d x, ==_iff x d)
]

module _ (users : Dict ℕ User) (delivers : ℕ → ℕ → Bool) (now : ℕ) (notify_days : List ℕ)
    (id : ℕ) where
  abbrev pub spent : Progress → ℕ
  spent p = sent_to id p.sent + left notify_days id p.store

  -- A listed key was reminded in this pass already, or has no mark yet.
  abbrev is_ready : ℕ → Progress → ℕ → Bool
  is_ready days p j = any (λ i. i == j) p.reminded || is_fresh days p.store j

  abbrev marked : ℕ → VpnKey → Progress → Progress
  marked days key p = record p { store = mark_expiry_notified key.id days p.store }

  abbrev delivered : ℕ → VpnKey → Progress → Progress
  delivered days key p = record {
    store = mark_expiry_notified key.id days p.store;
    sent = message now key (get users key.owner_user_id) ∷ p.sent;
    reminded = key.id ∷ p.reminded;
    count = suc p.count;
  }

  notify_key-cases :
      (days : ℕ) (key : VpnKey) (p : Progress)
      → (notify_key users delivers now days key p ≡ p)
        ⊎ ((any (λ i. i == key.id) p.reminded ≡ true)
            × (notify_key users delivers now days key p ≡ marked days key p))
        ⊎ ((any (λ i. i == key.id) p.reminded ≡ false)
            × (notify_key users delivers now days key p ≡ delivered days key p))
  unfolding notify_key
  notify_key-cases days key p = elim (Bool-cases (any (λ i. i == key.id) p.reminded)) [
    | inl e ↦ inr (inl (e, simp e refl))
    | inr e ↦ elim (Bool-cases (opted_out (get users key.owner_user_id))) [
      | inl out ↦ inl (simp (e, out) refl)
      | inr wants ↦ elim (Bool-cases (delivers days key.id)) [
        | inl sends ↦ inr (inr (e, simp (e, wants, sends) refl))
        | inr fails ↦ inl (simp (e, wants, fails) refl)
      ]
    ]
  ]

  delivered-spent :
      (days : ℕ) (key : VpnKey) (p : Progress)
      → any (λ x. x == days) notify_days ≡ true
      → is_fresh days p.store key.id ≡ true
      → spent (delivered days key p) ≤ spent p
  delivered-spent days key p h fresh = elim (Bool-cases (key.id == id)) [
    | inr other ↦ simp other (omega (arith, left-mark notify_days key.id days id p.store))
    | inl same ↦
        let e : key.id ≡ id = (==_iff key.id id).0 same in
        let once = left-mark_fresh notify_days key.id days p.store h fresh in
        simp same (ground (arith, e, once))
  ]

  notify_key-spent :
      (days : ℕ) (key : VpnKey) (p : Progress)
      → any (λ x. x == days) notify_days ≡ true
      → is_ready days p key.id ≡ true
      → spent (notify_key users delivers now days key p) ≤ spent p
  notify_key-spent days key p h ready = elim (notify_key-cases days key p) [
    | inl e ↦ rw e (omega arith)
    | inr (inl (again, e)) ↦ rw e (omega (arith, left-mark notify_days key.id days id p.store))
    | inr (inr (first, e)) ↦ rw e (delivered-spent days key p h ground (arith, first, ready))
  ]

  notify_key-ready :
      (days : ℕ) (key : VpnKey) (p : Progress) (j : ℕ)
      → is_ready days p j ≡ true
      → is_ready days (notify_key users delivers now days key p) j ≡ true
  notify_key-ready days key p j ready =
      let mark = is_marked-mark key.id days j days p.store in
      let known = get-mark key.id days j p.store in
      elim (notify_key-cases days key p) [
        | inl e ↦ rw e ready
        | inr (inl (again, e)) ↦ rw e (elim (Bool-cases (key.id == j)) [
          | inl same ↦
              let done : any (λ i. i == j) p.reminded ≡ true =
                rw (← (==_iff key.id j).0 same) again in
              ground (arith, done)
          | inr other ↦ ground (arith, mark, known, ready, other)
        ])
        | inr (inr (first, e)) ↦ rw e (ground (arith, mark, known, ready))
      ]

  notify_key-IsTable :
      (days : ℕ) (key : VpnKey) (p : Progress)
      → IsTable p.store.keys
      → IsTable (notify_key users delivers now days key p).store.keys
  notify_key-IsTable days key p h =
      let kept = mark_expiry_notified-IsTable key.id days p.store h in
      elim (notify_key-cases days key p) [
        | inl e ↦ rw e h
        | inr (inl (again, e)) ↦ rw e kept
        | inr (inr (first, e)) ↦ rw e kept
      ]

  -- What a pass keeps, and that it spends no more than there was.
  abbrev pub IsSpending : Progress → Progress → Type 0
  IsSpending p p' = IsTable p'.store.keys × (spent p' ≤ spent p)

  notify_keys-IsSpending :
      (days : ℕ) (keys : List VpnKey) (p : Progress)
      → any (λ x. x == days) notify_days ≡ true
      → IsTable p.store.keys
      → All (λ key. is_ready days p key.id ≡ true) keys
      → IsSpending p (notify_keys users delivers now days keys p)
  unfolding notify_keys
  notify_keys-IsSpending days [] p h table ready = (table, omega arith)
  notify_keys-IsSpending days (key ∷ keys) p h table ready =
      let p' = notify_key users delivers now days key p in
      let (kept, less) =
        notify_keys-IsSpending days keys p' h (notify_key-IsTable days key p table) (
          All-map (λ k. is_ready days p k.id ≡ true) (λ k. is_ready days p' k.id ≡ true)
            (λ k r. notify_key-ready days key p k.id r) keys ready.1) in
      (kept, omega (arith, less, notify_key-spent days key p h ready.0))

  notify_threshold-IsSpending :
      (days : ℕ) (p : Progress)
      → any (λ x. x == days) notify_days ≡ true
      → IsTable p.store.keys
      → IsSpending p (notify_threshold users delivers now days p)
  unfolding notify_threshold
  notify_threshold-IsSpending days p h table =
      let deadline = now + days * day in
      let keys = list_not_notified_expiring now deadline days 200 p.store in
      notify_keys-IsSpending days keys p h table (
        All-map (λ k. is_fresh days p.store k.id ≡ true) (λ k. is_ready days p k.id ≡ true)
          (λ k f. ground (arith, f)) keys
          (list_not_notified_expiring-fresh now deadline days 200 p.store table))

  pub notify_thresholds-IsSpending :
      (thresholds : List ℕ) (p : Progress)
      → All (λ d. any (λ x. x == d) notify_days ≡ true) thresholds
      → IsTable p.store.keys
      → IsSpending p (notify_thresholds users delivers now thresholds p)
  unfolding notify_thresholds
  notify_thresholds-IsSpending [] p h table = (table, omega arith)
  notify_thresholds-IsSpending (days ∷ thresholds) p h table =
      let (kept, less) = notify_threshold-IsSpending days p h.0 table in
      let (end, rest) =
        notify_thresholds-IsSpending thresholds (notify_threshold users delivers now days p) h.1
          kept in
      (end, omega (arith, less, rest))
