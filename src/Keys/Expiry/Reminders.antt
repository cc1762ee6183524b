-- ===== src/Keys/Expiry/Reminders.antt =====
-- How often a reminder is sent (services/key_expiry.py).
pub mod Table
pub mod Listing
pub mod Bounded
pub mod Passes
use vpnbot.Prelude.{
  ℕ, suc, ◌+◌, ◌*◌, ◌≤◌, ◌≡◌, refl, Bool, true, false, List, [], ◌∷◌, Dict, any, keep, length,
  length-keep, All, is_some, ◌==◌, ==_iff, arith, Bool-cases, inl, inr, if◌then◌else◌,
}
use vpnbot.Access.World.{User}
use vpnbot.Keys.Store.{VpnKey, Store}
use vpnbot.Keys.Expiry.{
  Message, Progress, message, opted_out, mark_expiry_notified, notify_key, notify_keys,
  notify_threshold, notify_thresholds, sorted_thresholds, insert_threshold,
  list_not_notified_expiring, day, notify_expiring_keys,
}

-- The reminders of a key among what was sent.
abbrev pub sent_to : ℕ → List Message → ℕ
sent_to id sent = length (keep (λ m. m.key_id == id) sent)

abbrev IsOnce : ℕ → ℕ → Progress → Type 0
IsOnce id before p =
    sent_to id p.sent ≤ (if any (λ i. i == id) p.reminded then suc before else before)

abbrev IsCounted : ℕ → Progress → Type 0
IsCounted before p = length p.sent ≡ before + p.count

module _ (users : Dict ℕ User) (delivers : ℕ → ℕ → Bool) (now : ℕ) (id before : ℕ) where
  notify_key-IsOnce :
      (days : ℕ) (key : VpnKey) (p : Progress)
      → IsOnce id before p
      → IsOnce id before (notify_key users delivers now days key p)
  unfolding notify_key
  notify_key-IsOnce days key p h = ground (arith, ==_iff key.id id)

  notify_keys-IsOnce :
      (days : ℕ) (keys : List VpnKey) (p : Progress)
      → IsOnce id before p
      → IsOnce id before (notify_keys users delivers now days keys p)
  unfolding notify_keys
  notify_keys-IsOnce days [] p h = h
  notify_keys-IsOnce days (key ∷ keys) p h =
      notify_keys-IsOnce days keys (notify_key users delivers now days key p)
        (notify_key-IsOnce days key p h)

  notify_thresholds-IsOnce :
      (thresholds : List ℕ) (p : Progress)
      → IsOnce id before p
      → IsOnce id before (notify_thresholds users delivers now thresholds p)
  unfolding notify_thresholds notify_threshold
  notify_thresholds-IsOnce [] p h = h
  notify_thresholds-IsOnce (days ∷ thresholds) p h =
      notify_thresholds-IsOnce thresholds (notify_threshold users delivers now days p) (
        notify_keys-IsOnce days (list_not_notified_expiring now (now + days * day) days 200 p.store)
          p h)

  notify_key-IsCounted :
      (days : ℕ) (key : VpnKey) (p : Progress)
      → IsCounted before p
      → IsCounted before (notify_key users delivers now days key p)
  unfolding notify_key
  notify_key-IsCounted days key p h = ground arith

  notify_keys-IsCounted :
      (days : ℕ) (keys : List VpnKey) (p : Progress)
      → IsCounted before p
      → IsCounted before (notify_keys users delivers now days keys p)
  unfolding notify_keys
  notify_keys-IsCounted days [] p h = h
  notify_keys-IsCounted days (key ∷ keys) p h =
      notify_keys-IsCounted days keys (notify_key users delivers now days key p)
        (notify_key-IsCounted days key p h)

  notify_thresholds-IsCounted :
      (thresholds : List ℕ) (p : Progress)
      → IsCounted before p
      → IsCounted before (notify_thresholds users delivers now thresholds p)
  unfolding notify_thresholds notify_threshold
  notify_thresholds-IsCounted [] p h = h
  notify_thresholds-IsCounted (days ∷ thresholds) p h =
      notify_thresholds-IsCounted thresholds (notify_threshold users delivers now days p) (
        notify_keys-IsCounted days
          (list_not_notified_expiring now (now + days * day) days 200 p.store) p h)

-- A pass sends at most one reminder for a key, at whatever thresholds it stands, and returns the
-- number of reminders that it sent.
pub notify_expiring_keys-once :
    (has_bot : Bool) (notify_days : List ℕ) (users : Dict ℕ User) (delivers : ℕ → ℕ → Bool)
    (now : ℕ) (s : Store) (sent : List Message) (id : ℕ)
    → (sent_to id (notify_expiring_keys has_bot notify_days users delivers now (s, sent)).sent
        ≤ suc (sent_to id sent))
      × (length (notify_expiring_keys has_bot notify_days users delivers now (s, sent)).sent
          ≡ length sent
            + (notify_expiring_keys has_bot notify_days users delivers now (s, sent)).count)
unfolding notify_expiring_keys
notify_expiring_keys-once false notify_days users delivers now s sent id =
    (omega arith, omega arith)
notify_expiring_keys-once true notify_days users delivers now s sent id =
    let start : Progress = record { store = s; sent = sent; reminded = []; count = 0 } in
    let end = notify_thresholds users delivers now (sorted_thresholds notify_days) start in
    let once : IsOnce id (sent_to id sent) end =
      notify_thresholds-IsOnce users delivers now id (sent_to id sent)
        (sorted_thresholds notify_days) start omega arith in
    (
      ground (arith, once),
      notify_thresholds-IsCounted users delivers now id (length sent)
          (sorted_thresholds notify_days) start omega arith,
    )
