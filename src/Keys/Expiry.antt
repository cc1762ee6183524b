-- ===== src/Keys/Expiry.antt =====
-- KeyExpiryService (services/key_expiry.py) over the statements on expiry of
-- repositories/vpn_keys.py.
--
-- A time is a number of seconds. A pass is one step, so the users that it reads stay as they are
-- and their cache is the table. Rows with one expiry time come in the table's order. The services
-- that revoke are a parameter over a state `S` of their own.
pub mod Reminders
pub mod Sweeps
pub mod Column
use vpnbot.Prelude.{
  ℕ, zero, suc, ◌+◌, ◌-◌, ◌*◌, ◌/◌, String, Bool, true, false, not, ◌&&◌, List, [], ◌∷◌, Option,
  none, some, Dict, get, nat_eq, any, keep, take, max, ltb, leb, or_default, ◌==◌, if◌then◌else◌,
}
use vpnbot.Access.World.{User}
use vpnbot.Access.Requests.{clamp_limit}
use vpnbot.Keys.Store.{
  VpnKey, VpnKeyType, xray, awg, hysteria2, active, status_eq, Store, update_key, any_row,
}

abbrev pub rows : Dict ℕ VpnKey → List VpnKey
rows [] = []
rows ((id, key) ∷ keys) = key ∷ rows keys

abbrev pub is_active : VpnKey → Bool
is_active key = status_eq key.status active

abbrev pub expires : VpnKey → ℕ
expires key = or_default key.expires_at 0

-- ORDER BY expires_at ASC
unfoldable pub insert_by_expiry : VpnKey → List VpnKey → List VpnKey
insert_by_expiry key [] = key ∷ []
insert_by_expiry key (other ∷ keys) =
    if leb (expires key) (expires other)
    then key ∷ other ∷ keys
    else other ∷ insert_by_expiry key keys

unfoldable pub by_expiry : List VpnKey → List VpnKey
unfolding insert_by_expiry
by_expiry [] = []
by_expiry (key ∷ keys) = insert_by_expiry key (by_expiry keys)

-- The tests of the two WHERE clauses.
abbrev pub is_expired : ℕ → VpnKey → Bool
is_expired now key = is_active key && elim key.expires_at [ none ↦ false | some at ↦ leb at now ]

abbrev pub is_notified : ℕ → VpnKey → Bool
is_notified days key = any (λ d. d == days) key.expiry_notified_days

abbrev pub is_expiring : ℕ → ℕ → ℕ → VpnKey → Bool
is_expiring now deadline days key =
    is_active key
    && elim key.expires_at [ none ↦ false | some at ↦ ltb now at && leb at deadline ]
    && not (is_notified days key)

unfoldable pub list_expired_active : ℕ → ℕ → Store → List VpnKey
unfolding by_expiry clamp_limit
list_expired_active now limit s =
    take (clamp_limit limit) (by_expiry (keep (is_expired now) (rows s.keys)))

unfoldable pub list_not_notified_expiring : ℕ → ℕ → ℕ → ℕ → Store → List VpnKey
unfolding by_expiry clamp_limit
list_not_notified_expiring now deadline days limit s =
    take (clamp_limit limit) (by_expiry (keep (is_expiring now deadline days) (rows s.keys)))

-- `sorted` of a set that gets one more member
unfoldable pub insert_day : ℕ → List ℕ → List ℕ
insert_day d [] = d ∷ []
insert_day d (x ∷ xs) =
    let rest = insert_day d xs in
    if ltb d x then d ∷ x ∷ xs else (if d == x then x ∷ xs else x ∷ rest)

unfoldable pub sorted_days : List ℕ → List ℕ
unfolding insert_day
sorted_days [] = []
sorted_days (x ∷ xs) = insert_day x (sorted_days xs)

unfoldable pub notified : ℕ → VpnKey → VpnKey
unfolding sorted_days
notified days key = record key {
  expiry_notified_days = insert_day days (sorted_days key.expiry_notified_days);
}

unfoldable pub mark_expiry_notified : ℕ → ℕ → Store → Store
unfolding update_key notified
mark_expiry_notified id days s = (update_key id any_row (notified days) s).1

abbrev pub day : ℕ
day = 86400

-- `round(n / day)`, half to even
unfoldable pub rounded_days : ℕ → ℕ
rounded_days n =
    let whole = n / day in
    let rest = n - whole * day in
    if ltb (2 * rest) day
    then whole
    else (if ltb day (2 * rest) then suc whole else 2 * (suc whole / 2))

unfoldable pub remaining_days : ℕ → Option ℕ → ℕ
unfolding rounded_days
remaining_days now none = 1
remaining_days now (some at) = max 1 (rounded_days (at - now))

-- What a reminder's text is made of, and whom it goes to.
pub record Message : Type 0 where
  pub owner_user_id : ℕ
  pub key_type : VpnKeyType
  pub key_id : ℕ
  pub days : ℕ
  pub language : Option String

abbrev pub opted_out : Option User → Bool
opted_out none = false
opted_out (some owner) = not owner.expiry_notifications_enabled

abbrev pub language_of : Option User → Option String
language_of none = none
language_of (some owner) = owner.language

abbrev pub message : ℕ → VpnKey → Option User → Message
message now key owner = record {
  owner_user_id = key.owner_user_id;
  key_type = key.key_type;
  key_id = key.id;
  days = remaining_days now key.expires_at;
  language = language_of owner;
}

-- `count` and `notified_this_run` of a pass, with the table and what was sent, the last one first.
pub record Progress : Type 0 where
  pub store : Store
  pub sent : List Message
  pub reminded : List ℕ
  pub count : ℕ

-- `delivers` says at a threshold and a key whether sending that reminder succeeds.
module _ (users : Dict ℕ User) (delivers : ℕ → ℕ → Bool) (now : ℕ) where
  unfoldable pub notify_key : ℕ → VpnKey → Progress → Progress
  unfolding mark_expiry_notified
  notify_key days key p =
      let owner = get users key.owner_user_id in
      let marked = mark_expiry_notified key.id days p.store in
      if any (λ id. id == key.id) p.reminded
      then record p { store = marked }
      else (if opted_out owner
          then p
          else (if delivers days key.id
              then record {
                store = marked;
                sent = message now key owner ∷ p.sent;
                reminded = key.id ∷ p.reminded;
                count = suc p.count;
              }
              else p))

  unfoldable pub notify_keys : ℕ → List VpnKey → Progress → Progress
  unfolding notify_key
  notify_keys days [] p = p
  notify_keys days (key ∷ keys) p = notify_keys days keys (notify_key days key p)

  unfoldable pub notify_threshold : ℕ → Progress → Progress
  unfolding notify_keys list_not_notified_expiring
  notify_threshold days p =
      notify_keys days (list_not_notified_expiring now (now + days * day) days 200 p.store) p

  unfoldable pub notify_thresholds : List ℕ → Progress → Progress
  unfolding notify_threshold
  notify_thresholds [] p = p
  notify_thresholds (days ∷ thresholds) p = notify_thresholds thresholds (notify_threshold days p)

-- `sorted(self.notify_days)` of a tuple, which may repeat a number
unfoldable pub insert_threshold : ℕ → List ℕ → List ℕ
insert_threshold d [] = d ∷ []
insert_threshold d (x ∷ xs) = if leb d x then d ∷ x ∷ xs else x ∷ insert_threshold d xs

unfoldable pub sorted_thresholds : List ℕ → List ℕ
unfolding insert_threshold
sorted_thresholds [] = []
sorted_thresholds (d ∷ ds) = insert_threshold d (sorted_thresholds ds)

-- Without a bot there are no reminders; without thresholds the loop has no round.
unfoldable pub notify_expiring_keys :
    Bool → List ℕ → Dict ℕ User → (ℕ → ℕ → Bool) → ℕ → Store × List Message → Progress
unfolding notify_thresholds sorted_thresholds
notify_expiring_keys has_bot notify_days users delivers now (s, sent) =
    let start : Progress = record { store = s; sent = sent; reminded = []; count = 0 } in
    if has_bot
    then notify_thresholds users delivers now (sorted_thresholds notify_days) start
    else start

-- A revocation either succeeds or raises, and a backend health is given, of which `skipped` is the
-- counter. `asked` has the keys that a service was asked for, the last one first.
pub record Sweep (S : Type 0) : Type 0 where
  pub backend : S
  pub asked : List ℕ
  pub count : ℕ
  pub skipped : ℕ

module _ {S : Type 0} (revoke : VpnKeyType → ℕ → S → Bool × S) (has_hysteria : Bool) where
  abbrev pub is_wired : VpnKeyType → Bool
  is_wired xray = true
  is_wired hysteria2 = has_hysteria
  is_wired awg = true

  abbrev pub after_attempt : Bool × S → Sweep S → Sweep S
  after_attempt (true, backend) sweep = record sweep { backend = backend; count = suc sweep.count }
  after_attempt (false, backend) sweep = record sweep {
    backend = backend;
    skipped = suc sweep.skipped;
  }

  unfoldable pub revoke_key : VpnKey → Sweep S → Sweep S
  revoke_key key sweep =
      if is_wired key.key_type
      then after_attempt (revoke key.key_type key.id sweep.backend)
          (record sweep { asked = key.id ∷ sweep.asked })
      else after_attempt (false, sweep.backend) sweep

  unfoldable pub revoke_each : List VpnKey → Sweep S → Sweep S
  unfolding revoke_key
  revoke_each [] sweep = sweep
  revoke_each (key ∷ keys) sweep = revoke_each keys (revoke_key key sweep)

  unfoldable pub revoke_expired_keys : ℕ → Store → S → ℕ → Sweep S
  unfolding revoke_each list_expired_active
  revoke_expired_keys now s backend skipped =
      revoke_each (list_expired_active now 100 s)
        (record { backend = backend; asked = []; count = 0; skipped = skipped })
