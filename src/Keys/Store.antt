-- ===== src/Keys/Store.antt =====
-- The table `vpn_keys` with what its statements read and write beside it, and the statements
-- (repositories/vpn_keys.py, repositories/relays.py, models/dto.py, models/enums.py).
--
-- A table is a dict by its primary key, in the order of the ids. A time is the number that its
-- ISO text stands for; the texts that are compared come from one clock in one format. JSON
-- columns are their texts. `created_at` and the like are set by the callers' `now`.
use vpnbot.Prelude.{
  ℕ, suc, String, Bool, true, false, not, ◌&&◌, ◌||◌, List, [], ◌∷◌, ◌++◌, Option, none, some, Dict,
  get, put, remove, nat_eq, any, map, str_eq, max, if◌then◌else◌,
}

pub data VpnKeyType : Type 0 where
  xray awg hysteria2 : VpnKeyType

pub data VpnKeyStatus : Type 0 where
  pending_apply active apply_failed pending_revoke revoked pending_delete delete_failed deleted
        failed :
      VpnKeyStatus

-- `relay` is the name of the relay that the key goes through; `bundle_id` its bundle;
-- `expiry_notified_days` the numbers that the column's text joins by commas, in order.
pub record VpnKey : Type 0 where
  pub id : ℕ
  pub owner_user_id : ℕ
  pub username : Option String
  pub key_type : VpnKeyType
  pub status : VpnKeyStatus
  pub note : Option String
  pub uuid : Option String
  pub email_label : Option String
  pub public_key : Option String
  pub client_ip : Option String
  pub payload : String
  pub public_payload : String
  pub created_at : ℕ
  pub updated_at : ℕ
  pub revoked_at : Option ℕ
  pub deleted_at : Option ℕ
  pub created_by : ℕ
  pub revoked_by : Option ℕ
  pub deleted_by : Option ℕ
  pub expires_at : Option ℕ
  pub transport : String
  pub xhttp_profile : String
  pub spider_x : Option String
  pub relay : Option String
  pub bundle_id : Option ℕ
  pub expiry_notified_days : List ℕ

-- The columns of a relay that the statements read.
pub record Relay : Type 0 where
  pub name : String
  pub enabled : Bool

-- A row of vpn_key_traffic_stats, and one of deleted_key_traffic_archive.
pub record Traffic : Type 0 where
  pub downloaded_bytes : ℕ
  pub uploaded_bytes : ℕ

pub record Archived : Type 0 where
  pub key_id : ℕ
  pub owner_user_id : ℕ
  pub key_type : VpnKeyType
  pub traffic : Traffic
  pub deleted_at : ℕ

-- `sequence` holds the rows of sqlite_sequence for vpn_keys, of which SQLite takes the first one.
pub record Store : Type 0 where
  pub keys : Dict ℕ VpnKey
  pub sequence : List ℕ
  pub relays : Dict ℕ Relay
  pub traffic : Dict ℕ Traffic
  pub archive : List Archived

pub data KeyError : Type 0 where
  not_found concurrent_modification invalid_transition relay_unavailable invalid_relay_name :
      KeyError

pub data Outcome (A : Type 0) : Type 0 where
  returned : A → Outcome A
  raised : KeyError → Outcome A

abbrev pub status_eq : VpnKeyStatus → VpnKeyStatus → Bool
status_eq pending_apply pending_apply = true
status_eq active active = true
status_eq apply_failed apply_failed = true
status_eq pending_revoke pending_revoke = true
status_eq revoked revoked = true
status_eq pending_delete pending_delete = true
status_eq delete_failed delete_failed = true
status_eq deleted deleted = true
status_eq failed failed = true
status_eq _ _ = false

-- `status IN (...)`
abbrev pub is_in : List VpnKeyStatus → VpnKeyStatus → Bool
is_in statuses status = any (status_eq status) statuses

abbrev pub is_deleted : VpnKey → Bool
is_deleted key = status_eq key.status deleted

-- COALESCE(o, d)
abbrev pub coalesce : {A : Type 0} → Option A → A → Option A
coalesce none d = some d
coalesce (some a) d = some a

abbrev pub highest : Dict ℕ VpnKey → ℕ
highest [] = 0
highest ((id, key) ∷ keys) = max id (highest keys)

abbrev pub first_or_zero : List ℕ → ℕ
first_or_zero [] = 0
first_or_zero (n ∷ ns) = n

abbrev pub set_first : ℕ → List ℕ → List ℕ
set_first n [] = n ∷ []
set_first n (m ∷ ms) = n ∷ ms

-- INSERT OR IGNORE, UPDATE and SELECT on sqlite_sequence, which has no unique constraint, so that
-- nothing is ignored.
unfoldable pub reserve_key_number : Store → ℕ × Store
reserve_key_number s =
    let sequence = map suc (s.sequence ++ (highest s.keys ∷ [])) in
    (first_or_zero sequence, record s { sequence = sequence })

-- The id that AUTOINCREMENT gives.
abbrev pub next_id : Store → ℕ
next_id s = suc (max (first_or_zero s.sequence) (highest s.keys))

-- The new row; its id is given at the insert.
abbrev pub insert_key : VpnKey → Store → Outcome VpnKey × Store
insert_key key s =
    let id = next_id s in
    let row = record key { id = id; status = pending_apply } in
    (returned row, record s { keys = put s.keys id row; sequence = set_first id s.sequence })

-- EXISTS (SELECT 1 FROM relays WHERE name = ? AND enabled = 1)
abbrev pub relay_enabled : String → Dict ℕ Relay → Bool
relay_enabled name [] = false
relay_enabled name ((id, relay) ∷ relays) =
    str_eq relay.name name && relay.enabled || relay_enabled name relays

-- `create_pending`, with `_checked_relay`, which matches the name against RELAY_NAME_PATTERN.
unfoldable pub create_pending :
    (String → Bool) → VpnKey → Option String → Store → Outcome VpnKey × Store
create_pending well_formed key none s = insert_key (record key { relay = none }) s
create_pending well_formed key (some relay) s =
    if not (well_formed relay)
    then (raised invalid_relay_name, s)
    else if not (relay_enabled relay s.relays)
    then (raised relay_unavailable, s)
    else insert_key (record key { relay = some relay }) s

-- UPDATE ... WHERE id = ? AND <the test>; whether a row was changed.
abbrev pub update_found :
    ℕ → (VpnKey → Bool) → (VpnKey → VpnKey) → Option VpnKey → Store → Bool × Store
update_found id test change none s = (false, s)
update_found id test change (some key) s =
    if test key then (true, record s { keys = put s.keys id (change key) }) else (false, s)

unfoldable pub update_key : ℕ → (VpnKey → Bool) → (VpnKey → VpnKey) → Store → Bool × Store
update_key id test change s = update_found id test change (get s.keys id) s

abbrev pub or_raise : KeyError → Bool × Store → Outcome (Unit {0}) × Store
or_raise e (true, s) = (returned tt, s)
or_raise e (false, s) = (raised e, s)

abbrev pub done : Bool × Store → Outcome (Unit {0}) × Store
done (changed, s) = (returned tt, s)

abbrev pub or_stored : Option String → String → String
or_stored none stored = stored
or_stored (some payload) stored = payload

-- The changes that the statements below make to a row.
abbrev pub activated : ℕ → Option String → Option String → VpnKey → VpnKey
activated now payload public_payload key = record key {
  status = active;
  updated_at = now;
  payload = or_stored payload key.payload;
  public_payload = or_stored public_payload key.public_payload;
}

abbrev pub moved : VpnKeyStatus → ℕ → VpnKey → VpnKey
moved status now key = record key { status = status; updated_at = now }

abbrev pub as_revoked : ℕ → ℕ → VpnKey → VpnKey
as_revoked actor now key = record key {
  status = revoked;
  updated_at = now;
  revoked_at = coalesce key.revoked_at now;
  revoked_by = coalesce key.revoked_by actor;
  client_ip = none;
}

abbrev pub as_deleted : ℕ → ℕ → VpnKey → VpnKey
as_deleted actor now key = record key {
  status = deleted;
  updated_at = now;
  deleted_at = coalesce key.deleted_at now;
  deleted_by = coalesce key.deleted_by actor;
}

abbrev pub noted : Option String → ℕ → VpnKey → VpnKey
noted text now key = record key { note = text; updated_at = now }

abbrev pub repacked : String → String → ℕ → VpnKey → VpnKey
repacked payload public_payload now key = record key {
  payload = payload;
  public_payload = public_payload;
  updated_at = now;
}

-- The rows that they change.
abbrev pub any_row : VpnKey → Bool
any_row key = true

abbrev pub in_statuses : List VpnKeyStatus → VpnKey → Bool
in_statuses statuses key = is_in statuses key.status

abbrev pub is_open : VpnKey → Bool
is_open key = not (is_in (revoked ∷ deleted ∷ []) key.status)

abbrev pub is_kept : VpnKey → Bool
is_kept key = not (is_deleted key)

abbrev pub mark_active_found :
    ℕ → ℕ → Option String → Option String → Option VpnKey → Store → Outcome (Unit {0}) × Store
mark_active_found id now payload public_payload none s = (raised not_found, s)
mark_active_found id now payload public_payload (some current) s = done (
    update_key id (in_statuses (pending_apply ∷ apply_failed ∷ []))
      (activated now payload public_payload) s)

unfoldable pub mark_active :
    ℕ → ℕ → Option String → Option String → Store → Outcome (Unit {0}) × Store
unfolding update_key
mark_active id now payload public_payload s =
    mark_active_found id now payload public_payload (get s.keys id) s

-- `none` and an empty tuple of allowed statuses both allow every status, and a missing row.
unfoldable pub set_status :
    ℕ → VpnKeyStatus → ℕ → List VpnKeyStatus → Store → Outcome (Unit {0}) × Store
unfolding update_key
set_status id status now [] s = done (update_key id any_row (moved status now) s)
set_status id status now (allowed ∷ others) s =
    or_raise concurrent_modification
      (update_key id (in_statuses (allowed ∷ others)) (moved status now) s)

unfoldable pub update_key_status : ℕ → VpnKeyStatus → ℕ → Store → Outcome (Unit {0}) × Store
unfolding set_status
update_key_status id status now s = set_status id status now [] s

unfoldable pub mark_revoked : ℕ → ℕ → ℕ → Store → Outcome (Unit {0}) × Store
unfolding update_key
mark_revoked id actor now s =
    or_raise invalid_transition (update_key id is_open (as_revoked actor now) s)

unfoldable pub mark_deleted : ℕ → ℕ → ℕ → Store → Outcome (Unit {0}) × Store
unfolding update_key
mark_deleted id actor now s =
    or_raise invalid_transition (update_key id is_kept (as_deleted actor now) s)

abbrev pub archived : ℕ → ℕ → Option Traffic → Option VpnKey → List Archived
archived id now (some traffic) (some key) =
    record {
      key_id = id;
      owner_user_id = key.owner_user_id;
      key_type = key.key_type;
      traffic = traffic;
      deleted_at = now;
    }
    ∷ []
archived id now _ _ = []

-- The archive has its last row first.
unfoldable pub hard_delete_with_stats : ℕ → ℕ → Store → Store
hard_delete_with_stats id now s = record s {
  archive = archived id now (get s.traffic id) (get s.keys id) ++ s.archive;
  traffic = remove s.traffic id;
  keys = remove s.keys id;
}

unfoldable pub update_note : ℕ → Option String → ℕ → Store → Outcome (Unit {0}) × Store
unfolding update_key
update_note id text now s = done (update_key id any_row (noted text now) s)

unfoldable pub update_payload : ℕ → String → String → ℕ → Store → Outcome (Unit {0}) × Store
unfolding update_key
update_payload id payload public_payload now s =
    done (update_key id any_row (repacked payload public_payload now) s)

-- `keys` whose relay is this one, outside status 'deleted'.
abbrev pub names_relay : String → VpnKey → Bool
names_relay name key =
    elim key.relay [ none ↦ false | some relay ↦ str_eq relay name ] && not (is_deleted key)

abbrev pub any_key : (VpnKey → Bool) → Dict ℕ VpnKey → Bool
any_key test [] = false
any_key test ((id, key) ∷ keys) = test key || any_key test keys

abbrev pub delete_found : ℕ → Option Relay → Store → Bool × Store
delete_found id none s = (false, s)
delete_found id (some relay) s =
    if any_key (names_relay relay.name) s.keys
    then (false, s)
    else (true, record s { relays = remove s.relays id })

-- RelayRepository.delete_if_unused
unfoldable pub delete_if_unused : ℕ → Store → Bool × Store
delete_if_unused id s = delete_found id (get s.relays id) s
