-- ===== src/KeyTests.antt =====
-- Runs of the theorems on the AWG keys and on the marks of reminders at concrete inputs.
use vpnbot.Prelude.{
  ℕ, zero, suc, String, ◌≡◌, refl, ap, any, Option, ◌==◌, if◌then◌else◌, Bool, true, false, List,
  [], ◌∷◌, none, some, get, nat_eq, arith,
}
use vpnbot.Access.World.{aware, UserRole, superadmin, approved_user, User, World}
use vpnbot.Backends.Health.{fresh_health}
use vpnbot.Keys.Store.{VpnKey, awg, active, pending_apply}
use vpnbot.Keys.Expiry.Column.{Digits, is_recorded, mark_all, days_in}
use vpnbot.Keys.Expiry.Column.Marks.{mark_all-roundtrip}
use vpnbot.Keys.Awg.{
  Server, Texts, Added, added, not_added, Removed, removed, not_removed, refused, database_failed,
}
use vpnbot.Keys.Awg.Permission.{ensure_can_create}
use vpnbot.Keys.Awg.Service.{Call, revoke_found}
use vpnbot.Keys.Awg.Issuing.{Issue, apply_key}
use vpnbot.Keys.Awg.Accounted.{IsAccounted}
use vpnbot.Keys.Awg.Accounted.History.{
  Command, issue, revoke, expire, delete, restart, perform_all, perform_all-IsAccounted,
}
use vpnbot.Keys.Awg.Outcomes.{
  IsRevoked, revoke_found-IsRevoked, IsCompensated, apply_key-IsCompensated,
}

abbrev account : ℕ → UserRole → User
account id role = record {
  telegram_user_id = id;
  username = none;
  first_name = none;
  role = role;
  created_at = aware 1;
  updated_at = aware 1;
  blocked_at = none;
  language = none;
  expiry_notifications_enabled = true;
}

abbrev world : World
world = record {
  db = record {
    users = (1, account 1 superadmin) ∷ (3, account 3 approved_user) ∷ [];
    requests = [];
    next_request = 1;
    audit = [];
  };
  cleared = [];
  clock = λ n. n;
  reads = 0;
}

abbrev draft : VpnKey
draft = record {
  id = 0;
  owner_user_id = 3;
  username = none;
  key_type = awg;
  status = pending_apply;
  note = none;
  uuid = none;
  email_label = none;
  public_key = none;
  client_ip = none;
  payload = "";
  public_payload = "";
  created_at = 1;
  updated_at = 1;
  revoked_at = none;
  deleted_at = none;
  created_by = 3;
  revoked_by = none;
  deleted_by = none;
  expires_at = none;
  transport = "tcp";
  xhttp_profile = "";
  spider_x = none;
  relay = none;
  bundle_id = none;
  expiry_notified_days = [];
}

-- A payload is the public key alone.
abbrev texts : Texts
texts = record { payload_key = λ text. text; strip = λ text. text }

abbrev order : Added → Bool → Removed → String → Issue
order add activation_fails compensation public_key = record {
  actor = 3;
  owner = 3;
  allow_pending_owner = false;
  draft = draft;
  enabled = true;
  settings_ready = true;
  server_ready = true;
  first_world = world;
  locked_world = world;
  apply_world = world;
  free_ip = some "10.0.0.2";
  public_keys = public_key ∷ [];
  labels = "awg_abcde" ∷ "awg_fghij" ∷ [];
  payload_of = λ text. text;
  public_payload_of = λ text. "";
  add = add;
  activation_fails = activation_fails;
  compensation = compensation;
  correction_fails = false;
  now = 5;
}

abbrev call : Removed → Call
call answer = record { actor = 3; world = world; remove = answer; now = 6 }

abbrev no_keys : Server
no_keys = record {
  store = record { keys = []; sequence = []; relays = []; traffic = []; archive = [] };
  health = fresh_health;
  config = [];
  runtime = [];
}

-- A key that is issued, one whose issue fails on the way, and the revocation, the deletion and a
-- restart over them.
abbrev some_calls : List Command
some_calls =
    issue (order added false removed "pk1")
    ∷ issue (order (not_added true false) false removed "pk2")
    ∷ revoke (call (not_removed true false)) 1
    ∷ expire none removed 7 1
    ∷ restart (record { remove = removed; readable = true; now = 8 }) 2
    ∷ delete (call removed) 2
    ∷ []

perform_all-IsAccounted_example : IsAccounted texts (perform_all texts some_calls no_keys)
perform_all-IsAccounted_example =
    perform_all-IsAccounted texts some_calls no_keys
      (((refl, refl), tt), (((refl, refl), tt), (tt, (tt, (tt, (tt, tt))))))
      (λ public_key access. ground (arith, access))

-- A key with its peer.
abbrev issued_key : VpnKey
issued_key = record draft { id = 1; status = active; public_key = some "pk1"; payload = "pk1" }

abbrev one_key : Server
one_key = record no_keys {
  store = record {
    keys = (1, issued_key) ∷ [];
    sequence = 1 ∷ [];
    relays = [];
    traffic = [];
    archive = [];
  };
  config = record { key_id = some 1; public_key = "pk1"; client_ip = "10.0.0.2" } ∷ [];
  runtime = "pk1" ∷ [];
}

revoke_found-IsRevoked_example :
    IsRevoked texts 1 3 6 issued_key removed one_key
      (revoke_found texts 1 3 removed 6 issued_key one_key)
unfolding get
revoke_found-IsRevoked_example =
    revoke_found-IsRevoked texts 1 3 6 issued_key removed one_key refl refl refl

apply_key-IsCompensated_example :
    ((apply_key (order added true removed "pk1") "10.0.0.2" "pk1" 1 one_key).0
      ≡ refused database_failed)
    × IsCompensated 1 "pk1" removed false
        (apply_key (order added true removed "pk1") "10.0.0.2" "pk1" 1 one_key).1
unfolding ensure_can_create get
apply_key-IsCompensated_example =
    apply_key-IsCompensated (order added true removed "pk1") "10.0.0.2" "pk1" 1 one_key refl refl
      refl

-- Numbers are tallies here, and the comma is zero.
abbrev tally : ℕ → List ℕ
tally zero = 2 ∷ []
tally (suc n) = 1 ∷ tally n

abbrev bump : Option ℕ → Option ℕ
bump none = none
bump (some n) = some (suc n)

abbrev count : List ℕ → Option ℕ
count [] = none
count (c ∷ text) = if c == 2 then some 0 else bump (count text)

abbrev tallies : Digits ℕ
tallies = record { comma = 0; str_of = tally; read = count }

tally-reads : (n : ℕ) → count (tally n) ≡ some n
tally-reads zero = refl
tally-reads (suc n) = ap (bump) (tally-reads n)

tally-comma : (n : ℕ) → any (λ c. c == 0) (tally n) ≡ false
tally-comma zero = refl
tally-comma (suc n) = tally-comma n

mark_all-roundtrip_example :
    (is_recorded tallies 3 (mark_all tallies (7 ∷ 3 ∷ 1 ∷ []) []) ≡ true)
    × (any (λ m. 3 == m) (days_in tallies (mark_all tallies (7 ∷ 3 ∷ 1 ∷ []) [])) ≡ true)
mark_all-roundtrip_example =
    mark_all-roundtrip tallies
      (record { reads = tally-reads; no_comma = tally-comma; no_number = refl }) (7 ∷ 3 ∷ 1 ∷ []) 3
