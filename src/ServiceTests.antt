-- ===== src/ServiceTests.antt =====
-- Runs of the theorems on the limiter, the traffic counters, the trials and the relays.
use vpnbot.Prelude.{
  String, str_eq, if◌then◌else◌, ◌||◌, ◌<◌, ℕ, ◌+◌, ◌==◌, ◌≤◌, ◌≡◌, refl, Bool, true, false, List,
  [], ◌∷◌, Option, none, some, nat_eq, get, length-keep, any, arith,
}
use vpnbot.Access.World.{aware, UserRole, superadmin, approved_user, User}
use vpnbot.Keys.Store.{VpnKey, VpnKeyType, awg, xray, active}
use vpnbot.Keys.Store.{Store, create_pending}
use vpnbot.Keys.Expiry.{rows, revoke_expired_keys}
use vpnbot.Keys.Expiry.Sweeps.{revoke_expired_keys_complete}
use vpnbot.Keys.Expiry.Reminders.Passes.{Pass}
use vpnbot.Keys.Addresses.{
  Address, ipv4, AnyNetwork, network4, IpAllocator, PeerIps, peer_ips, next_free_ip,
  get_occupied_awg_ips, occupied_ips, occupied_addresses, occupied_networks, peer_networks, scan,
}
use vpnbot.Keys.Addresses.Taken.{holds, peer_names}
use vpnbot.Keys.Addresses.Issue.{AreSeparate, create_pending-AreSeparate}
use vpnbot.Keys.Addresses.Free.{next_free_ip-free, next_free_ip-exhausted}
use vpnbot.Backends.Health.{mtproto, socks5, require_mutation_allowed, is_degraded}
use vpnbot.Backends.Health.History.{
  Call, degrade, heal, after_calls, require_mutation_allowed-history,
}
use vpnbot.Keys.Relay.{RelayRow}
use vpnbot.Bot.RateLimit.{Caller, caller_eq, Windows}
use vpnbot.Bot.RateLimit.Burst.{Calls, serve, serve-burst}
use vpnbot.Traffic.Tables.{pos, Tables}
use vpnbot.Traffic.Refresh.{Answers, refresh_views}
use vpnbot.Traffic.Hourly.{Balanced, refresh_views-Balanced}
use vpnbot.Traffic.Truth.{Event, move, restart, poll, observe_all, unused, observe_all-bounds}
use vpnbot.Trial.Desk.{TrialStatus, pending, TrialKeyRequest, Desk, Issuers}
use vpnbot.Trial.Quota.{
  IsSound, held_trials, Command, request_trial, approve_trial, reject_trial, reset_quota,
  perform_all, perform_all-IsSound,
}
use vpnbot.Warp.Health.{Config, Input, init, probe}
use vpnbot.Relays.Health.{latch_step, raised, Reading, Supervisor, enabled, check_once}
use vpnbot.Relays.Health.SameLatch.{
  latch_of, is_down_crossing, is_recovered_crossing, latch_step-probe,
}
use vpnbot.Relays.Health.Isolation.{check_once-own}
use vpnbot.Warp.Health.Latch.{is_down, is_recovered}

abbrev ann : Caller
ann = record { user_id = 3; action = "keys" }

abbrev bob : Caller
bob = record { user_id = 4; action = "keys" }

abbrev windows : Windows
windows = (ann, record { started = 1000; used = 1 }) ∷ []

abbrev calls : Calls
calls =
    (1200, ann, 5000, 3)
    ∷ (1300, bob, 30_000, 1)
    ∷ (1400, ann, 5000, 3)
    ∷ (9000, bob, 2000, 1)
    ∷ (1500, ann, 5000, 3)
    ∷ []

-- Three calls in what is left of the window, of which two are accepted, among others' calls with
-- cooldowns of their own.
serve-burst_example : (serve 8 ann calls windows).0 ≡ 2
unfolding get
serve-burst_example =
    serve-burst 8 5000 3 ann calls windows (record { started = 1000; used = 1 }) (refl, tt) omega
      arith refl ground arith

abbrev sample_key : ℕ → VpnKeyType → VpnKey
sample_key id type = record {
  id = id;
  owner_user_id = 3;
  username = none;
  key_type = type;
  status = active;
  note = none;
  uuid = none;
  email_label = some "ann";
  public_key = some "pk";
  client_ip = none;
  payload = "{}";
  public_payload = "{}";
  created_at = 1;
  updated_at = 1;
  revoked_at = none;
  deleted_at = none;
  created_by = 1;
  revoked_by = none;
  deleted_by = none;
  expires_at = none;
  transport = "tcp";
  xhttp_profile = "";
  spider_x = none;
  relay = none;
  bundle_id = none;
  expiry_notified_days = [];
}

abbrev batch : List VpnKey
batch = sample_key 1 awg ∷ sample_key 2 xray ∷ []

abbrev answers : Answers
answers = record {
  transfers = ("pk", (pos 70, pos 900)) ∷ [];
  awg_failed = false;
  xray_stats = ("user>>>ann>>>traffic>>>>downlink", pos 30) ∷ [];
  xray_failed = false;
  hysteria_stats = [];
  hysteria_failed = true;
}

-- The first key's counter has restarted since the last poll.
abbrev tables : Tables
tables = record {
  stats =
      (
        1,
        record {
          downloaded_bytes = 5000;
          uploaded_bytes = 40;
          last_raw_downloaded_bytes = some 5000;
          last_raw_uploaded_bytes = some 40;
          last_success_at = some 10;
          last_attempt_at = 10;
          available = true;
          unavailable_reason = none;
          source = "awg/wg transfer";
        },
      )
      ∷ [];
  hourly = [];
}

refresh_views-Balanced_example : Balanced 1 tables (refresh_views answers 7200 batch tables)
refresh_views-Balanced_example = refresh_views-Balanced answers 7200 batch tables 1 ground arith

abbrev life : List Event
life = move 10 ∷ poll ∷ move 5 ∷ restart ∷ move 2 ∷ poll ∷ []

observe_all-bounds_example : (observe_all life unused).total ≤ (observe_all life unused).moved
observe_all-bounds_example = observe_all-bounds life

abbrev person : ℕ → UserRole → User
person id role = record {
  telegram_user_id = id;
  username = none;
  first_name = none;
  role = role;
  created_at = aware 1;
  updated_at = aware 1;
  blocked_at = none;
  language = none;
  expiry_notifications_enabled = true;
}

abbrev trial_of : TrialStatus → TrialKeyRequest
trial_of status = record {
  id = 1;
  telegram_user_id = 3;
  key_type = xray;
  status = status;
  key_id = none;
  requested_at = 2;
  decided_by = none;
  decided_at = none;
}

-- The backend's state is the list of the keys that it has.
abbrev desk_with : TrialStatus → Desk (List ℕ)
desk_with status = record {
  world = record {
    db = record {
      users = (1, person 1 superadmin) ∷ (3, person 3 approved_user) ∷ [];
      requests = [];
      next_request = 1;
      audit = [];
    };
    cleared = [];
    clock = λ n. n;
    reads = 5;
  };
  requests = (1, trial_of status) ∷ [];
  next_request = 2;
  quota_reset_at = [];
  backend = [];
}

abbrev issuers : Issuers (List ℕ)
issuers = record {
  issue = λ type actor owner expires keys. (some 9, 9 ∷ keys);
  revoke = λ type key_id actor keys. (true, []);
}

abbrev failing_issuers : Issuers (List ℕ)
failing_issuers = record {
  issue = λ type actor owner expires keys. (none, keys);
  revoke = λ type key_id actor keys. (true, []);
}

abbrev trial_commands : List Command
trial_commands =
    request_trial 3 xray
    ∷ approve_trial false 1 1
    ∷ reset_quota 1 3
    ∷ request_trial 3 awg
    ∷ reject_trial 1 2
    ∷ []

desk_with-IsSound : IsSound (desk_with pending)
unfolding get held_trials
desk_with-IsSound = record {
  mono = λ n. omega arith;
  past = λ user. omega arith;
  once = λ user. ground arith;
}

perform_all-IsSound_example : IsSound (perform_all issuers trial_commands (desk_with pending))
perform_all-IsSound_example =
    perform_all-IsSound issuers trial_commands (desk_with pending) desk_with-IsSound

abbrev tunnel_config : Config
tunnel_config = record {
  interval = 30;
  fast_interval = 10;
  fail_window = 60;
  recover_window = 120;
  observer_mode = true;
  degraded_window = 600;
  degraded_min_samples = 4;
}

abbrev lost : Input
lost = record { now = 100; ok = false; kill_switch = false; rules = none }

latch_step-probe_example :
    let stepped = latch_step 60 120 100 false (latch_of (init true)) in
    (stepped.0 ≡ latch_of (probe tunnel_config lost (init true)).0)
    × (is_down_crossing stepped.1 ≡ any is_down (probe tunnel_config lost (init true)).1)
    × (is_recovered_crossing stepped.1 ≡ any is_recovered (probe tunnel_config lost (init true)).1)
latch_step-probe_example = latch_step-probe tunnel_config lost (init true)

abbrev relay_row : ℕ → Bool → RelayRow
relay_row id enabled = record {
  id = id;
  name = "relay";
  label = "Relay";
  host = some "relay.example";
  enabled = enabled;
  in_subscriptions = true;
  source_ips = [];
}

abbrev readings : RelayRow → Reading
readings relay = record { answer = raised; now = 500; wall_clock = 9 }

abbrev supervisor : Supervisor
supervisor = record {
  current = [];
  monitors = (1, record { healthy = true; fail_since = some 300; success_since = none }) ∷ [];
  last = [];
  alerts = [];
}

check_once-own_example :
    get (check_once 90 readings (relay_row 1 true ∷ relay_row 2 false ∷ []) supervisor).monitors 1
    ≡ some (record { healthy = false; fail_since = some 300; success_since = none })
unfolding get latch_step
check_once-own_example =
    check_once-own 90 readings (relay_row 1 true ∷ relay_row 2 false ∷ []) supervisor 1 ground arith

-- A key that expires in less than two days.
abbrev expiring : Store
expiring = record {
  keys =
      (1, record (sample_key 1 xray) { expires_at = some 150_000; expiry_notified_days = [] }) ∷ [];
  sequence = 1 ∷ [];
  relays = [];
  traffic = [];
  archive = [];
}

abbrev thresholds : List ℕ
thresholds = 7 ∷ 3 ∷ 1 ∷ []

abbrev pass : ℕ → Pass
pass now = record {
  has_bot = true;
  users = (3, person 3 approved_user) ∷ [];
  delivers = λ days id. true;
  now = now;
}

abbrev kept_keys : List ℕ
kept_keys = 9 ∷ []

revoke_expired_keys_complete_example :
    (any
        (λ i. i == 1)
        (revoke_expired_keys
          (λ type id keys. (false, keys))
          false
          200_000
          expiring
          kept_keys
          4).asked
      ≡ true)
    × ((revoke_expired_keys
            (λ type id keys. (false, keys))
            false
            200_000
            expiring
            kept_keys
            4).count
          + (revoke_expired_keys
              (λ type id keys. (false, keys))
              false
              200_000
              expiring
              kept_keys
              4).skipped
        ≡ 5)
revoke_expired_keys_complete_example =
    revoke_expired_keys_complete (λ type id keys. (false, keys)) false 200_000 expiring kept_keys 4
      1 omega arith

-- Two texts that parse, and nothing else does.
abbrev address_of : String → Option Address
address_of text =
    if str_eq text "10.0.0.2"
    then some (ipv4 10)
    else (if str_eq text "10.0.0.4" then some (ipv4 12) else none)

abbrev network_of : String → Option AnyNetwork
network_of text =
    if str_eq text "10.0.0.3/32"
    then some (network4 (record { network_address = 11; prefixlen = 32 }))
    else none

abbrev same_text : String → String
same_text text = text

-- The pool of the addresses 8 to 11, of which 9 and 10 are usable, or of 8 to 15.
abbrev pool : ℕ → IpAllocator
pool prefixlen = record {
  network = record { network_address = 8; prefixlen = prefixlen };
  server_address = 9;
}

abbrev one_peer : PeerIps
one_peer = peer_ips ("10.0.0.3/32" ∷ [])

abbrev reserving : Store
reserving = record {
  keys = (1, record (sample_key 1 awg) { client_ip = some "10.0.0.2" }) ∷ [];
  sequence = 1 ∷ [];
  relays = [];
  traffic = [];
  archive = [];
}

next_free_ip-free_example :
    (9 ≤ 12)
    × (12 < 15)
    × ((12 == 9) ≡ false)
    × (any (holds address_of network_of same_text same_text 12) (rows reserving.keys) ≡ false)
    × (peer_names address_of network_of same_text same_text 12 one_peer ≡ false)
unfolding get_occupied_awg_ips occupied_ips occupied_addresses occupied_networks peer_networks scan
    next_free_ip
next_free_ip-free_example =
    next_free_ip-free address_of network_of same_text same_text (pool 29) one_peer reserving 12 refl

next_free_ip-exhausted_example :
    ((10 == 9)
      || any (holds address_of network_of same_text same_text 10) (rows reserving.keys)
      || peer_names address_of network_of same_text same_text 10 one_peer)
    ≡ true
unfolding get_occupied_awg_ips occupied_ips occupied_addresses occupied_networks peer_networks scan
    next_free_ip
next_free_ip-exhausted_example =
    next_free_ip-exhausted address_of network_of same_text same_text (pool 30) one_peer reserving 10
      refl omega arith omega arith

-- The last call comes first.
abbrev reports : List Call
reports =
    degrade mtproto "late"
    ∷ heal mtproto
    ∷ degrade socks5 "timeout"
    ∷ degrade mtproto "refused"
    ∷ []

require_mutation_allowed-history_example :
    require_mutation_allowed mtproto (after_calls reports) ≡ some (is_degraded "late")
require_mutation_allowed-history_example = require_mutation_allowed-history mtproto reports

create_pending-AreSeparate_example :
    AreSeparate address_of network_of same_text same_text
      (create_pending
        (λ name. true)
        (record (sample_key 0 awg) { client_ip = some "10.0.0.4" })
        none
        reserving).1
unfolding get_occupied_awg_ips occupied_ips occupied_addresses occupied_networks peer_networks scan
    next_free_ip
create_pending-AreSeparate_example =
    create_pending-AreSeparate address_of network_of same_text same_text (pool 29) one_peer
      reserving 12 "10.0.0.4" (λ name. true) (sample_key 0 awg) none
      (λ m. omega (
        arith,
        length-keep (holds address_of network_of same_text same_text m) (rows reserving.keys),
      ))
      refl λ m. refl
