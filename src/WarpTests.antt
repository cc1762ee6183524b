-- ===== src/WarpTests.antt =====
-- Runs of the theorems on warp/ and on the keys at concrete inputs.
use vpnbot.Prelude.{
  str_eq, Dict, Option, All, if◌then◌else◌, string_eq, String, ℕ, ◌≡◌, ◌<◌, ◌≤◌, ◌*◌, refl, ap, Eq,
  ◌⊎◌, Bool, true, false, not, ◌&&◌, ◌↔◌, List, [], ◌∷◌, none, some, get, any, keep, length, arith,
}
use vpnbot.Warp.Split.Net.{Net, covered, num_addresses}
use vpnbot.Warp.Split.Collapse.{collapse}
use vpnbot.Warp.Split.Collapse.Cover.{covered-collapse}
use vpnbot.Warp.Split.Merge.{SourceContribution, subtract_networks, merge_split_list}
use vpnbot.Warp.Split.Merge.Addresses.{covered-subtract_networks}
use vpnbot.Warp.Split.Merge.Routed.{routed, merge_split_list-routed}
use vpnbot.Warp.Health.{Config, Input, init, check_once, run, evaluate_degraded}
use vpnbot.Warp.Health.Latch.{is_down, after, HasWindow, tunnel_down_iff}
use vpnbot.Warp.Health.Routes.{is_deactivation, run-kill_switch}
use vpnbot.Warp.Health.Alerts.{replay, latches, replay-run}
use vpnbot.Warp.Health.Degraded.{in_window, is_raise, lost_of, degraded_raise_iff}
use vpnbot.Warp.Split.Analysis.{
  Thresholds, Coverage, add, SourceState, analyse_change, coverage_of, networks,
}
use vpnbot.Warp.Split.Analysis.Safe.{
  IsSafe, IsWithin, analyse_change-IsSafe, pure_aggregation-covered,
}
use vpnbot.Warp.Feeds.{
  Settings, Feed, helper_applied, Run, passes, auto, lists_eqb, run_cycle, apply_computed,
  apply_pending, reject_pending,
}
use vpnbot.Warp.Feeds.Unattended.{IsAllowed, run_cycle-IsAllowed}
use vpnbot.Warp.Feeds.Approved.{lists_eqb_iff, IsDecided, apply_pending-IsApproved}
use vpnbot.Warp.Feeds.Anchored.{size}
use vpnbot.Warp.Feeds.Commands.{
  Command, cycle, decline, edit, perform_all, IsGrowth, perform_all-IsGrowth,
}
use vpnbot.Warp.Guards.{
  Entry, network, invalid, Host, Limits, refresh_all, check_candidate, IsClear,
  apply_computed-IsClear,
}
use vpnbot.Warp.Manual.{remove_manual_many, covered-remove_manual_many}
use vpnbot.Warp.Split.Sources.{
  accepted, validate_source_relations, MayStore, validate_source_relations_lem,
}
use vpnbot.Keys.Store.{
  VpnKey, xray, active, pending_apply, pending_delete, Store, create_pending, delete_if_unused,
  reserve_key_number,
}
use vpnbot.Keys.Lifecycle.{Statement, force, soft_delete, drop_relay, execute, execute_all}
use vpnbot.Keys.Lifecycle.Relays.{Linked, execute_all-Linked}
use vpnbot.Keys.Lifecycle.Numbers.{reserve_key_number-fresh}
use vpnbot.Keys.Relay.{
  RelaySnapshot, require_relay_for_issue, PointsAt, require_relay_for_issue-PointsAt,
}

abbrev address : List Bool
address = true ∷ false ∷ true ∷ []

abbrev wide : List Net
wide = (true ∷ false ∷ []) ∷ (true ∷ true ∷ []) ∷ []

abbrev narrow : List Net
narrow = (true ∷ false ∷ false ∷ []) ∷ []

abbrev sources : List SourceContribution
sources =
    record { slug = "a"; mode = "add"; networks = wide; scope_slug = none }
    ∷ record { slug = "b"; mode = "subtract"; networks = narrow; scope_slug = some "a" }
    ∷ []

covered-subtract_networks_example :
    covered (subtract_networks wide narrow) address
    ≡ (covered wide address && not (covered narrow address))
covered-subtract_networks_example = covered-subtract_networks address wide narrow (omega arith, tt)

covered-collapse_example : covered (collapse wide) address ≡ covered wide address
covered-collapse_example = covered-collapse wide address (omega arith, (omega arith, tt))

merge_split_list-routed_example :
    covered (merge_split_list narrow sources narrow).prefixes address
    ≡ routed address narrow sources narrow
merge_split_list-routed_example =
    merge_split_list-routed address narrow sources narrow (omega arith, tt)
      ((omega arith, (omega arith, tt)), ((omega arith, tt), tt)) (omega arith, tt)
      ((refl, (refl, tt)), ((refl, tt), (tt, tt)))

abbrev config : Config
config = record {
  interval = 30;
  fast_interval = 5;
  fail_window = 10;
  recover_window = 20;
  observer_mode = true;
  degraded_window = 100;
  degraded_min_samples = 2;
}

abbrev lost : ℕ → Input
lost at = record { now = at; ok = false; kill_switch = true; rules = none }

tunnel_down_iff_example :
    (any is_down (check_once config (lost 15) (after config (lost 5 ∷ []))).1 ≡ true)
    ↔ (((after config (lost 5 ∷ [])).healthy ≡ true) × HasWindow false 10 (lost 15) (lost 5 ∷ []))
tunnel_down_iff_example = tunnel_down_iff config (lost 15) (lost 5 ∷ []) (omega arith, tt)

run-kill_switch_example :
    (any is_deactivation (run config (lost 5 ∷ lost 15 ∷ []) (init true)).1 ≡ false)
    × ((run config (lost 5 ∷ lost 15 ∷ []) (init true)).0.routes_active ≡ true)
run-kill_switch_example =
    run-kill_switch config (lost 5 ∷ lost 15 ∷ []) (init true) (refl, (refl, tt)) refl

replay-run_example :
    replay (run config (lost 5 ∷ lost 15 ∷ []) (init true)).1 (latches (init true))
    ≡ some (latches (run config (lost 5 ∷ lost 15 ∷ []) (init true)).0)
replay-run_example = replay-run config (lost 5 ∷ lost 15 ∷ []) (init true)

degraded_raise_iff_example :
    (any is_raise (evaluate_degraded config (lost 5) (init true)).1 ≡ true) ↔ (
      (2 ≤ length (keep (in_window 5 100) ((5, false) ∷ [])))
      × (false ≡ false)
      × (true ≡ true)
      × (length (keep (in_window 5 100) ((5, false) ∷ []))
          ≤ 2 * length (lost_of (keep (in_window 5 100) ((5, false) ∷ [])))))
degraded_raise_iff_example = degraded_raise_iff config (lost 5) (init true) (tt, omega arith, tt)

validate_source_relations_lem_example :
    (validate_source_relations "b" "subtract" (some "a") (("a", "add") ∷ []) ≡ accepted)
    ↔ MayStore "b" "subtract" (some "a") (("a", "add") ∷ [])
validate_source_relations_lem_example =
    validate_source_relations_lem "b" "subtract" (some "a") (("a", "add") ∷ [])

abbrev key : VpnKey
key = record {
  id = 4;
  owner_user_id = 3;
  username = none;
  key_type = xray;
  status = active;
  note = none;
  uuid = none;
  email_label = none;
  public_key = none;
  client_ip = none;
  payload = "{}";
  public_payload = "{}";
  created_at = 1;
  updated_at = 1;
  revoked_at = none;
  deleted_at = none;
  created_by = 1;
  revoked_by = none;
  deleted_by = none;
  expires_at = none;
  transport = "tcp";
  xhttp_profile = "base";
  spider_x = none;
  relay = some "m";
  bundle_id = none;
  expiry_notified_days = [];
}

abbrev store : Store
store = record {
  keys = (4, key) ∷ [];
  sequence = 4 ∷ [];
  relays = (1, record { name = "m"; enabled = true }) ∷ [];
  traffic = (4, record { downloaded_bytes = 10; uploaded_bytes = 5 }) ∷ [];
  archive = [];
}

abbrev statements : List Statement
statements = drop_relay 1 ∷ force 4 pending_delete 8 ∷ soft_delete 4 1 9 ∷ drop_relay 1 ∷ []

execute_all-Linked_example : Linked (execute_all (λ name. true) statements store)
unfolding get execute delete_if_unused
execute_all-Linked_example =
    execute_all-Linked (λ name. true) statements store (refl, (refl, (refl, (refl, tt)))) refl

reserve_key_number-fresh_example : (reserve_key_number store).0 < 6
unfolding create_pending execute_all reserve_key_number
reserve_key_number-fresh_example =
    reserve_key_number-fresh (λ name. true) [] store omega arith key none
      (record key { id = 6; status = pending_apply; relay = none }) refl

abbrev snapshot : RelaySnapshot
snapshot =
    record {
      id = 1;
      name = "m";
      label = "M";
      host = some "relay.example";
      enabled = true;
      in_subscriptions = true;
      source_ips = [];
    }
    ∷ []

require_relay_for_issue-PointsAt_example : PointsAt snapshot "m" "direct.example"
unfolding require_relay_for_issue
require_relay_for_issue-PointsAt_example =
    require_relay_for_issue-PointsAt snapshot "m" "direct.example" refl refl

abbrev thresholds : Thresholds
thresholds = record { max_shrink_pct = 20; max_growth_pct = 50; stale_after_sec = 259_200 }

-- Two halves of a network, and the network.
abbrev network_of : String → Option Net
network_of text =
    if str_eq text "low"
    then some (true ∷ false ∷ [])
    else (if str_eq text "high"
        then some (true ∷ true ∷ [])
        else (if str_eq text "whole" then some (true ∷ []) else none))

abbrev feed : SourceState
feed = record {
  slug = "feed";
  mode = add;
  coverage = record { prefixes = 2; addresses = 900 };
  age_sec = some 60;
  empty_parse = false;
}

abbrev baselines : Dict String Coverage
baselines = ("feed", record { prefixes = 2; addresses = 1000 }) ∷ []

analyse_change-IsSafe_example :
    All (λ source. IsSafe thresholds (get baselines source.slug) source) (feed ∷ [])
    × IsWithin thresholds (get baselines "list") (coverage_of network_of ("whole" ∷ [])).addresses
unfolding analyse_change get
analyse_change-IsSafe_example =
    analyse_change-IsSafe network_of thresholds "list" ("low" ∷ "high" ∷ []) ("whole" ∷ [])
      (feed ∷ []) baselines refl

network_of-short :
    (text : String) (net : Net) → network_of text ≡ some net → length net ≤ length address
network_of-short text net e = ground (arith, e)

pure_aggregation-covered_example :
    covered (networks network_of ("low" ∷ "high" ∷ [])) address
    ≡ covered (networks network_of ("whole" ∷ [])) address
unfolding analyse_change collapse
pure_aggregation-covered_example =
    pure_aggregation-covered network_of thresholds "list" ("low" ∷ "high" ∷ []) ("whole" ∷ [])
      (feed ∷ []) baselines address network_of-short refl

instance lists_eq : Eq (List String)
lists_eq = record { beq = lists_eqb; beq_iff = lists_eqb_iff }

abbrev split_settings : Settings (List String)
split_settings = record {
  network_of = network_of;
  list_hash = λ texts. texts;
  thresholds = thresholds;
  mode = auto;
  confirm_streak = 2;
}

abbrev no_feed : Feed (List String)
no_feed = record {
  list = "low" ∷ [];
  stored = [];
  baselines = [];
  baseline_hash = none;
  pending = none;
  streak_hash = none;
  streak_count = 0;
  journal = [];
}

abbrev merged_to : List String → Run
merged_to texts = record {
  stored = ("feed", texts) ∷ [];
  sources = [];
  plan = some texts;
  recomputed = some texts;
  guard = λ candidate. passes;
  helper = helper_applied;
}

-- The list doubles, which waits for an approval, and then a half takes the other's place.
abbrev some_commands : List Command
some_commands =
    cycle (merged_to ("whole" ∷ []))
    ∷ decline
    ∷ edit ("low" ∷ []) []
    ∷ cycle (merged_to ("high" ∷ []))
    ∷ []

perform_all-IsGrowth_example :
    IsGrowth split_settings
      (perform_all split_settings some_commands no_feed).list
      (run_cycle split_settings
        (merged_to ("high" ∷ []))
        (perform_all split_settings some_commands no_feed)).1.list
unfolding perform_all run_cycle analyse_change reject_pending get collapse num_addresses lists_eq
perform_all-IsGrowth_example =
    perform_all-IsGrowth split_settings some_commands no_feed (merged_to ("high" ∷ [])) refl tt
      ((refl, tt), (tt, (tt, ((refl, tt), tt)))) (refl, tt) refl refl (omega arith)
      (λ texts e. ap (size split_settings) e)

run_cycle-IsAllowed_example :
    ((run_cycle split_settings
        (merged_to ("high" ∷ []))
        (perform_all split_settings some_commands no_feed)).1.list
      ≡ (perform_all split_settings some_commands no_feed).list)
    ⊎ ((plan : List String) × IsAllowed split_settings
          (merged_to ("high" ∷ []))
          (perform_all split_settings some_commands no_feed)
          (run_cycle split_settings
            (merged_to ("high" ∷ []))
            (perform_all split_settings some_commands no_feed)).1.list
          plan)
run_cycle-IsAllowed_example =
    run_cycle-IsAllowed split_settings (merged_to ("high" ∷ []))
      (perform_all split_settings some_commands no_feed)

-- The doubled list waits.
abbrev queued_feed : Feed (List String)
queued_feed = (run_cycle split_settings (merged_to ("whole" ∷ [])) no_feed).1

apply_pending-IsApproved_example :
    IsDecided split_settings
      (merged_to ("whole" ∷ []))
      queued_feed
      (apply_pending split_settings (merged_to ("whole" ∷ [])) queued_feed)
apply_pending-IsApproved_example =
    apply_pending-IsApproved split_settings (merged_to ("whole" ∷ [])) queued_feed

-- A half of a row is taken out, and another row stays.
covered-remove_manual_many_example :
    covered
      (remove_manual_many ((true ∷ []) ∷ (false ∷ true ∷ []) ∷ []) ((true ∷ true ∷ []) ∷ []))
      address
    ≡ (covered ((true ∷ []) ∷ (false ∷ true ∷ []) ∷ []) address
        && not (covered ((true ∷ true ∷ []) ∷ []) address))
covered-remove_manual_many_example =
    covered-remove_manual_many address ((true ∷ []) ∷ (false ∷ true ∷ []) ∷ [])
      ((true ∷ true ∷ []) ∷ []) (omega arith, tt)

abbrev entry_of : String → Entry
entry_of text = if str_eq text "low" then network (true ∷ false ∷ false ∷ []) else invalid

abbrev host : Host
host = record { awg_network = false ∷ false ∷ []; wan = none; gateway = none; endpoint = none }

abbrev limits : Limits
limits = record { max_prefixes = 10; min_prefixlen = 2 }

-- The endpoint was found once, and the probe of the check finds nothing.
abbrev probes : List (Option Net)
probes = some (true ∷ true ∷ []) ∷ none ∷ []

abbrev guarded_run : Run
guarded_run = record (merged_to ("low" ∷ [])) {
  guard = check_candidate entry_of limits (refresh_all probes host);
}

abbrev high_feed : Feed (List String)
high_feed = record no_feed { list = "high" ∷ [] }

apply_computed-IsClear_example :
    ((apply_computed guarded_run (some ("low" ∷ [])) high_feed).1.list ≡ "high" ∷ [])
    ⊎ IsClear entry_of limits host
        (some (true ∷ true ∷ []))
        (apply_computed guarded_run (some ("low" ∷ [])) high_feed).1.list
unfolding lists_eq
apply_computed-IsClear_example =
    apply_computed-IsClear entry_of limits host probes guarded_run (some ("low" ∷ [])) high_feed
      refl refl
