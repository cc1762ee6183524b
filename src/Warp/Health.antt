-- ===== src/Warp/Health.antt =====
-- The tunnel health monitor (`WarpHealthMonitor` of warp/health.py).
--
-- The monotonic clock counts in ticks, here natural numbers, and the windows are in the same ticks.
-- A callback is an event in the order of the calls. The probe, the kill switch and the
-- source-rule check are the round's inputs. Callbacks do not raise here: the notifications of the
-- source suppress what they raise, and a route callback that raises ends the round.
pub mod Latch
pub mod Degraded
pub mod Routes
pub mod Alerts
use vpnbot.Prelude.{
  ℕ, zero, suc, ◌+◌, ◌-◌, ◌*◌, Bool, true, false, not, ◌&&◌, ◌||◌, List, [], ◌∷◌, ◌++◌, Option,
  none, some, length, keep, ltb, leb, or_default, if◌then◌else◌,
}

-- The calls that the monitor makes; `degraded_at` has the lost and the total probes.
pub data Event : Type 0 where
  activate_routes deactivate_routes tunnel_down tunnel_recovered : Event
  degraded_at : ℕ → ℕ → Event
  degraded_cleared routes_missing routes_restored : Event

pub record Config : Type 0 where
  pub interval : ℕ
  pub fast_interval : ℕ
  pub fail_window : ℕ
  pub recover_window : ℕ
  pub observer_mode : Bool
  pub degraded_window : ℕ
  pub degraded_min_samples : ℕ

pub record Monitor : Type 0 where
  pub fail_streak : ℕ
  pub success_streak : ℕ
  pub fail_since : Option ℕ
  pub success_since : Option ℕ
  pub last_ok : Option Bool
  pub healthy : Bool
  pub routes_active : Bool
  pub samples : List (ℕ × Bool)
  pub degraded : Bool
  pub source_rules_present : Bool

-- `__init__`
abbrev pub init : Bool → Monitor
init initial_routes_active = record {
  fail_streak = 0;
  success_streak = 0;
  fail_since = none;
  success_since = none;
  last_ok = none;
  healthy = initial_routes_active;
  routes_active = initial_routes_active;
  samples = [];
  degraded = false;
  source_rules_present = true;
}

-- What a round reads: the clock, the probe, the kill switch, and the rule check, which is `none`
-- without a checker, `some none` where it cannot tell.
pub record Input : Type 0 where
  pub now : ℕ
  pub ok : Bool
  pub kill_switch : Bool
  pub rules : Option (Option Bool)

pub record HealthSnapshot : Type 0 where
  pub tunnel_up : Bool
  pub routes_active : Bool
  pub fail_streak : ℕ
  pub success_streak : ℕ
  pub degraded : Bool

-- A part of the round: the new state, and the calls that it made.
abbrev pub Step : Type 0
Step = Monitor × List Event

unfoldable pub next_interval : Config → Monitor → ℕ
next_interval c m = elim m.last_ok [
  | none ↦ c.interval
  | some ok ↦ if ok then c.interval else c.fast_interval
]

unfoldable pub mark_recovered : Config → Monitor → Step
mark_recovered c m =
    if c.observer_mode then (record m { healthy = true }, tunnel_recovered ∷ []) else (
      record m { healthy = true; routes_active = true },
      activate_routes ∷ tunnel_recovered ∷ [],
    )

unfoldable pub mark_down : Config → Bool → Monitor → Step
mark_down c kill_switch m =
    if c.observer_mode || kill_switch
    then (record m { healthy = false }, tunnel_down ∷ [])
    else (record m { healthy = false; routes_active = false }, deactivate_routes ∷ tunnel_down ∷ [])

-- `now - since >= window`
abbrev pub elapsed : ℕ → ℕ → ℕ → Bool
elapsed now since window = leb (since + window) now

unfoldable pub probe_ok : Config → Input → Monitor → Step
unfolding mark_recovered
probe_ok c i m =
    let since = or_default m.success_since i.now in
    let m' = record m {
      last_ok = some true;
      success_streak = m.success_streak + 1;
      fail_streak = 0;
      fail_since = none;
      success_since = some since;
    } in
    if not m.healthy && elapsed i.now since c.recover_window then mark_recovered c m' else (m', [])

unfoldable pub probe_failed : Config → Input → Monitor → Step
unfolding mark_down
probe_failed c i m =
    let since = or_default m.fail_since i.now in
    let m' = record m {
      last_ok = some false;
      fail_streak = m.fail_streak + 1;
      success_streak = 0;
      success_since = none;
      fail_since = some since;
    } in
    if m.healthy && elapsed i.now since c.fail_window
    then mark_down c i.kill_switch m'
    else (m', [])

unfoldable pub probe : Config → Input → Monitor → Step
unfolding probe_ok probe_failed
probe c i m = if i.ok then probe_ok c i m else probe_failed c i m

-- Samples older than the window leave from the old end; `now - window` is below zero at first.
unfoldable pub prune : ℕ → ℕ → List (ℕ × Bool) → List (ℕ × Bool)
prune now window [] = []
prune now window ((at, ok) ∷ samples) =
    let rest = prune now window samples in
    if ltb (at + window) now then rest else (at, ok) ∷ samples

-- `sum(1 for _, sample_ok in samples if not sample_ok)`
unfoldable pub failures : List (ℕ × Bool) → ℕ
failures [] = 0
failures ((at, ok) ∷ samples) = if ok then failures samples else suc (failures samples)

-- The raise is at a loss of a half or more, the clearing at a loss below a fifth
-- (DEGRADED_LOSS_THRESHOLD and DEGRADED_CLEAR_THRESHOLD of warp/constants.py).
unfoldable pub judge_degraded : ℕ → ℕ → Monitor → Step
judge_degraded lost total m =
    if not m.degraded && m.healthy && leb total (2 * lost)
    then (record m { degraded = true }, degraded_at lost total ∷ [])
    else if m.degraded && ltb (5 * lost) total
    then (record m { degraded = false }, degraded_cleared ∷ [])
    else (m, [])

unfoldable pub evaluate_degraded : Config → Input → Monitor → Step
unfolding prune failures judge_degraded
evaluate_degraded c i m =
    let samples = prune i.now c.degraded_window (m.samples ++ (i.now, i.ok) ∷ []) in
    let m' = record m { samples = samples } in
    if ltb (length samples) c.degraded_min_samples
    then (m', [])
    else judge_degraded (failures samples) (length samples) m'

-- The new state, the calls, and the effective "rules present" flag.
unfoldable pub evaluate_source_rules : Option (Option Bool) → Monitor → Monitor × List Event × Bool
evaluate_source_rules none m = (m, [], true)
evaluate_source_rules (some none) m = (m, [], m.source_rules_present)
evaluate_source_rules (some (some true)) m =
    if m.source_rules_present
    then (m, [], true)
    else (record m { source_rules_present = true }, routes_restored ∷ [], true)
evaluate_source_rules (some (some false)) m =
    if m.source_rules_present
    then (record m { source_rules_present = false }, routes_missing ∷ [], false)
    else (m, [], false)

-- One round: the state, the calls in order, and the snapshot that is handed to `on_update`.
unfoldable pub check_once : Config → Input → Monitor → Monitor × List Event × HealthSnapshot
unfolding probe evaluate_degraded evaluate_source_rules
check_once c i m =
    let (m₁, probed) = probe c i m in
    let (m₂, judged) = evaluate_degraded c i m₁ in
    let (m₃, ruled, rules_present) = evaluate_source_rules i.rules m₂ in
    (
      m₃,
      probed ++ judged ++ ruled,
      record {
        tunnel_up = i.ok;
        routes_active = m₃.routes_active && rules_present;
        fail_streak = m₃.fail_streak;
        success_streak = m₃.success_streak;
        degraded = m₃.degraded || not rules_present;
      },
    )

-- Rounds one after the other; the calls of all of them.
unfoldable pub run : Config → List Input → Monitor → Monitor × List Event
unfolding check_once
run c [] m = (m, [])
run c (i ∷ inputs) m =
    let (m', events, snapshot) = check_once c i m in
    let (m'', later) = run c inputs m' in (m'', events ++ later)
