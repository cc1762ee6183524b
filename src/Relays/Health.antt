-- ===== src/Relays/Health.antt =====
-- RelayHealthMonitor and RelayHealthSupervisor (services/relay_health.py).
--
-- Times are numbers, as the clocks give them. What a probe answers is an input; a callback is an
-- event, and one that raises is swallowed by the source.
pub mod SameLatch
pub mod Isolation
use vpnbot.Prelude.{
  ℕ, suc, ◌+◌, String, Bool, true, false, not, ◌&&◌, List, [], ◌∷◌, ◌++◌, Option, none, some, Dict,
  get, put, nat_eq, any, keep, map, or_default, leb, ◌==◌, if◌then◌else◌,
}
use vpnbot.Keys.Relay.{RelayRow}

pub record Latch : Type 0 where
  pub healthy : Bool
  pub fail_since : Option ℕ
  pub success_since : Option ℕ

-- `__init__`
abbrev pub fresh_latch : Latch
fresh_latch = record { healthy = true; fail_since = none; success_since = none }

-- What a round of one monitor fires.
pub data Crossing : Type 0 where
  stays down recovered : Crossing

-- A probe that raises counts as a failure.
pub data Answer : Type 0 where
  answered : Bool → Answer
  raised : Answer

abbrev pub outcome : Answer → Bool
outcome (answered ok) = ok
outcome raised = false

-- RelayHealthMonitor.check_once, at the clock's `now`
unfoldable pub latch_step : ℕ → ℕ → ℕ → Bool → Latch → Latch × Crossing
latch_step fail_window recover_window now true latch =
    let since = or_default latch.success_since now in
    let seen = record latch { fail_since = none; success_since = some since } in
    if not latch.healthy && leb (since + recover_window) now
    then (record seen { healthy = true }, recovered)
    else (seen, stays)
latch_step fail_window recover_window now false latch =
    let since = or_default latch.fail_since now in
    let seen = record latch { success_since = none; fail_since = some since } in
    if latch.healthy && leb (since + fail_window) now
    then (record seen { healthy = false }, down)
    else (seen, stays)

pub record ProbeResult : Type 0 where
  pub ok : Bool
  pub checked_at : ℕ
  pub host : Option String

-- The alerts are the crossings that were broadcast, the last one first.
pub record Supervisor : Type 0 where
  pub current : Dict ℕ RelayRow
  pub monitors : Dict ℕ Latch
  pub last : Dict ℕ ProbeResult
  pub alerts : List (ℕ × Crossing)

abbrev pub last_probe : ℕ → Supervisor → Option ProbeResult
last_probe id s = get s.last id

-- The latest time that a clock gives, and the answer of the probe.
pub record Reading : Type 0 where
  pub answer : Answer
  pub now : ℕ
  pub wall_clock : ℕ

-- `_run_probe` records what the probe answered; one that raises records nothing.
unfoldable pub run_probe : RelayRow → Reading → Supervisor → Supervisor
run_probe relay reading s = elim reading.answer [
  | raised ↦ s
  | answered ok ↦ record s {
    last =
        put s.last relay.id
          (record { ok = ok; checked_at = reading.wall_clock; host = relay.host });
  }
]

abbrev pub alert : ℕ → Crossing → List (ℕ × Crossing) → List (ℕ × Crossing)
alert id stays alerts = alerts
alert id crossing alerts = (id, crossing) ∷ alerts

-- `_monitor_for(relay.id).check_once()`; both windows are the supervisor's one.
unfoldable pub check_relay : ℕ → RelayRow → Reading → Supervisor → Supervisor
unfolding run_probe latch_step
check_relay window relay reading s =
    let latch = or_default (get s.monitors relay.id) fresh_latch in
    let stepped = latch_step window window reading.now (outcome reading.answer) latch in
    let probed = run_probe relay reading s in
    record probed {
      monitors = put s.monitors relay.id stepped.0;
      alerts = alert relay.id stepped.1 probed.alerts;
    }

unfoldable pub check_relays : ℕ → (RelayRow → Reading) → List RelayRow → Supervisor → Supervisor
unfolding check_relay
check_relays window readings [] s = s
check_relays window readings (relay ∷ relays) s =
    check_relays window readings relays (check_relay window relay (readings relay) s)

abbrev pub has_id : ℕ → List RelayRow → Bool
has_id id relays = any (λ r. r.id == id) relays

-- `for key in [...not in ids]: del d[key]`
unfoldable pub keep_ids : {V : Type 0} → List RelayRow → Dict ℕ V → Dict ℕ V
keep_ids relays [] = []
keep_ids relays ((id, v) ∷ d) =
    if has_id id relays then (id, v) ∷ keep_ids relays d else keep_ids relays d

abbrev pub by_id : List RelayRow → Dict ℕ RelayRow
by_id [] = []
by_id (relay ∷ relays) = put (by_id relays) relay.id relay

abbrev pub enabled : List RelayRow → List RelayRow
enabled relays = keep (λ r. r.enabled) relays

-- RelayHealthSupervisor.check_once
unfoldable pub check_once : ℕ → (RelayRow → Reading) → List RelayRow → Supervisor → Supervisor
unfolding check_relays keep_ids
check_once window readings relays s = check_relays window readings (enabled relays) (record s {
  current = by_id relays;
  monitors = keep_ids (enabled relays) s.monitors;
  last = keep_ids relays s.last;
})

-- «Проверить сейчас» in the panel: it does not feed the latch.
unfoldable pub probe_now : RelayRow → Reading → Supervisor → Supervisor
unfolding run_probe
probe_now relay reading s = run_probe relay reading s
