-- ===== src/Warp/Health/Alerts.antt =====
-- The alerts (warp/health.py): each marks a real transition of its latch, once.
use vpnbot.Prelude.{
  ◌≡◌, refl, Bool, true, false, List, [], ◌∷◌, ◌++◌, Option, none, some, Option-cases, inl, inr,
  if◌then◌else◌, arith,
}
use vpnbot.Warp.Health.{
  Event, activate_routes, deactivate_routes, tunnel_down, tunnel_recovered, degraded_at,
  degraded_cleared, routes_missing, routes_restored, Config, Monitor, Input, probe,
  evaluate_degraded, evaluate_source_rules, check_once, run,
}

-- The three latches: tunnel up, degraded, source rules present.
pub record Latches : Type 0 where
  pub up : Bool
  pub degraded : Bool
  pub rules : Bool

abbrev pub latches : Monitor → Latches
latches m = record { up = m.healthy; degraded = m.degraded; rules = m.source_rules_present }

-- An alert is in place only if its latch is on the other side, and turns it.
abbrev pub alert : Event → Latches → Option Latches
alert activate_routes l = some l
alert deactivate_routes l = some l
alert tunnel_down l = if l.up then some (record l { up = false }) else none
alert tunnel_recovered l = if l.up then none else some (record l { up = true })
alert (degraded_at lost total) l = if l.degraded then none else some (record l { degraded = true })
alert degraded_cleared l = if l.degraded then some (record l { degraded = false }) else none
alert routes_missing l = if l.rules then some (record l { rules = false }) else none
alert routes_restored l = if l.rules then none else some (record l { rules = true })

abbrev and_then : Option Latches → (Latches → Option Latches) → Option Latches
and_then none f = none
and_then (some l) f = f l

-- The alerts, replayed from a state of the latches; `none` at the first one that is out of place.
unfoldable pub replay : List Event → Latches → Option Latches
replay [] l = some l
replay (e ∷ events) l = and_then (alert e l) (replay events)

replay-append :
    (xs ys : List Event) (l : Latches) → replay (xs ++ ys) l ≡ and_then (replay xs l) (replay ys)
unfolding replay
replay-append [] ys l = refl
replay-append (x ∷ xs) ys l = elim (Option-cases (alert x l)) [
  | inl out ↦ ground arith
  | inr (k, turned) ↦ ground (arith, replay-append xs ys k)
]

replay-probe :
    (c : Config) (i : Input) (m : Monitor)
    → replay (probe c i m).1 (latches m) ≡ some (latches (probe c i m).0)
unfolding replay probe
replay-probe c i m = ground arith

replay-evaluate_degraded :
    (c : Config) (i : Input) (m : Monitor)
    → replay (evaluate_degraded c i m).1 (latches m) ≡ some (latches (evaluate_degraded c i m).0)
unfolding replay evaluate_degraded
replay-evaluate_degraded c i m = ground arith

replay-evaluate_source_rules :
    (rules : Option (Option Bool)) (m : Monitor)
    → replay (evaluate_source_rules rules m).1 (latches m)
      ≡ some (latches (evaluate_source_rules rules m).0)
unfolding replay evaluate_source_rules
replay-evaluate_source_rules none m = refl
replay-evaluate_source_rules (some none) m = refl
replay-evaluate_source_rules (some (some true)) m = ground arith
replay-evaluate_source_rules (some (some false)) m = ground arith

replay-check_once :
    (c : Config) (i : Input) (m : Monitor)
    → replay (check_once c i m).1 (latches m) ≡ some (latches (check_once c i m).0)
unfolding check_once
replay-check_once c i m =
    let m₁ = (probe c i m).0 in
    let m₂ = (evaluate_degraded c i m₁).0 in
    let judged = (evaluate_degraded c i m₁).1 in
    let ruled = (evaluate_source_rules i.rules m₂).1 in
    ground (
      arith,
      replay-append (probe c i m).1 (judged ++ ruled) (latches m),
      replay-append judged ruled (latches m₁),
      replay-probe c i m,
      replay-evaluate_degraded c i m₁,
      replay-evaluate_source_rules i.rules m₂,
    )

-- Over any rounds, the down and recovered alerts alternate, and so do degraded and cleared, missing
-- and restored: replayed from the first state they are all in place, and they end in the last one.
pub replay-run :
    (c : Config) (inputs : List Input) (m : Monitor)
    → replay (run c inputs m).1 (latches m) ≡ some (latches (run c inputs m).0)
unfolding run
replay-run c [] m = unfold replay in refl
replay-run c (i ∷ inputs) m =
    let m' = (check_once c i m).0 in
    ground (
      arith,
      replay-append (check_once c i m).1 (run c inputs m').1 (latches m),
      replay-check_once c i m,
      replay-run c inputs m',
    )
