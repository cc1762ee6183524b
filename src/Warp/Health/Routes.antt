-- ===== src/Warp/Health/Routes.antt =====
-- Who touches the routes (warp/health.py): in observer mode nobody, and under the kill switch
-- nobody takes them down.
use vpnbot.Prelude.{
  ◌≡◌, refl, Bool, true, false, List, [], ◌∷◌, ◌++◌, Option, none, some, any, any-append, All,
  arith,
}
use vpnbot.Warp.Health.{
  Event, activate_routes, deactivate_routes, Config, Monitor, Input, probe, evaluate_degraded,
  evaluate_source_rules, check_once, run,
}

abbrev pub is_route_call : Event → Bool
is_route_call activate_routes = true
is_route_call deactivate_routes = true
is_route_call _ = false

abbrev pub is_deactivation : Event → Bool
is_deactivation deactivate_routes = true
is_deactivation _ = false

-- Neither detector calls for a change of the routes, or records one.
evaluate_degraded-routes :
    (c : Config) (i : Input) (m : Monitor)
    → (any is_route_call (evaluate_degraded c i m).1 ≡ false)
      × (any is_deactivation (evaluate_degraded c i m).1 ≡ false)
      × ((evaluate_degraded c i m).0.routes_active ≡ m.routes_active)
unfolding evaluate_degraded
evaluate_degraded-routes c i m = ground arith

evaluate_source_rules-routes :
    (rules : Option (Option Bool)) (m : Monitor)
    → (any is_route_call (evaluate_source_rules rules m).1 ≡ false)
      × (any is_deactivation (evaluate_source_rules rules m).1 ≡ false)
      × ((evaluate_source_rules rules m).0.routes_active ≡ m.routes_active)
unfolding evaluate_source_rules
evaluate_source_rules-routes none m = ground arith
evaluate_source_rules-routes (some none) m = ground arith
evaluate_source_rules-routes (some (some true)) m = ground arith
evaluate_source_rules-routes (some (some false)) m = ground arith

-- A round calls for the routes what its probe calls for.
check_once-routes :
    (c : Config) (i : Input) (m : Monitor)
    → (any is_route_call (check_once c i m).1 ≡ any is_route_call (probe c i m).1)
      × (any is_deactivation (check_once c i m).1 ≡ any is_deactivation (probe c i m).1)
      × ((check_once c i m).0.routes_active ≡ (probe c i m).0.routes_active)
unfolding check_once
check_once-routes c i m =
    let m₁ = (probe c i m).0 in
    let m₂ = (evaluate_degraded c i m₁).0 in
    let judged = (evaluate_degraded c i m₁).1 in
    let ruled = (evaluate_source_rules i.rules m₂).1 in
    ground (
      arith,
      any-append is_route_call (probe c i m).1 (judged ++ ruled),
      any-append is_route_call judged ruled,
      any-append is_deactivation (probe c i m).1 (judged ++ ruled),
      any-append is_deactivation judged ruled,
      evaluate_degraded-routes c i m₁,
      evaluate_source_rules-routes i.rules m₂,
    )

probe-observer :
    (c : Config) (i : Input) (m : Monitor)
    → c.observer_mode ≡ true
    → (any is_route_call (probe c i m).1 ≡ false)
      × ((probe c i m).0.routes_active ≡ m.routes_active)
unfolding probe
probe-observer c i m h = ground arith

probe-kill_switch :
    (c : Config) (i : Input) (m : Monitor)
    → i.kill_switch ≡ true
    → m.routes_active ≡ true
    → (any is_deactivation (probe c i m).1 ≡ false) × ((probe c i m).0.routes_active ≡ true)
unfolding probe
probe-kill_switch c i m h on = ground arith

-- In observer mode the monitor never calls for a change of the routes, and its view of them stays.
pub run-observer :
    (c : Config) (inputs : List Input) (m : Monitor)
    → c.observer_mode ≡ true
    → (any is_route_call (run c inputs m).1 ≡ false)
      × ((run c inputs m).0.routes_active ≡ m.routes_active)
unfolding run
run-observer c [] m h = (refl, refl)
run-observer c (i ∷ inputs) m h =
    let m' = (check_once c i m).0 in
    ground (
      arith,
      any-append is_route_call (check_once c i m).1 (run c inputs m').1,
      check_once-routes c i m,
      probe-observer c i m h,
      run-observer c inputs m' h,
    )

-- With the kill switch on, routes that are up stay up through every outage: no round takes them
-- down, so masked traffic never falls through to the direct path.
pub run-kill_switch :
    (c : Config) (inputs : List Input) (m : Monitor)
    → All (λ i. i.kill_switch ≡ true) inputs
    → m.routes_active ≡ true
    → (any is_deactivation (run c inputs m).1 ≡ false) × ((run c inputs m).0.routes_active ≡ true)
unfolding run
run-kill_switch c [] m h on = (refl, on)
run-kill_switch c (i ∷ inputs) m h on =
    let m' = (check_once c i m).0 in
    ground (
      arith,
      any-append is_deactivation (check_once c i m).1 (run c inputs m').1,
      check_once-routes c i m,
      probe-kill_switch c i m h.0 on,
      run-kill_switch c inputs m' h.1,
    )
