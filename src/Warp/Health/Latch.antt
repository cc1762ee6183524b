-- ===== src/Warp/Health/Latch.antt =====
-- The tunnel latch (warp/health.py): it goes down after a full window of nothing but failed
-- probes and not before, and up after a full window of nothing but answered ones.
use vpnbot.Prelude.{
  ℕ, ◌+◌, ◌≤◌, ◌≡◌, ◌↔◌, refl, Bool, true, false, not, ◌&&◌, List, [], ◌∷◌, ◌++◌, Option, none,
  some, any, any-append, or_default, if◌then◌else◌, arith, inl, inr, Bool-cases, Option-cases,
}
use vpnbot.Warp.Health.{
  Event, tunnel_down, tunnel_recovered, Config, Monitor, Input, init, elapsed, probe,
  judge_degraded, evaluate_degraded, evaluate_source_rules, check_once,
}

abbrev pub is_down : Event → Bool
is_down tunnel_down = true
is_down _ = false

abbrev pub is_recovered : Event → Bool
is_recovered tunnel_recovered = true
is_recovered _ = false

-- The monitor after the rounds of a history, the newest round first.
unfoldable pub after : Config → List Input → Monitor
unfolding check_once
after c [] = init true
after c (i ∷ history) = (check_once c i (after c history)).0

-- Every probe from the one at time `t` to the newest one had this outcome.
pub data StreakFrom (outcome : Bool) (t : ℕ) : List Input → Type 0 where
  start :
      (i : Input) (history : List Input)
      → i.ok ≡ outcome
      → i.now ≡ t
      → StreakFrom outcome t (i ∷ history)
  more :
      (i : Input) (history : List Input)
      → i.ok ≡ outcome
      → StreakFrom outcome t history
      → StreakFrom outcome t (i ∷ history)

abbrev same : Bool → Bool → Bool
same true b = b
same false b = not b

same-eq : (a b : Bool) → same a b ≡ true → b ≡ a
same-eq true b h = h
same-eq false true h = ground arith
same-eq false false h = refl

same_complete : (a b : Bool) → b ≡ a → same a b ≡ true
same_complete true b h = h
same_complete false b h = ground arith

-- The clock does not run backwards.
abbrev pub IsMonotone : List Input → Type 0
IsMonotone [] = Unit
IsMonotone (i ∷ []) = Unit
IsMonotone (i ∷ j ∷ history) = (j.now ≤ i.now) × IsMonotone (j ∷ history)

IsMonotone-tail : (i : Input) (history : List Input) → IsMonotone (i ∷ history) → IsMonotone history
IsMonotone-tail i [] mono = tt
IsMonotone-tail i (j ∷ history) mono = mono.1

module _ (m : Monitor) where
  judge_degraded-silent :
      (lost total : ℕ)
      → (any is_down (judge_degraded lost total m).1 ≡ false)
        × (any is_recovered (judge_degraded lost total m).1 ≡ false)
        × ((judge_degraded lost total m).0.fail_since ≡ m.fail_since)
        × ((judge_degraded lost total m).0.success_since ≡ m.success_since)
        × ((judge_degraded lost total m).0.healthy ≡ m.healthy)
  unfolding judge_degraded
  judge_degraded-silent lost total = ground arith

  evaluate_source_rules-silent :
      (rules : Option (Option Bool))
      → (any is_down (evaluate_source_rules rules m).1 ≡ false)
        × (any is_recovered (evaluate_source_rules rules m).1 ≡ false)
        × ((evaluate_source_rules rules m).0.fail_since ≡ m.fail_since)
        × ((evaluate_source_rules rules m).0.success_since ≡ m.success_since)
        × ((evaluate_source_rules rules m).0.healthy ≡ m.healthy)
  unfolding evaluate_source_rules
  evaluate_source_rules-silent none = ground arith
  evaluate_source_rules-silent (some none) = ground arith
  evaluate_source_rules-silent (some (some true)) = ground arith
  evaluate_source_rules-silent (some (some false)) = ground arith

module _ (c : Config) (i : Input) where
  evaluate_degraded-silent :
      (m : Monitor)
      → (any is_down (evaluate_degraded c i m).1 ≡ false)
        × (any is_recovered (evaluate_degraded c i m).1 ≡ false)
        × ((evaluate_degraded c i m).0.fail_since ≡ m.fail_since)
        × ((evaluate_degraded c i m).0.success_since ≡ m.success_since)
        × ((evaluate_degraded c i m).0.healthy ≡ m.healthy)
  unfolding evaluate_degraded
  evaluate_degraded-silent m = ground arith

-- The latch and its markers are the probe's: the detectors leave them alone.
check_once-probe :
    (c : Config) (i : Input) (m : Monitor)
    → (any is_down (check_once c i m).1 ≡ any is_down (probe c i m).1)
      × (any is_recovered (check_once c i m).1 ≡ any is_recovered (probe c i m).1)
      × ((check_once c i m).0.fail_since ≡ (probe c i m).0.fail_since)
      × ((check_once c i m).0.success_since ≡ (probe c i m).0.success_since)
      × ((check_once c i m).0.healthy ≡ (probe c i m).0.healthy)
unfolding check_once
check_once-probe c i m =
    let m₁ = (probe c i m).0 in
    let m₂ = (evaluate_degraded c i m₁).0 in
    let judged = (evaluate_degraded c i m₁).1 in
    let ruled = (evaluate_source_rules i.rules m₂).1 in
    ground (
      arith,
      any-append is_down (probe c i m).1 (judged ++ ruled),
      any-append is_down judged ruled,
      any-append is_recovered (probe c i m).1 (judged ++ ruled),
      any-append is_recovered judged ruled,
      evaluate_degraded-silent c i m₁,
      evaluate_source_rules-silent m₂ i.rules,
    )

module _ (c : Config) (i : Input) (m : Monitor) where
  -- What the probe does to the markers, and when it reports a crossing.
  probe_lem :
      ((probe c i m).0.fail_since ≡ (if i.ok then none else some (or_default m.fail_since i.now)))
      × ((probe c i m).0.success_since
          ≡ (if i.ok then some (or_default m.success_since i.now) else none))
      × (any is_down (probe c i m).1
          ≡ (not i.ok && m.healthy && elapsed i.now (or_default m.fail_since i.now) c.fail_window))
      × (any is_recovered (probe c i m).1 ≡ (
          i.ok
          && not m.healthy
          && elapsed i.now (or_default m.success_since i.now) c.recover_window))
  unfolding probe
  probe_lem = ground arith

-- The marker of one outcome.
abbrev marker : Bool → Monitor → Option ℕ
marker true m = m.success_since
marker false m = m.fail_since

-- The marker after a round: kept or set by its own outcome, cleared by the other.
marker-check_once :
    (c : Config) (i : Input) (m : Monitor) (outcome : Bool)
    → marker outcome (check_once c i m).0
      ≡ (if same outcome i.ok then some (or_default (marker outcome m) i.now) else none)
marker-check_once c i m true = ground (arith, check_once-probe c i m, probe_lem c i m)
marker-check_once c i m false = ground (arith, check_once-probe c i m, probe_lem c i m)

marker_is_streak :
    (c : Config) (outcome : Bool) (history : List Input) (t : ℕ)
    → marker outcome (after c history) ≡ some t
    → StreakFrom outcome t history
unfolding after
marker_is_streak c true [] t e = cc
marker_is_streak c false [] t e = cc
marker_is_streak c outcome (i ∷ history) t e =
    let step = marker-check_once c i (after c history) outcome in
    elim (Bool-cases (same outcome i.ok)) [
      | inr other ↦ absurd (ground arith)
      | inl agrees ↦ elim (Option-cases (marker outcome (after c history))) [
        | inl fresh ↦ start i history (same-eq outcome i.ok agrees) (ground arith)
        | inr (s, known) ↦
            more i history (same-eq outcome i.ok agrees)
              (marker_is_streak c outcome history t (ground arith))
      ]
    ]

-- A marker lies in the past.
marker_le_newest :
    (c : Config) (outcome : Bool) (i : Input) (history : List Input) (s : ℕ)
    → IsMonotone (i ∷ history)
    → marker outcome (after c history) ≡ some s
    → s ≤ i.now
unfolding after
marker_le_newest c true i [] s mono e = cc
marker_le_newest c false i [] s mono e = cc
marker_le_newest c outcome i (j ∷ history) s mono e =
    let step = marker-check_once c j (after c history) outcome in
    elim (Option-cases (marker outcome (after c history))) [
      | inl fresh ↦ ground arith
      | inr (u, known) ↦
          let bound = marker_le_newest c outcome j history u mono.1 known in ground arith
    ]

-- The marker stands at the first probe of the streak.
marker_le_streak :
    (c : Config) (outcome : Bool) (t : ℕ) {history : List Input}
    → StreakFrom outcome t history
    → IsMonotone history
    → (s : ℕ) × (marker outcome (after c history) ≡ some s) × (s ≤ t)
unfolding after
marker_le_streak c outcome t (start i history e n) mono =
    let step = marker-check_once c i (after c history) outcome in
    let agrees = same_complete outcome i.ok e in
    elim (Option-cases (marker outcome (after c history))) [
      | inl fresh ↦ (i.now, ground arith, ground arith)
      | inr (u, known) ↦
          let bound = marker_le_newest c outcome i history u mono known in
          (u, ground arith, ground arith)
    ]
marker_le_streak c outcome t (more i history e streak) mono =
    let step = marker-check_once c i (after c history) outcome in
    let agrees = same_complete outcome i.ok e in
    let (s, known, le) = marker_le_streak c outcome t streak (IsMonotone-tail i history mono) in
    (s, ground arith, le)

abbrev pub HasWindow : Bool → ℕ → Input → List Input → Type 0
HasWindow outcome window i history =
    (t : ℕ) × StreakFrom outcome t (i ∷ history) × (t + window ≤ i.now)

module _ (c : Config) (i : Input) (history : List Input) (mono : IsMonotone (i ∷ history)) where
  window_of_marker :
      (outcome : Bool) (window : ℕ)
      → same outcome i.ok ≡ true
      → elapsed i.now (or_default (marker outcome (after c history)) i.now) window ≡ true
      → HasWindow outcome window i history
  unfolding after
  window_of_marker outcome window agrees long =
      let s = or_default (marker outcome (after c history)) i.now in
      let step = marker-check_once c i (after c history) outcome in
      (s, marker_is_streak c outcome (i ∷ history) s (ground arith), ground arith)

  marker_of_window :
      (outcome : Bool) (window : ℕ)
      → HasWindow outcome window i history
      → (same outcome i.ok ≡ true)
        × (elapsed i.now (or_default (marker outcome (after c history)) i.now) window ≡ true)
  unfolding after
  marker_of_window outcome window (t, streak, long) =
      let (s, known, le) = marker_le_streak c outcome t streak mono in
      let step = marker-check_once c i (after c history) outcome in ground arith

  -- The tunnel is reported down in a round exactly if it was up before, and every probe of the
  -- last `fail_window` has failed.
  pub tunnel_down_iff :
      (any is_down (check_once c i (after c history)).1 ≡ true)
      ↔ (((after c history).healthy ≡ true) × HasWindow false c.fail_window i history)
  tunnel_down_iff =
      let m = after c history in
      let crossing = check_once-probe c i m in
      let parts = probe_lem c i m in
      (
        λ h. (ground arith, window_of_marker false c.fail_window (ground arith) (ground arith)),
        λ h. ground (arith, marker_of_window false c.fail_window h.1),
      )

  -- The tunnel is reported up again in a round exactly if it was down before, and every probe of
  -- the last `recover_window` was answered.
  pub tunnel_recovered_iff :
      (any is_recovered (check_once c i (after c history)).1 ≡ true)
      ↔ (((after c history).healthy ≡ false) × HasWindow true c.recover_window i history)
  tunnel_recovered_iff =
      let m = after c history in
      let crossing = check_once-probe c i m in
      let parts = probe_lem c i m in
      (
        λ h. (ground arith, window_of_marker true c.recover_window (ground arith) (ground arith)),
        λ h. ground (arith, marker_of_window true c.recover_window h.1),
      )
