-- ===== src/Warp/Feeds/Unattended.antt =====
-- When a cycle writes the list (services/warp_split_feeds.py).
use vpnbot.Prelude.{
  ◌≡◌, ◌⊎◌, refl, ◌∙◌, String, Bool, true, false, not, ◌||◌, List, Option, none, some, Eq, max, ltb,
  Bool-cases, inl, inr, arith,
}
use vpnbot.Warp.Split.Analysis.{ChangeAnalysis, pure_aggregation, suspicious, identical, is_none}
use vpnbot.Warp.Feeds.{
  Settings, FeedMode, off, review, auto, Decision, Feed, Guard, passes, over_cap, refuses, Helper,
  helper_applied, helper_failed, Run, after_helper, Applied, feed_error, split_error, changed,
  unchanged, lists_eqb, forget_pending, reset_streak, bump_streak, after_guard, apply_computed,
  capture_baseline, reconcile_baseline, analysis, queue, after_apply, apply_plan, confirm, judge,
  guarded, decide, run_mode, run_cycle,
}

-- The list is as it was, or it is what was computed, and the guards let it pass.
abbrev pub IsWritten :
    (List String → Guard) → Option (List String) → List String → List String → Type 0
IsWritten guard computed before after =
    (after ≡ before) ⊎ ((computed ≡ some after) × (guard after ≡ passes))

after_helper-IsWritten :
    {H : Type 0} ⦃e : Eq H⦄ (guard : List String → Guard) (helper : Helper)
    (candidate : List String) (s : Feed H)
    → guard candidate ≡ passes
    → IsWritten guard (some candidate) s.list (after_helper helper candidate s).1.list
after_helper-IsWritten guard helper_applied candidate s e = inr (refl, e)
after_helper-IsWritten guard (helper_failed true) candidate s e = inr (refl, e)
after_helper-IsWritten guard (helper_failed false) candidate s e = inl refl

after_guard-IsWritten :
    {H : Type 0} ⦃e : Eq H⦄ (guard : List String → Guard) (verdict : Guard) (helper : Helper)
    (candidate : List String) (s : Feed H)
    → guard candidate ≡ verdict
    → IsWritten guard (some candidate) s.list (after_guard verdict helper candidate s).1.list
after_guard-IsWritten guard passes helper candidate s e =
    elim (Bool-cases (lists_eqb candidate s.list)) [
      | inl same ↦ rw same (inl refl)
      | inr other ↦ rw other (after_helper-IsWritten guard helper candidate s e)
    ]
after_guard-IsWritten guard over_cap helper candidate s e = inl refl
after_guard-IsWritten guard refuses helper candidate s e = inl refl

pub apply_computed-IsWritten :
    {H : Type 0} ⦃e : Eq H⦄ (run : Run) (computed : Option (List String)) (s : Feed H)
    → IsWritten run.guard computed s.list (apply_computed run computed s).1.list
unfolding apply_computed
apply_computed-IsWritten run none s = inl refl
apply_computed-IsWritten run (some candidate) s = elim (Bool-cases (is_none candidate)) [
  | inl e ↦ rw e (inl refl)
  | inr e ↦ rw e (after_guard-IsWritten run.guard (run.guard candidate) run.helper candidate s refl)
]

module _ {H : Type 0} ⦃e : Eq H⦄ (c : Settings H) where
  abbrev step : Run → Feed H → Option Decision × Feed H
  step run s = run_cycle c run s

  -- What a cycle decides on.
  abbrev pub looked_at : Run → Feed H → Feed H
  looked_at run s = record (reconcile_baseline c s) { stored = run.stored }

  abbrev pub verdict : Run → List String → Feed H → ChangeAnalysis
  verdict run plan s = analysis c run plan (looked_at run s)

  pub reconcile_baseline-list : (s : Feed H) → (reconcile_baseline c s).list ≡ s.list
  unfolding reconcile_baseline capture_baseline
  reconcile_baseline-list s = ground arith

  capture_baseline-list : (s : Feed H) → (capture_baseline c s).list ≡ s.list
  unfolding capture_baseline
  capture_baseline-list s = ground arith

  after_apply-list : (r : Applied) (s : Feed H) → (after_apply c (r, s)).1.list ≡ s.list
  unfolding forget_pending reset_streak
  after_apply-list feed_error s = refl
  after_apply-list split_error s = refl
  after_apply-list changed s = capture_baseline-list s
  after_apply-list unchanged s = capture_baseline-list s

  apply_plan-IsWritten :
      (run : Run) (s : Feed H)
      → IsWritten run.guard run.recomputed s.list (apply_plan c run s).1.list
  unfolding apply_plan
  apply_plan-IsWritten run s =
      let r = apply_computed run run.recomputed s in
      rw (after_apply-list r.0 r.1) (apply_computed-IsWritten run run.recomputed s)

  -- The candidate re-cuts the same space, or was seen often enough.
  abbrev pub is_confirmed : ChangeAnalysis → List String → Feed H → Bool
  is_confirmed a plan s =
      pure_aggregation a
      || not (ltb (bump_streak (c.list_hash plan) s).streak_count (max 1 c.confirm_streak))

  abbrev IsConfirmed : Run → ChangeAnalysis → List String → Feed H → List String → Type 0
  IsConfirmed run a plan s after =
      (after ≡ s.list)
      ⊎ ((is_confirmed a plan s ≡ true)
          × (run.recomputed ≡ some after)
          × (run.guard after ≡ passes))

  confirm-IsConfirmed :
      (run : Run) (a : ChangeAnalysis) (plan : List String) (s : Feed H)
      → IsConfirmed run a plan s (confirm c run a plan s).1.list
  unfolding confirm bump_streak
  confirm-IsConfirmed run a plan s =
      let seen = bump_streak (c.list_hash plan) s in
      elim (Bool-cases (pure_aggregation a)) [
        | inl e ↦ rw e (elim (apply_plan-IsWritten run s) [
          | inl same ↦ inl same
          | inr (found, valid) ↦ inr (refl, found, valid)
        ])
        | inr e ↦ rw e (elim (Bool-cases (ltb seen.streak_count (max 1 c.confirm_streak))) [
          | inl few ↦ rw few (inl refl)
          | inr enough ↦ rw enough (elim (apply_plan-IsWritten run seen) [
            | inl same ↦ inl same
            | inr (found, valid) ↦ inr (refl, found, valid)
          ])
        ])
      ]

  -- What an unattended write takes.
  pub record IsAllowed (run : Run) (s : Feed H) (after plan : List String) : Type 0 where
    pub planned : run.plan ≡ some plan
    pub unattended : c.mode ≡ auto
    pub passed : run.guard plan ≡ passes
    pub clean : suspicious (verdict run plan s) ≡ false
    pub confirmed : is_confirmed (verdict run plan s) plan (looked_at run s) ≡ true
    pub written : run.recomputed ≡ some after
    pub valid : run.guard after ≡ passes

  judge-IsConfirmed :
      (mode : FeedMode) (run : Run) (a : ChangeAnalysis) (plan : List String) (s : Feed H)
      → ((judge c mode run a plan s).1.list ≡ s.list)
        ⊎ ((mode ≡ auto)
            × (suspicious a ≡ false)
            × (is_confirmed a plan s ≡ true)
            × (run.recomputed ≡ some (judge c mode run a plan s).1.list)
            × (run.guard (judge c mode run a plan s).1.list ≡ passes))
  unfolding judge queue
  judge-IsConfirmed off run a plan s = inl refl
  judge-IsConfirmed review run a plan s = inl refl
  judge-IsConfirmed auto run a plan s = elim (Bool-cases (suspicious a)) [
    | inl e ↦ simp e (inl refl)
    | inr e ↦ simp e (elim (confirm-IsConfirmed run a plan s) [
      | inl same ↦ inl same
      | inr (sure, found, valid) ↦ inr (refl, refl, sure, found, valid)
    ])
  ]

  guarded-IsConfirmed :
      (guard : Guard) (run : Run) (a : ChangeAnalysis) (plan : List String) (s : Feed H)
      → ((guarded c guard run a plan s).1.list ≡ s.list)
        ⊎ ((guard ≡ passes)
            × (c.mode ≡ auto)
            × (suspicious a ≡ false)
            × (is_confirmed a plan s ≡ true)
            × (run.recomputed ≡ some (guarded c guard run a plan s).1.list)
            × (run.guard (guarded c guard run a plan s).1.list ≡ passes))
  guarded-IsConfirmed passes run a plan s = elim (judge-IsConfirmed c.mode run a plan s) [
    | inl same ↦ inl same
    | inr (mode, clean, sure, found, valid) ↦ inr (refl, mode, clean, sure, found, valid)
  ]
  guarded-IsConfirmed over_cap run a plan s = inl refl
  guarded-IsConfirmed refuses run a plan s = inl refl

  decide-IsAllowed :
      (run : Run) (s : Feed H) (plan : Option (List String))
      → run.plan ≡ plan
      → ((decide c run plan (looked_at run s)).1.list ≡ (looked_at run s).list)
        ⊎ ((looked : List String) × IsAllowed run s
              (decide c run plan (looked_at run s)).1.list
              looked)
  unfolding decide forget_pending
  decide-IsAllowed run s none e = inl refl
  decide-IsAllowed run s (some plan) e = elim (Bool-cases (identical (verdict run plan s))) [
    | inl same ↦ simp same (inl refl)
    | inr other ↦
        simp other
          (elim (guarded-IsConfirmed (run.guard plan) run (verdict run plan s) plan
            (looked_at run s)) [
              | inl same ↦ inl same
              | inr (guard, mode, clean, sure, found, valid) ↦ inr (
                plan,
                record {
                  planned = e;
                  unattended = mode;
                  passed = guard;
                  clean = clean;
                  confirmed = sure;
                  written = found;
                  valid = valid;
                },
              )
            ])
  ]

  run_mode-IsAllowed :
      (mode : FeedMode) (run : Run) (s : Feed H)
      → ((run_mode c mode run s).1.list ≡ s.list)
        ⊎ ((plan : List String) × IsAllowed run s (run_mode c mode run s).1.list plan)
  run_mode-IsAllowed off run s = inl refl
  run_mode-IsAllowed review run s = elim (decide-IsAllowed run s run.plan refl) [
    | inl same ↦ inl (same ∙ reconcile_baseline-list s)
    | inr allowed ↦ inr allowed
  ]
  run_mode-IsAllowed auto run s = elim (decide-IsAllowed run s run.plan refl) [
    | inl same ↦ inl (same ∙ reconcile_baseline-list s)
    | inr allowed ↦ inr allowed
  ]

  -- A cycle leaves the list as it is, unless it runs in auto mode, its merge passed the guards and
  -- every threshold and re-cuts the same space or was seen often enough; then the list is what the
  -- merge under the lock gave, which passed the guards too.
  pub run_cycle-IsAllowed :
      (run : Run) (s : Feed H)
      → ((run_cycle c run s).1.list ≡ s.list)
        ⊎ ((plan : List String) × IsAllowed run s (run_cycle c run s).1.list plan)
  unfolding run_cycle
  run_cycle-IsAllowed run s = run_mode-IsAllowed c.mode run s
