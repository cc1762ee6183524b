-- ===== src/Warp/Feeds/Anchored.antt =====
-- What the baseline describes, and how far one cycle may move the list
-- (services/warp_split_feeds.py, warp/split_analysis.py).
use vpnbot.Prelude.{
  ◌≡◌, refl, ap, ◌∙◌, String, true, false, List, [], ◌∷◌, Option, none, some, Eq, Dict, get,
  string_eq, str_eq, get-put_ne, All, max, ltb, Bool-cases, Option-cases, inl, inr, arith,
}
use vpnbot.Warp.Split.Analysis.{
  Coverage, coverage_of, ChangeAnalysis, suspicious, identical, pure_aggregation, is_none,
}
use vpnbot.Warp.Feeds.{
  Settings, FeedMode, off, review, auto, Feed, Guard, passes, over_cap, refuses, Helper,
  helper_applied, helper_failed, Run, after_helper, Applied, feed_error, split_error, changed,
  unchanged, PendingCandidate, list_scope, lists_eqb, coverages, same_hash, forget_pending,
  reset_streak, bump_streak, after_guard, apply_computed, capture_baseline, reconcile_baseline,
  analysis, queue, after_apply, apply_plan, confirm, judge, guarded, decide, run_mode, run_cycle,
  after_approved, if_approved, apply_waiting, apply_pending,
}
use vpnbot.Warp.Feeds.Unattended.{looked_at}

-- No origin is called as the whole list is, which `validate_source` refuses.
abbrev pub IsUnscoped : Dict String (List String) → Type 0
IsUnscoped stored = All (λ entry. str_eq entry.0 list_scope ≡ false) stored

module _ {H : Type 0} ⦃e : Eq H⦄ (c : Settings H) where
  abbrev pub size : List String → Coverage
  size texts = coverage_of c.network_of texts

  coverages-list :
      (current : List String) (stored : Dict String (List String))
      → IsUnscoped stored
      → get (coverages c current stored) list_scope ≡ some (size current)
  unfolding get
  coverages-list current [] h = refl
  coverages-list current ((origin, prefixes) ∷ stored) h =
      get-put_ne (coverages c current stored) origin list_scope (size prefixes) h.0
      ∙ coverages-list current stored h.1

  -- The baseline of the list, if there is one, is that of a list with the stored hash.
  abbrev pub IsBaseline : Option H → Dict String Coverage → Type 0
  IsBaseline none baselines = Unit
  IsBaseline (some h) baselines =
      (texts : List String) × (h ≡ c.list_hash texts)
      × (get baselines list_scope ≡ some (size texts))

  abbrev pub IsAnchored : Feed H → Type 0
  IsAnchored s = IsUnscoped s.stored × IsBaseline s.baseline_hash s.baselines

  capture_baseline-IsAnchored : (s : Feed H) → IsAnchored s → IsAnchored (capture_baseline c s)
  unfolding capture_baseline
  capture_baseline-IsAnchored s h = elim (Bool-cases (is_none s.list)) [
    | inl e ↦ rw e h
    | inr e ↦ rw e (h.0, (s.list, refl, coverages-list s.list s.stored h.0))
  ]

  reconcile_baseline-IsAnchored : (s : Feed H) → IsAnchored s → IsAnchored (reconcile_baseline c s)
  unfolding reconcile_baseline capture_baseline
  reconcile_baseline-IsAnchored s h = elim (Bool-cases (is_none s.list)) [
    | inl e ↦ rw e h
    | inr e ↦ rw e (elim (Bool-cases (same_hash s.baseline_hash (c.list_hash s.list))) [
      | inl f ↦ simp f h
      | inr f ↦ simp f (h.0, (s.list, refl, coverages-list s.list s.stored h.0))
    ])
  ]

  same_hash_sound : (stored : Option H) (h : H) → same_hash stored h ≡ true → stored ≡ some h
  same_hash_sound none h same = ground (arith, same)
  same_hash_sound (some stored) h same = ap some ((e.beq_iff stored h).0 same)

  -- What is looked at by a cycle over a list that is there has the hash of that list.
  pub reconcile_baseline-hash :
      (s : Feed H)
      → is_none s.list ≡ false
      → (reconcile_baseline c s).baseline_hash ≡ some (c.list_hash s.list)
  unfolding reconcile_baseline capture_baseline
  reconcile_baseline-hash s h =
      rw h (elim (Bool-cases (same_hash s.baseline_hash (c.list_hash s.list))) [
        | inl f ↦ simp f (same_hash_sound s.baseline_hash (c.list_hash s.list) f)
        | inr f ↦ simp f refl
      ])

  after_apply-IsAnchored :
      (r : Applied) (s : Feed H) → IsAnchored s → IsAnchored (after_apply c (r, s)).1
  unfolding forget_pending reset_streak
  after_apply-IsAnchored feed_error s h = h
  after_apply-IsAnchored split_error s h = h
  after_apply-IsAnchored changed s h = capture_baseline-IsAnchored s h
  after_apply-IsAnchored unchanged s h = capture_baseline-IsAnchored s h

  after_helper-IsAnchored :
      (helper : Helper) (candidate : List String) (s : Feed H)
      → IsAnchored s
      → IsAnchored (after_helper helper candidate s).1
  after_helper-IsAnchored helper_applied candidate s h = h
  after_helper-IsAnchored (helper_failed left) candidate s h = h

  after_guard-IsAnchored :
      (guard : Guard) (helper : Helper) (candidate : List String) (s : Feed H)
      → IsAnchored s
      → IsAnchored (after_guard guard helper candidate s).1
  after_guard-IsAnchored passes helper candidate s h =
      elim (Bool-cases (lists_eqb candidate s.list)) [
        | inl same ↦ simp same h
        | inr other ↦ simp other (after_helper-IsAnchored helper candidate s h)
      ]
  after_guard-IsAnchored over_cap helper candidate s h = h
  after_guard-IsAnchored refuses helper candidate s h = h

  pub apply_computed-IsAnchored :
      (run : Run) (computed : Option (List String)) (s : Feed H)
      → IsAnchored s
      → IsAnchored (apply_computed run computed s).1
  unfolding apply_computed
  apply_computed-IsAnchored run none s h = h
  apply_computed-IsAnchored run (some candidate) s h = elim (Bool-cases (is_none candidate)) [
    | inl e ↦ simp e h
    | inr e ↦ simp e (after_guard-IsAnchored (run.guard candidate) run.helper candidate s h)
  ]

  apply_plan-IsAnchored :
      (run : Run) (s : Feed H) → IsAnchored s → IsAnchored (apply_plan c run s).1
  unfolding apply_plan
  apply_plan-IsAnchored run s h =
      let r = apply_computed run run.recomputed s in
      after_apply-IsAnchored r.0 r.1 (apply_computed-IsAnchored run run.recomputed s h)

  confirm-IsAnchored :
      (run : Run) (a : ChangeAnalysis) (plan : List String) (s : Feed H)
      → IsAnchored s
      → IsAnchored (confirm c run a plan s).1
  unfolding confirm bump_streak
  confirm-IsAnchored run a plan s h =
      let seen = bump_streak (c.list_hash plan) s in
      elim (Bool-cases (pure_aggregation a)) [
        | inl e ↦ rw e (apply_plan-IsAnchored run s h)
        | inr e ↦ rw e (elim (Bool-cases (ltb seen.streak_count (max 1 c.confirm_streak))) [
          | inl few ↦ rw few h
          | inr enough ↦ rw enough (apply_plan-IsAnchored run seen h)
        ])
      ]

  judge-IsAnchored :
      (mode : FeedMode) (run : Run) (a : ChangeAnalysis) (plan : List String) (s : Feed H)
      → IsAnchored s
      → IsAnchored (judge c mode run a plan s).1
  unfolding judge queue
  judge-IsAnchored off run a plan s h = h
  judge-IsAnchored review run a plan s h = h
  judge-IsAnchored auto run a plan s h = elim (Bool-cases (suspicious a)) [
    | inl e ↦ simp e h
    | inr e ↦ simp e (confirm-IsAnchored run a plan s h)
  ]

  guarded-IsAnchored :
      (guard : Guard) (run : Run) (a : ChangeAnalysis) (plan : List String) (s : Feed H)
      → IsAnchored s
      → IsAnchored (guarded c guard run a plan s).1
  guarded-IsAnchored passes run a plan s h = judge-IsAnchored c.mode run a plan s h
  guarded-IsAnchored over_cap run a plan s h = h
  guarded-IsAnchored refuses run a plan s h = h

  decide-IsAnchored :
      (run : Run) (plan : Option (List String)) (s : Feed H)
      → IsAnchored s
      → IsAnchored (decide c run plan s).1
  unfolding decide forget_pending
  decide-IsAnchored run none s h = h
  decide-IsAnchored run (some plan) s h = elim (Bool-cases (identical (analysis c run plan s))) [
    | inl same ↦ simp same h
    | inr other ↦
        simp other (guarded-IsAnchored (run.guard plan) run (analysis c run plan s) plan s h)
  ]

  pub looked_at-IsAnchored :
      (run : Run) (s : Feed H)
      → IsUnscoped run.stored
      → IsAnchored s
      → IsAnchored (looked_at c run s)
  looked_at-IsAnchored run s unscoped h = (unscoped, (reconcile_baseline-IsAnchored s h).1)

  run_mode-IsAnchored :
      (mode : FeedMode) (run : Run) (s : Feed H)
      → IsUnscoped run.stored
      → IsAnchored s
      → IsAnchored (run_mode c mode run s).1
  run_mode-IsAnchored off run s u h = h
  run_mode-IsAnchored review run s u h =
      decide-IsAnchored run run.plan (looked_at c run s) (looked_at-IsAnchored run s u h)
  run_mode-IsAnchored auto run s u h =
      decide-IsAnchored run run.plan (looked_at c run s) (looked_at-IsAnchored run s u h)

  pub run_cycle-IsAnchored :
      (run : Run) (s : Feed H)
      → IsUnscoped run.stored
      → IsAnchored s
      → IsAnchored (run_cycle c run s).1
  unfolding run_cycle
  run_cycle-IsAnchored run s u h = run_mode-IsAnchored c.mode run s u h

  after_approved-IsAnchored :
      (r : Applied) (s : Feed H) → IsAnchored s → IsAnchored (after_approved c (r, s)).1
  unfolding forget_pending reset_streak
  after_approved-IsAnchored feed_error s h = h
  after_approved-IsAnchored split_error s h = h
  after_approved-IsAnchored changed s h = capture_baseline-IsAnchored s h
  after_approved-IsAnchored unchanged s h = capture_baseline-IsAnchored s h

  apply_waiting-IsAnchored :
      (run : Run) (waiting : Option (PendingCandidate H)) (s : Feed H)
      → IsAnchored s
      → IsAnchored (apply_waiting c run waiting s).1
  apply_waiting-IsAnchored run none s h = h
  apply_waiting-IsAnchored run (some waiting) s h =
      elim (Option-cases (if_approved c waiting.list_hash run.plan)) [
        | inl e ↦ simp e h
        | inr (plan, e) ↦
            let computed = if_approved c waiting.list_hash run.recomputed in
            let r = apply_computed run computed s in
            simp e (after_approved-IsAnchored r.0 r.1 (apply_computed-IsAnchored run computed s h))
      ]

  pub apply_pending-IsAnchored :
      (run : Run) (s : Feed H) → IsAnchored s → IsAnchored (apply_pending c run s).1
  unfolding apply_pending
  apply_pending-IsAnchored run s h = apply_waiting-IsAnchored run s.pending s h
