-- ===== src/Warp/Feeds.antt =====
-- The unattended cycle of the prefix feeds and the queue of approvals
-- (services/warp_split_feeds.py), with what it uses of warp/split_manager.py.
--
-- `list` is what the manager reads of its file, which stands as it was rendered. A helper that fails
-- may have written the new list, which stands if the manager cannot put the old one back. What the
-- database and the network give during one run is an input: the sources, the merge of the first
-- look, and the merge under the manager's lock. The hash of a list is a parameter, and so is the
-- type `H` of its values; the empty text that resets the streak is `none`. Messages and
-- metrics are left out, and the list that was there before the feeds is adopted already.
pub mod Unattended
pub mod Anchored
pub mod Approved
pub mod Commands
use vpnbot.Prelude.{
  ℕ, suc, ◌+◌, String, Bool, true, false, not, ◌&&◌, List, [], ◌∷◌, ◌++◌, Option, none, some, Eq,
  Dict, get, put, string_eq, str_eq, max, ltb, if◌then◌else◌,
}
use vpnbot.Warp.Split.Net.{Net}
use vpnbot.Warp.Split.Analysis.{
  Thresholds, Coverage, SourceState, Hold, review_mode, ChangeAnalysis, coverage_of, analyse_change,
  identical, pure_aggregation, suspicious, with_hold, is_none,
}

pub data FeedMode : Type 0 where
  off review auto : FeedMode

pub data Decision : Type 0 where
  nochange applied queued rejected failed : Decision

pub record PendingCandidate (H : Type 0) : Type 0 where
  pub list_hash : H
  pub prefixes : List String
  pub holds : List Hold

-- The file, the repository and the two metas of the streak; the journal has its last row first.
pub record Feed (H : Type 0) : Type 0 where
  pub list : List String
  pub stored : Dict String (List String)
  pub baselines : Dict String Coverage
  pub baseline_hash : Option H
  pub pending : Option (PendingCandidate H)
  pub streak_hash : Option H
  pub streak_count : ℕ
  pub journal : List Decision

-- `check_candidate`: passed, over the cap, or refused for another reason.
pub data Guard : Type 0 where
  passes over_cap refuses : Guard

-- The helper of an apply; one that fails, or does not answer, says here whether the new list is left:
-- it was written, and the list before it was blank or could not be put back.
pub data Helper : Type 0 where
  helper_applied : Helper
  helper_failed : Bool → Helper

-- `none` is a merge that raises.
pub record Run : Type 0 where
  pub stored : Dict String (List String)
  pub sources : List SourceState
  pub plan : Option (List String)
  pub recomputed : Option (List String)
  pub guard : List String → Guard
  pub helper : Helper

-- What an apply ends in: a WarpFeedError, another WarpSplitError, or whether the file changed.
pub data Applied : Type 0 where
  feed_error split_error : Applied
  changed unchanged : Applied

abbrev pub list_scope : String
list_scope = "list"

abbrev pub lists_eqb : List String → List String → Bool
lists_eqb [] [] = true
lists_eqb [] (y ∷ ys) = false
lists_eqb (x ∷ xs) [] = false
lists_eqb (x ∷ xs) (y ∷ ys) = str_eq x y && lists_eqb xs ys

module _ {H : Type 0} ⦃e : Eq H⦄ where
  abbrev pub same_hash : Option H → H → Bool
  same_hash none h = false
  same_hash (some stored) h = e.beq stored h

  abbrev pub record_run : Decision → Feed H → Option Decision × Feed H
  record_run decision s = (some decision, record s { journal = decision ∷ s.journal })

  unfoldable pub forget_pending : Feed H → Feed H
  forget_pending s = record s { pending = none }

  unfoldable pub reset_streak : Feed H → Feed H
  reset_streak s = record s { streak_hash = none; streak_count = 0 }

  -- `_bump_streak`; the new count is the state's.
  unfoldable pub bump_streak : H → Feed H → Feed H
  bump_streak candidate_hash s = record s {
    streak_hash = some candidate_hash;
    streak_count = if same_hash s.streak_hash candidate_hash then suc s.streak_count else 1;
  }

  -- `_apply_locked`, with the guards of `check_candidate` and the helper.
  abbrev pub after_helper : Helper → List String → Feed H → Applied × Feed H
  after_helper helper_applied candidate s = (changed, record s { list = candidate })
  after_helper (helper_failed left) candidate s =
      (split_error, record s { list = if left then candidate else s.list })

  abbrev pub after_guard : Guard → Helper → List String → Feed H → Applied × Feed H
  after_guard passes helper candidate s =
      if lists_eqb candidate s.list then (unchanged, s) else after_helper helper candidate s
  after_guard over_cap helper candidate s = (feed_error, s)
  after_guard refuses helper candidate s = (split_error, s)

  unfoldable pub apply_locked :
      (List String → Guard) → Helper → List String → Feed H → Applied × Feed H
  apply_locked guard helper candidate s =
      if is_none candidate
      then (split_error, s)
      else after_guard (guard candidate) helper candidate s

  -- `apply_computed`, whose computation may raise.
  unfoldable pub apply_computed : Run → Option (List String) → Feed H → Applied × Feed H
  unfolding apply_locked
  apply_computed run none s = (feed_error, s)
  apply_computed run (some candidate) s = apply_locked run.guard run.helper candidate s

-- The settings, with what reads and what hashes the entries of a list.
pub record Settings (H : Type 0) : Type 0 where
  pub network_of : String → Option Net
  pub list_hash : List String → H
  pub thresholds : Thresholds
  pub mode : FeedMode
  pub confirm_streak : ℕ

module _ {H : Type 0} ⦃e : Eq H⦄ (c : Settings H) where
  abbrev pub coverages : List String → Dict String (List String) → Dict String Coverage
  coverages current [] = (list_scope, coverage_of c.network_of current) ∷ []
  coverages current ((origin, prefixes) ∷ stored) =
      put (coverages current stored) origin (coverage_of c.network_of prefixes)

  unfoldable pub capture_baseline : Feed H → Feed H
  capture_baseline s = if is_none s.list then s else record s {
    baselines = coverages s.list s.stored;
    baseline_hash = some (c.list_hash s.list);
  }

  unfoldable pub reconcile_baseline : Feed H → Feed H
  unfolding capture_baseline
  reconcile_baseline s =
      if is_none s.list
      then s
      else (if same_hash s.baseline_hash (c.list_hash s.list) then s else capture_baseline s)

  abbrev pub analysis : Run → List String → Feed H → ChangeAnalysis
  analysis run plan s =
      analyse_change c.network_of c.thresholds list_scope s.list plan run.sources s.baselines

  unfoldable pub queue : ChangeAnalysis → List String → Feed H → Option Decision × Feed H
  queue a plan s = record_run queued (record s {
    pending = some (record { list_hash = c.list_hash plan; prefixes = plan; holds = a.holds });
  })

  -- What follows `apply_plan` in a cycle.
  abbrev pub after_apply : Applied × Feed H → Option Decision × Feed H
  after_apply (feed_error, s) = record_run rejected s
  after_apply (split_error, s) = (none, s)
  after_apply (changed, s) = record_run applied (forget_pending (reset_streak (capture_baseline s)))
  after_apply (unchanged, s) =
      record_run nochange (forget_pending (reset_streak (capture_baseline s)))

  unfoldable pub apply_plan : Run → Feed H → Option Decision × Feed H
  unfolding apply_computed capture_baseline reset_streak forget_pending
  apply_plan run s = after_apply (apply_computed run run.recomputed s)

  -- A candidate that has passed every check.
  unfoldable pub confirm : Run → ChangeAnalysis → List String → Feed H → Option Decision × Feed H
  unfolding bump_streak apply_plan
  confirm run a plan s =
      let seen = bump_streak (c.list_hash plan) s in
      if pure_aggregation a
      then apply_plan run s
      else (if ltb seen.streak_count (max 1 c.confirm_streak)
          then record_run nochange seen
          else apply_plan run seen)

  -- A candidate that the guards let pass, by the mode.
  unfoldable pub judge :
      FeedMode → Run → ChangeAnalysis → List String → Feed H → Option Decision × Feed H
  unfolding queue confirm
  judge off run a plan s = (some nochange, s)
  judge review run a plan s =
      let hold : Hold = record {
        code = review_mode;
        slug = none;
        pct = (0, 1);
        before = some 0;
        after = 0;
      } in
      queue (with_hold a hold) plan s
  judge auto run a plan s = if suspicious a then queue a plan s else confirm run a plan s

  abbrev pub guarded :
      Guard → Run → ChangeAnalysis → List String → Feed H → Option Decision × Feed H
  guarded passes run a plan s = judge c.mode run a plan s
  guarded _ run a plan s = record_run rejected s

  unfoldable pub decide : Run → Option (List String) → Feed H → Option Decision × Feed H
  unfolding judge forget_pending
  decide run none s = record_run failed s
  decide run (some plan) s =
      let a = analysis run plan s in
      if identical a
      then record_run nochange (forget_pending s)
      else guarded (run.guard plan) run a plan s

  abbrev pub run_mode : FeedMode → Run → Feed H → Option Decision × Feed H
  run_mode off run s = (some nochange, s)
  run_mode _ run s = decide run run.plan (record (reconcile_baseline s) { stored = run.stored })

  -- `run_cycle`; `none` is a run that raises.
  unfoldable pub run_cycle : Run → Feed H → Option Decision × Feed H
  unfolding reconcile_baseline decide
  run_cycle run s = run_mode c.mode run s

  abbrev pub if_approved : H → Option (List String) → Option (List String)
  if_approved approved none = none
  if_approved approved (some plan) = if e.beq (c.list_hash plan) approved then some plan else none

  -- An approval raises, or tells whether the file changed.
  abbrev pub after_approved : Applied × Feed H → Option Bool × Feed H
  after_approved (feed_error, s) = (none, s)
  after_approved (split_error, s) = (none, s)
  after_approved (changed, s) =
      (some true, (record_run applied (reset_streak (forget_pending (capture_baseline s)))).1)
  after_approved (unchanged, s) =
      (some false, (record_run nochange (reset_streak (forget_pending (capture_baseline s)))).1)

  abbrev pub apply_approved : Run → H → Option (List String) → Feed H → Option Bool × Feed H
  apply_approved run approved none s = (none, s)
  apply_approved run approved (some plan) s =
      after_approved (apply_computed run (if_approved approved run.recomputed) s)

  abbrev pub apply_waiting : Run → Option (PendingCandidate H) → Feed H → Option Bool × Feed H
  apply_waiting run none s = (none, s)
  apply_waiting run (some waiting) s =
      apply_approved run waiting.list_hash (if_approved waiting.list_hash run.plan) s

  unfoldable pub apply_pending : Run → Feed H → Option Bool × Feed H
  unfolding apply_computed capture_baseline reset_streak forget_pending
  apply_pending run s = apply_waiting run s.pending s

  unfoldable pub reject_pending : Feed H → Feed H
  reject_pending s = (record_run rejected (record s { pending = none })).1
