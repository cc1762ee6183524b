-- ===== src/Warp/Feeds/Commands.antt =====
-- Any history of cycles, approvals, refusals, applies and edits of the list
-- (services/warp_split_feeds.py), and how far the next cycle may move it.
use vpnbot.Prelude.{
  ◌+◌, ◌*◌, ◌≤◌, ◌<◌, ◌≡◌, sym, ap, ◌∙◌, String, false, List, [], ◌∷◌, Option, none, some, Eq, All,
  Dict, string_eq, get, leb→le, ◌==◌, ==_iff, Bool-cases, inl, inr, arith,
}
use mathlib.Core.Option.{some-injective}
use std.Path.{subst}
use vpnbot.Warp.Split.Analysis.{Coverage, suspicious, is_none}
use vpnbot.Warp.Split.Analysis.Safe.{IsWithin, analyse_change-IsSafe}
use vpnbot.Warp.Feeds.{
  Settings, Feed, Run, list_scope, run_cycle, apply_computed, apply_pending, reject_pending,
}
use vpnbot.Warp.Feeds.Unattended.{looked_at, verdict, run_cycle-IsAllowed}
use vpnbot.Warp.Feeds.Anchored.{
  IsUnscoped, size, IsBaseline, IsAnchored, reconcile_baseline-hash, looked_at-IsAnchored,
  run_cycle-IsAnchored, apply_computed-IsAnchored, apply_pending-IsAnchored,
}

-- What moves the state: a cycle, an approval or a refusal of what waits, the merge that follows an
-- admin's edit of the sources, and an edit of the list or of the stored prefixes past the service.
pub data Command : Type 0 where
  cycle approve publish : Run → Command
  decline : Command
  edit : List String → Dict String (List String) → Command

abbrev pub IsSound : Command → Type 0
IsSound (cycle run) = IsUnscoped run.stored
IsSound (approve run) = Unit
IsSound (publish run) = Unit
IsSound decline = Unit
IsSound (edit list stored) = IsUnscoped stored

module _ {H : Type 0} ⦃e : Eq H⦄ (c : Settings H) where
  unfoldable pub perform : Command → Feed H → Feed H
  perform (cycle run) s = (run_cycle c run s).1
  perform (approve run) s = (apply_pending c run s).1
  perform (publish run) s = (apply_computed run run.recomputed s).1
  perform decline s = reject_pending c s
  perform (edit list stored) s = record s { list = list; stored = stored }

  unfoldable pub perform_all : List Command → Feed H → Feed H
  unfolding perform
  perform_all [] s = s
  perform_all (command ∷ commands) s = perform_all commands (perform command s)

  perform-IsAnchored :
      (command : Command) (s : Feed H)
      → IsSound command
      → IsAnchored c s
      → IsAnchored c (perform command s)
  unfolding perform reject_pending
  perform-IsAnchored (cycle run) s sound h = run_cycle-IsAnchored c run s sound h
  perform-IsAnchored (approve run) s sound h = apply_pending-IsAnchored c run s h
  perform-IsAnchored (publish run) s sound h = apply_computed-IsAnchored c run run.recomputed s h
  perform-IsAnchored decline s sound h = h
  perform-IsAnchored (edit list stored) s sound h = (sound, h.1)

  perform_all-IsAnchored :
      (commands : List Command) (s : Feed H)
      → All IsSound commands
      → IsAnchored c s
      → IsAnchored c (perform_all commands s)
  unfolding perform_all
  perform_all-IsAnchored [] s sound h = h
  perform_all-IsAnchored (command ∷ commands) s sound h =
      perform_all-IsAnchored commands (perform command s) sound.1
        (perform-IsAnchored command s sound.0 h)

  -- The two lists differ in nothing that is measured when their hashes agree.
  abbrev pub IsHashed : List String → Type 0
  IsHashed current =
      (texts : List String)
      → c.list_hash texts ≡ c.list_hash current
      → size c texts ≡ size c current

  -- A list that grows by no more than the share allowed.
  abbrev pub IsGrowth : List String → List String → Type 0
  IsGrowth before after =
      100 * (size c after).addresses
      ≤ 100 * (size c before).addresses + c.thresholds.max_growth_pct * (size c before).addresses

  within-IsGrowth :
      (baseline : Option Coverage) (before after : List String)
      → baseline ≡ some (size c before)
      → 0 < (size c before).addresses
      → IsWithin c.thresholds baseline (size c after).addresses
      → IsGrowth before after
  within-IsGrowth none before after found positive h = ground (arith, found)
  within-IsGrowth (some baseline) before after found positive h =
      let b = size c before in
      let n = (size c after).addresses in
      let within : IsWithin c.thresholds (some b) n =
        subst (λ other. IsWithin c.thresholds (some other) n) (some-injective _ _ found) h in
      elim (Bool-cases (b.addresses == 0)) [
        | inl e ↦ grind (arith, e, ==_iff, positive)
        | inr e ↦
            leb→le (100 * n) (100 * b.addresses + c.thresholds.max_growth_pct * b.addresses) ground
              (arith, within, e)
      ]

  baseline_of :
      (h : Option H) (baselines : Dict String Coverage) (current : List String)
      → IsHashed current
      → h ≡ some (c.list_hash current)
      → IsBaseline c h baselines
      → get baselines list_scope ≡ some (size c current)
  baseline_of none baselines current hashed e b = ground (arith, e)
  baseline_of (some h) baselines current hashed e (texts, same, found) =
      found ∙ ap some (hashed texts (sym same ∙ some-injective _ _ e))

  looked_at-list :
      (run : Run) (s : Feed H)
      → is_none s.list ≡ false
      → IsHashed s.list
      → IsUnscoped run.stored
      → IsAnchored c s
      → get (looked_at c run s).baselines list_scope ≡ some (size c s.list)
  looked_at-list run s there hashed u h =
      baseline_of (looked_at c run s).baseline_hash (looked_at c run s).baselines s.list hashed
        (reconcile_baseline-hash c s there) (looked_at-IsAnchored c run s u h).1

  clean-IsGrowth :
      (run : Run) (s : Feed H) (plan : List String)
      → get (looked_at c run s).baselines list_scope ≡ some (size c s.list)
      → 0 < (size c s.list).addresses
      → suspicious (verdict c run plan s) ≡ false
      → IsGrowth s.list plan
  clean-IsGrowth run s plan found positive clean =
      within-IsGrowth (get (looked_at c run s).baselines list_scope) s.list plan found positive
        (analyse_change-IsSafe c.network_of c.thresholds list_scope (looked_at c run s).list plan
          run.sources (looked_at c run s).baselines clean).1

  stays-IsGrowth : (current : List String) → IsGrowth current current
  stays-IsGrowth current = omega arith

  -- After any history, from a start without a baseline, of cycles, approvals, refusals, applies and
  -- edits in which no source or stored origin is called `list`, a cycle over a list that is there
  -- and holds addresses leaves one that holds at most the configured share more: if the merge under
  -- the lock is the one that the cycle looked at, and lists with the hash of this one are as large.
  pub perform_all-IsGrowth :
      (commands : List Command) (s : Feed H) (run : Run)
      → s.baseline_hash ≡ none
      → IsUnscoped s.stored
      → All IsSound commands
      → IsUnscoped run.stored
      → run.recomputed ≡ run.plan
      → is_none (perform_all commands s).list ≡ false
      → 0 < (size c (perform_all commands s).list).addresses
      → IsHashed (perform_all commands s).list
      → IsGrowth (perform_all commands s).list (run_cycle c run (perform_all commands s)).1.list
  perform_all-IsGrowth commands s run fresh u sound v same there positive hashed =
      let after = perform_all commands s in
      let anchored =
        perform_all-IsAnchored commands s sound
          (u, subst (λ h. IsBaseline c h s.baselines) (sym fresh) tt) in
      elim (run_cycle-IsAllowed c run after) [
        | inl e ↦ subst (IsGrowth after.list) (sym e) (stays-IsGrowth after.list)
        | inr (plan, allowed) ↦
            let planned : (run_cycle c run after).1.list ≡ plan =
              some-injective _ _ (sym allowed.written ∙ same ∙ allowed.planned) in
            subst (IsGrowth after.list) (sym planned) (
              clean-IsGrowth run after plan (looked_at-list run after there hashed v anchored)
                positive allowed.clean)
      ]
