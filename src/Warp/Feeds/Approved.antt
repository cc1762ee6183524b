-- ===== src/Warp/Feeds/Approved.antt =====
-- What an approval writes (services/warp_split_feeds.py, apply_pending).
use vpnbot.Prelude.{
  ◌≡◌, ◌⊎◌, ◌↔◌, refl, sym, ap, ◌∙◌, String, Bool, true, false, List, [], ◌∷◌, Option, none, some,
  Eq, string_eq, str_eq, eq_iff, Bool-cases, Option-cases, inl, inr, arith, if◌then◌else◌,
}
use mathlib.Core.Option.{none-ne-some, some-injective}
use std.Path.{subst}
use vpnbot.Warp.Split.Analysis.{is_none}
use vpnbot.Warp.Feeds.{
  Settings, Decision, applied, nochange, Feed, Guard, passes, over_cap, refuses, Helper,
  helper_applied, helper_failed, Run, after_helper, Applied, feed_error, split_error, changed,
  unchanged, PendingCandidate, lists_eqb, forget_pending, reset_streak, after_guard, apply_locked,
  apply_computed, capture_baseline, after_approved, if_approved, apply_waiting, apply_pending,
  record_run, coverages,
}

lists_eqb_sound : (xs ys : List String) → lists_eqb xs ys ≡ true → xs ≡ ys
lists_eqb_sound [] [] h = refl
lists_eqb_sound [] (y ∷ ys) h = ground (arith, h)
lists_eqb_sound (x ∷ xs) [] h = ground (arith, h)
lists_eqb_sound (x ∷ xs) (y ∷ ys) h =
    let parts : (str_eq x y ≡ true) × (lists_eqb xs ys ≡ true) =
      (ground (arith, h), ground (arith, h)) in
    let head : x ≡ y = (eq_iff x y).0 parts.0 in
    let tail = lists_eqb_sound xs ys parts.1 in ap (λ z. z ∷ xs) head ∙ ap (λ zs. y ∷ zs) tail

lists_eqb_refl : (xs : List String) → lists_eqb xs xs ≡ true
lists_eqb_refl [] = refl
lists_eqb_refl (x ∷ xs) = ground (arith, (eq_iff x x).1 refl, lists_eqb_refl xs)

pub lists_eqb_iff : (xs ys : List String) → (lists_eqb xs ys ≡ true) ↔ (xs ≡ ys)
lists_eqb_iff xs ys =
    (lists_eqb_sound xs ys, λ e. subst (λ zs. lists_eqb xs zs ≡ true) e (lists_eqb_refl xs))

module _ {H : Type 0} ⦃e : Eq H⦄ where
  -- What an apply that does not raise leaves: the computed list, which the guards let pass, and
  -- which was there already or was applied by the helper.
  pub record IsApplied (guard : List String → Guard) (helper : Helper)
      (computed : Option (List String)) (s after : Feed H) (written : List String) : Type 0 where
    pub found : computed ≡ some written
    pub valid : guard written ≡ passes
    pub there : is_none written ≡ false
    pub helped : (written ≡ s.list) ⊎ (helper ≡ helper_applied)
    pub left : after ≡ record s { list = written }

  -- What an apply that raises may leave: the new list of a helper that failed.
  pub record IsLeft (guard : List String → Guard) (helper : Helper)
      (computed : Option (List String)) (s after : Feed H) (written : List String) : Type 0 where
    pub found : computed ≡ some written
    pub valid : guard written ≡ passes
    pub stuck : helper ≡ helper_failed true
    pub left : after ≡ record s { list = written }

  abbrev IsEnd :
      (List String → Guard) → Helper → Option (List String) → Feed H → Applied × Feed H → Type 0
  IsEnd guard helper computed s (feed_error, after) = after ≡ s
  IsEnd guard helper computed s (split_error, after) =
      (after ≡ s) ⊎ ((written : List String) × IsLeft guard helper computed s after written)
  IsEnd guard helper computed s (_, after) =
      (written : List String) × IsApplied guard helper computed s after written

  after_helper-IsEnd :
      (guard : List String → Guard) (helper : Helper) (candidate : List String) (s : Feed H)
      → guard candidate ≡ passes
      → is_none candidate ≡ false
      → IsEnd guard helper (some candidate) s (after_helper helper candidate s)
  after_helper-IsEnd guard helper_applied candidate s g there =
      (candidate, record { found = refl; valid = g; there = there; helped = inr refl; left = refl })
  after_helper-IsEnd guard (helper_failed true) candidate s g there =
      inr (candidate, record { found = refl; valid = g; stuck = refl; left = refl })
  after_helper-IsEnd guard (helper_failed false) candidate s g there = inl refl

  after_guard-IsEnd :
      (guard : List String → Guard) (verdict : Guard) (helper : Helper) (candidate : List String)
      (s : Feed H)
      → guard candidate ≡ verdict
      → is_none candidate ≡ false
      → IsEnd guard helper (some candidate) s (after_guard verdict helper candidate s)
  after_guard-IsEnd guard passes helper candidate s g there =
      elim (Bool-cases (lists_eqb candidate s.list)) [
        | inl same ↦
            let e' = lists_eqb_sound candidate s.list same in
            simp same (
              candidate,
              record {
                found = refl;
                valid = g;
                there = there;
                helped = inl e';
                left = ap (λ l. record s { list = l }) (sym e');
              },
            )
        | inr other ↦ simp other (after_helper-IsEnd guard helper candidate s g there)
      ]
  after_guard-IsEnd guard over_cap helper candidate s g there = refl
  after_guard-IsEnd guard refuses helper candidate s g there = inl refl

  apply_computed-IsEnd :
      (run : Run) (computed : Option (List String)) (s : Feed H)
      → IsEnd run.guard run.helper computed s (apply_computed run computed s)
  unfolding apply_computed apply_locked
  apply_computed-IsEnd run none s = refl
  apply_computed-IsEnd run (some candidate) s = elim (Bool-cases (is_none candidate)) [
    | inl e ↦ rw e (inl refl)
    | inr there ↦
        rw there
          (after_guard-IsEnd run.guard (run.guard candidate) run.helper candidate s refl there)
  ]

module _ {H : Type 0} ⦃e : Eq H⦄ (c : Settings H) where
  if_approved-hash :
      (approved : H) (found : Option (List String)) (plan : List String)
      → if_approved c approved found ≡ some plan
      → (found ≡ some plan) × (c.list_hash plan ≡ approved)
  if_approved-hash approved none plan h = ground (arith, h)
  if_approved-hash approved (some found) plan h =
      elim (Bool-cases (e.beq (c.list_hash found) approved)) [
        | inl same ↦
            let named : some found ≡ some plan =
              cc (h, ap (λ b. if b then some found else none) same) in
            (
              named,
              ap c.list_hash (sym (some-injective _ _ named))
                  ∙ (e.beq_iff (c.list_hash found) approved).0 same,
            )
        | inr other ↦
            absurd (none-ne-some plan (cc (h, ap (λ b. if b then some found else none) other)))
      ]

  -- An approval that has gone through.
  pub record IsApproved (run : Run) (s after : Feed H) (waiting : PendingCandidate H) : Type 0 where
    pub asked : s.pending ≡ some waiting
    pub approved : c.list_hash after.list ≡ waiting.list_hash
    pub computed : run.recomputed ≡ some after.list
    pub valid : run.guard after.list ≡ passes
    pub helped : (after.list ≡ s.list) ⊎ (run.helper ≡ helper_applied)
    pub closed : after.pending ≡ none
    pub anchored : after.baseline_hash ≡ some (c.list_hash after.list)
    pub kept : after.stored ≡ s.stored

  -- An approval whose helper failed and left the approved list, with nothing else changed.
  pub record IsStranded (run : Run) (s after : Feed H) (waiting : PendingCandidate H) : Type 0 where
    pub asked : s.pending ≡ some waiting
    pub approved : c.list_hash after.list ≡ waiting.list_hash
    pub computed : run.recomputed ≡ some after.list
    pub valid : run.guard after.list ≡ passes
    pub stuck : run.helper ≡ helper_failed true
    pub rest : after ≡ record s { list = after.list }

  abbrev pub IsRaised : Run → Feed H → Feed H → Type 0
  IsRaised run s after =
      (after ≡ s) ⊎ ((waiting : PendingCandidate H) × IsStranded run s after waiting)

  abbrev pub IsDecided : Run → Feed H → Option Bool × Feed H → Type 0
  IsDecided run s result =
      ((result.0 ≡ none) × IsRaised run s result.1)
      ⊎ ((waiting : PendingCandidate H) × IsApproved run s result.1 waiting)

  capture_baseline-there :
      (s : Feed H)
      → is_none s.list ≡ false
      → capture_baseline c s ≡ record s {
        baselines = coverages c s.list s.stored;
        baseline_hash = some (c.list_hash s.list);
      }
  unfolding capture_baseline
  capture_baseline-there s h = rw h refl

  close :
      (run : Run) (s : Feed H) (waiting : PendingCandidate H) (written : List String)
      (after : Feed H) (ok : Bool) (decision : Decision)
      → s.pending ≡ some waiting
      → IsApplied run.guard run.helper
          (if_approved c waiting.list_hash run.recomputed)
          s
          after
          written
      → IsDecided run s (
        some ok,
        (record_run decision (reset_streak (forget_pending (capture_baseline c after)))).1,
      )
  unfolding reset_streak forget_pending
  close run s waiting written after ok decision asked h =
      let same = if_approved-hash waiting.list_hash run.recomputed written h.found in
      rw h.left (
        rw (capture_baseline-there (record s { list = written }) h.there) (
          inr (
            waiting,
            record {
              asked = asked;
              approved = same.1;
              computed = same.0;
              valid = h.valid;
              helped = h.helped;
              closed = refl;
              anchored = refl;
              kept = refl;
            },
          )))

  strand :
      (run : Run) (s : Feed H) (waiting : PendingCandidate H) (written : List String)
      (after : Feed H)
      → s.pending ≡ some waiting
      → IsLeft run.guard run.helper (if_approved c waiting.list_hash run.recomputed) s after written
      → IsDecided run s (none, after)
  strand run s waiting written after asked h =
      let same = if_approved-hash waiting.list_hash run.recomputed written h.found in
      rw h.left (
        inl (
          refl,
          inr (
            waiting,
            record {
              asked = asked;
              approved = same.1;
              computed = same.0;
              valid = h.valid;
              stuck = h.stuck;
              rest = refl;
            },
          ),
        ))

  after_approved-IsDecided :
      (run : Run) (s : Feed H) (waiting : PendingCandidate H) (r : Applied) (after : Feed H)
      → s.pending ≡ some waiting
      → IsEnd run.guard run.helper (if_approved c waiting.list_hash run.recomputed) s (r, after)
      → IsDecided run s (after_approved c (r, after))
  after_approved-IsDecided run s waiting feed_error after asked h = inl (refl, inl h)
  after_approved-IsDecided run s waiting split_error after asked (inl h) = inl (refl, inl h)
  after_approved-IsDecided run s waiting split_error after asked (inr (written, h)) =
      strand run s waiting written after asked h
  after_approved-IsDecided run s waiting changed after asked (written, h) =
      close run s waiting written after true applied asked h
  after_approved-IsDecided run s waiting unchanged after asked (written, h) =
      close run s waiting written after false nochange asked h

  apply_waiting-IsDecided :
      (run : Run) (s : Feed H) (pending : Option (PendingCandidate H))
      → s.pending ≡ pending
      → IsDecided run s (apply_waiting c run pending s)
  apply_waiting-IsDecided run s none asked = inl (refl, inl refl)
  apply_waiting-IsDecided run s (some waiting) asked =
      elim (Option-cases (if_approved c waiting.list_hash run.plan)) [
        | inl e ↦ rw e (inl (refl, inl refl))
        | inr (plan, e) ↦
            let computed = if_approved c waiting.list_hash run.recomputed in
            let r = apply_computed run computed s in
            rw e (
              after_approved-IsDecided run s waiting r.0 r.1 asked
                (apply_computed-IsEnd run computed s))
      ]

  -- An approval that raises leaves the state as it is, but for the list of a helper that failed
  -- after writing it and could not be undone: that one is the approved list, as the merge under the
  -- lock gave it and the guards let it pass. An approval that does not raise leaves the list whose
  -- hash was approved, as that merge gave it and the guards let it pass, there already or applied
  -- by the helper, with nothing waiting and the baseline at that list.
  pub apply_pending-IsApproved :
      (run : Run) (s : Feed H)
      → (((apply_pending c run s).0 ≡ none) × IsRaised run s (apply_pending c run s).1)
        ⊎ ((waiting : PendingCandidate H) × IsApproved run s (apply_pending c run s).1 waiting)
  unfolding apply_pending
  apply_pending-IsApproved run s = apply_waiting-IsDecided run s s.pending refl
