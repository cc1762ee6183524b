-- ===== src/Access/Revoke/Complete.antt =====
-- The loop ends, and nothing that is still listed then goes without an error
-- (services/users.py).
use vpnbot.Prelude.{
  ℕ, zero, suc, ◌≤◌, ◌<◌, ◌≡◌, refl, inl, inr, Bool, true, false, ◌||◌, List, [], ◌∷◌, Option, some,
  any, keep, length, All, map, ◌==◌, ==_iff, ==_refl, Bool-cases, arith, if◌then◌else◌,
}
use vpnbot.Access.Revoke.{
  stuck, Target, Backend, Run, mem, is_empty, untried, attempt, failure, revoke_pending,
  report_stuck, revoke_all,
}

abbrev pub error_ids : {S : Type 0} → Run S → List ℕ
error_ids run = map (λ e. e.key_id) run.errors

abbrev pub tried : {S : Type 0} → Run S → ℕ → Bool
tried run i = mem i run.succeeded || mem i run.failures

-- How many of these ids were not attempted yet.
abbrev pub left : {S : Type 0} → Run S → List ℕ → ℕ
left run [] = 0
left run (i ∷ ids) = if tried run i then left run ids else suc (left run ids)

pub left-length : {S : Type 0} (run : Run S) (ids : List ℕ) → left run ids ≤ length ids
left-length run [] = omega arith
left-length run (i ∷ ids) = ground (arith, left-length run ids)

module _ {S : Type 0} (backend : Backend S) where
  attempt-tried :
      (target : Target) (run : Run S) (i : ℕ)
      → tried (attempt target run (backend.revoker target.key_type)) i
        ≡ ((target.id == i) || tried run i)
  attempt-tried target run i = ground arith

  revoke_pending-tried :
      (targets : List Target) (run : Run S) (i : ℕ)
      → tried (revoke_pending backend targets run) i ≡ (any (λ t. t.id == i) targets || tried run i)
  unfolding revoke_pending
  revoke_pending-tried [] run i = refl
  revoke_pending-tried (t ∷ targets) run i = ground (
    arith,
    attempt-tried t run i,
    revoke_pending-tried targets (attempt t run (backend.revoker t.key_type)) i,
  )

  -- Every failure has its error.
  abbrev Reported : Run S → Type 0
  Reported run = (i : ℕ) → mem i run.failures ≡ true → mem i (error_ids run) ≡ true

  attempt-Reported :
      (target : Target) (run : Run S)
      → Reported run
      → Reported (attempt target run (backend.revoker target.key_type))
  attempt-Reported target run known i h = ground (arith, known i)

  revoke_pending-Reported :
      (targets : List Target) (run : Run S)
      → Reported run
      → Reported (revoke_pending backend targets run)
  unfolding revoke_pending
  revoke_pending-Reported [] run known = known
  revoke_pending-Reported (t ∷ targets) run known =
      revoke_pending-Reported targets (attempt t run (backend.revoker t.key_type))
        (attempt-Reported t run known)

  report_stuck-keeps :
      (targets : List Target) (run : Run S)
      → ((report_stuck targets run).state ≡ run.state)
        × ((report_stuck targets run).succeeded ≡ run.succeeded)
        × ((report_stuck targets run).failures ≡ run.failures)
        × ((i : ℕ)
            → mem i (error_ids run) ≡ true
            → mem i (error_ids (report_stuck targets run)) ≡ true)
  unfolding report_stuck
  report_stuck-keeps [] run = (refl, refl, refl, λ i h. h)
  report_stuck-keeps (t ∷ targets) run =
      let next =
        if mem t.id run.succeeded
        then record run { errors = failure t stuck ∷ run.errors }
        else run in
      let ih = report_stuck-keeps targets next in ground (arith, ih)

  report_stuck-reports :
      (targets : List Target) (run : Run S)
      → Reported run
      → All (λ t. untried run t ≡ false) targets
      → All (λ t. mem t.id (error_ids (report_stuck targets run)) ≡ true) targets
  unfolding report_stuck
  report_stuck-reports [] run known h = tt
  report_stuck-reports (t ∷ targets) run known h =
      let next =
        if mem t.id run.succeeded
        then record run { errors = failure t stuck ∷ run.errors }
        else run in
      let same : next.succeeded ≡ run.succeeded = ground arith in
      let same' : next.failures ≡ run.failures = ground arith in
      let known' : Reported next = λ i e. ground (arith, known i) in
      let h' : All (λ t. untried next t ≡ false) targets =
        elim (Bool-cases (mem t.id run.succeeded)) [ inl e ↦ rw e h.1 | inr e ↦ rw e h.1 ] in
      let keeps = report_stuck-keeps targets next in
      (keeps.3 t.id ground (arith, known t.id), report_stuck-reports targets next known' h')

-- What is left goes down where something that was left is attempted.
left-antitone :
    {S : Type 0} (run run' : Run S) (ids : List ℕ)
    → ((i : ℕ) → tried run i ≡ true → tried run' i ≡ true)
    → left run' ids ≤ left run ids
left-antitone run run' [] more = omega arith
left-antitone run run' (i ∷ ids) more = ground (arith, more i, left-antitone run run' ids more)

left-decreases :
    {S : Type 0} (run run' : Run S) (ids : List ℕ) (j : ℕ)
    → ((i : ℕ) → tried run i ≡ true → tried run' i ≡ true)
    → mem j ids ≡ true
    → tried run j ≡ false
    → tried run' j ≡ true
    → left run' ids < left run ids
left-decreases run run' [] j more here old new = ground arith
left-decreases run run' (i ∷ ids) j more here old new = elim (Bool-cases (i == j)) [
  | inl same ↦
      let e : i ≡ j = (==_iff i j).0 same in ground (arith, e, left-antitone run run' ids more)
  | inr other ↦ ground (arith, more i, left-decreases run run' ids j more ground arith old new)
]

some_pending :
    (Q : Target → Type 0) (test : Target → Bool) (keys : List Target)
    → All Q keys
    → is_empty (keep test keys) ≡ false
    → (t : Target) × Q t × (test t ≡ true) × (any (λ u. u.id == t.id) (keep test keys) ≡ true)
some_pending Q test [] h e = ground arith
some_pending Q test (k ∷ keys) h e = elim (Bool-cases (test k)) [
  | inl passes ↦ (k, h.0, passes, ground (arith, ==_refl k.id))
  | inr fails ↦
      let (t, q, passes, found) = some_pending Q test keys h.1 ground arith in
      (t, q, passes, ground arith)
]

none_pending :
    (test : Target → Bool) (keys : List Target)
    → is_empty (keep test keys) ≡ true
    → All (λ t. test t ≡ false) keys
none_pending test [] e = tt
none_pending test (k ∷ keys) e = elim (Bool-cases (test k)) [
  | inl passes ↦ ground arith
  | inr fails ↦ (fails, none_pending test keys ground arith)
]

module _ {S : Type 0} (backend : Backend S) (ids : List ℕ)
    (covers : (s : S) → All (λ t. mem t.id ids ≡ true) (backend.listing s)) where
  -- What the loop ends with.
  abbrev pub Complete : Option (Run S) → Type 0
  Complete result =
      (run : Run S) × (result ≡ some run)
      × All (λ t. mem t.id (error_ids run) ≡ true) (backend.listing run.state)

  round_progress :
      (run : Run S)
      → is_empty (keep (untried run) (backend.listing run.state)) ≡ false
      → left (revoke_pending backend (keep (untried run) (backend.listing run.state)) run) ids
        < left run ids
  round_progress run e =
      let pending = keep (untried run) (backend.listing run.state) in
      let (t, here, passes, found) =
        some_pending (λ t. mem t.id ids ≡ true) (untried run) (backend.listing run.state)
          (covers run.state) e in
      left-decreases run (revoke_pending backend pending run) ids t.id
        (λ i h. ground (arith, revoke_pending-tried backend pending run i)) here ground arith ground
        (arith, revoke_pending-tried backend pending run t.id)

  stuck-Complete :
      (run : Run S)
      → Reported backend run
      → is_empty (keep (untried run) (backend.listing run.state)) ≡ true
      → Complete (some (report_stuck (backend.listing run.state) run))
  stuck-Complete run known e =
      let keys = backend.listing run.state in
      let keeps = report_stuck-keeps backend keys run in
      (
        report_stuck keys run,
        refl,
        rw keeps.0
            (report_stuck-reports backend keys run known (none_pending (untried run) keys e)),
      )

  empty-Complete : (run : Run S) → is_empty (backend.listing run.state) ≡ true → Complete (some run)
  empty-Complete run e = (run, refl, nothing (backend.listing run.state) e)
    where
      nothing :
          (keys : List Target)
          → is_empty keys ≡ true
          → All (λ t. mem t.id (error_ids run) ≡ true) keys
      nothing [] e = tt
      nothing (k ∷ keys) e = ground arith

  -- Where every id that is ever listed for the user is among `ids`, the loop ends after at most as
  -- many rounds as there are ids that were not tried, plus one; and every entry that is still
  -- listed then, because its revoker is missing, raised, or left it as it was, has an error with its id.
  pub revoke_all-Complete :
      (fuel : ℕ) (run : Run S)
      → Reported backend run
      → left run ids < fuel
      → Complete (revoke_all backend fuel run)
  unfolding revoke_all
  revoke_all-Complete zero run known enough = ground arith
  revoke_all-Complete (suc fuel) run known enough =
      let keys = backend.listing run.state in
      let pending = keep (untried run) keys in
      elim (Bool-cases (is_empty keys)) [
        | inl e ↦ rw e (empty-Complete run e)
        | inr e ↦ elim (Bool-cases (is_empty pending)) [
          | inl e' ↦ rw (e, e') (stuck-Complete run known e')
          | inr e' ↦
              rw (e, e')
                (revoke_all-Complete fuel (revoke_pending backend pending run)
                  (revoke_pending-Reported backend pending run known) omega
                  (arith, round_progress run e'))
        ]
      ]
