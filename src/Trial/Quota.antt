-- ===== src/Trial/Quota.antt =====
-- One trial for each reset of the quota (services/trial_access.py, repositories/trial_requests.py).
use vpnbot.Prelude.{
  ℕ, ◌+◌, ◌≤◌, ◌≡◌, refl, Bool, true, false, List, [], ◌∷◌, none, some, Dict, get, put, get-put,
  nat_eq, or_default, is_some, ==_iff, arith, if◌then◌else◌, ◌&&◌, ltb, ◌==◌, Option-cases,
  Bool-cases, inl, inr, ◌⊎◌,
}
use vpnbot.Access.World.{Result, ok, err, Error, find_user}
use vpnbot.Keys.Store.{VpnKeyType}
use vpnbot.Trial.Desk.{
  TrialStatus, pending, approved, rejected, TrialKeyRequest, Desk, Issuers, is_pending, counts,
  count_used, reset_of, is_superadmin_user, can_request_trial, approved_request, rejected_request,
  fresh_request, require_superadmin, create, create_trial_request, decide, roll_back,
  approve_trial_request, reject_trial_request, admin_reset_trial_quota,
}
use vpnbot.Trial.Decisions.{approve_trial_request-err}

-- What takes up a user's quota: a trial that is pending or approved, requested in a later second
-- than the last reset.
abbrev pub takes_quota : TrialStatus → Bool
takes_quota pending = true
takes_quota approved = true
takes_quota rejected = false

abbrev pub is_held : ℕ → ℕ → TrialKeyRequest → Bool
is_held user reset_at request =
    takes_quota request.status
    && (ltb reset_at request.requested_at && (request.telegram_user_id == user))

unfoldable pub held_trials : ℕ → ℕ → Dict ℕ TrialKeyRequest → ℕ
held_trials user reset_at [] = 0
held_trials user reset_at ((id, request) ∷ requests) =
    (if is_held user reset_at request then 1 else 0) + held_trials user reset_at requests

counts-is_held :
    (user reset_at : ℕ) (request : TrialKeyRequest)
    → counts user reset_at request ≡ is_held user reset_at request
counts-is_held user reset_at request = ground arith

count_used-held_trials :
    (user reset_at : ℕ) (requests : Dict ℕ TrialKeyRequest)
    → count_used user reset_at requests ≡ held_trials user reset_at requests
unfolding count_used held_trials
count_used-held_trials user reset_at [] = refl
count_used-held_trials user reset_at ((id, request) ∷ requests) =
    rw (counts-is_held user reset_at request, count_used-held_trials user reset_at requests) refl

module _ (user reset_at : ℕ) where
  held_trials-put :
      (requests : Dict ℕ TrialKeyRequest) (id : ℕ) (request : TrialKeyRequest)
      → held_trials user reset_at (put requests id request)
        ≤ (if is_held user reset_at request then 1 else 0) + held_trials user reset_at requests
  unfolding held_trials put
  held_trials-put [] id request = omega arith
  held_trials-put ((j, r) ∷ requests) id request =
      ground (arith, held_trials-put requests id request)

  held_trials-put_known :
      (requests : Dict ℕ TrialKeyRequest) (id : ℕ) (old request : TrialKeyRequest)
      → get requests id ≡ some old
      → (is_held user reset_at request ≡ true → is_held user reset_at old ≡ true)
      → held_trials user reset_at (put requests id request) ≤ held_trials user reset_at requests
  unfolding held_trials put get
  held_trials-put_known [] id old request e h = ground arith
  held_trials-put_known ((j, r) ∷ requests) id old request e h =
      ground (arith, held_trials-put_known requests id old request)

held_trials-antitone :
    (user earlier later : ℕ) (requests : Dict ℕ TrialKeyRequest)
    → earlier ≤ later
    → held_trials user later requests ≤ held_trials user earlier requests
unfolding held_trials
held_trials-antitone user earlier later [] h = omega arith
held_trials-antitone user earlier later ((j, r) ∷ requests) h =
    ground (arith, held_trials-antitone user earlier later requests h)

-- The clock does not go back, resets lie in the past, and nobody has more than one trial since the
-- last reset.
pub record IsSound {S : Type 0} (d : Desk S) : Type 0 where
  pub mono : (n : ℕ) → d.world.clock n ≤ d.world.clock (n + 1)
  pub past : (user : ℕ) → reset_of user d ≤ d.world.clock d.world.reads
  pub once : (user : ℕ) → held_trials user (reset_of user d) d.requests ≤ 1

Result-cases : {A : Type 0} (r : Result A) → ((a : A) × (r ≡ ok a)) ⊎ ((e : Error) × (r ≡ err e))
Result-cases (ok a) = inl (a, refl)
Result-cases (err e) = inr (e, refl)

-- What every operation but the reset leaves of the clock and the resets.
abbrev Frame : {S : Type 0} → Desk S → Desk S → Type 0
Frame d d' =
    (d'.world.clock ≡ d.world.clock)
    × ((d'.world.reads ≡ d.world.reads) ⊎ (d'.world.reads ≡ d.world.reads + 1))
    × (d'.quota_reset_at ≡ d.quota_reset_at)

Frame-IsSound :
    {S : Type 0} (d d' : Desk S)
    → IsSound d
    → Frame d d'
    → ((user : ℕ) → held_trials user (reset_of user d) d'.requests ≤ 1)
    → IsSound d'
Frame-IsSound d d' h (clock, reads, resets) once = record {
  mono = λ n. rw clock (h.mono n);
  past = λ user.
      rw (clock, resets)
        (elim reads [
          | inl same ↦ rw same (h.past user)
          | inr next ↦ rw next omega (arith, h.past user, h.mono d.world.reads)
        ]);
  once = λ user. rw resets (once user);
}

module _ {S : Type 0} (d : Desk S) where
  create_trial_request-Frame :
      (user : ℕ) (type : VpnKeyType) → Frame d (create_trial_request user type d).1
  unfolding create_trial_request create
  create_trial_request-Frame user type = ground arith

  create_trial_request-requests :
      (user : ℕ) (type : VpnKeyType)
      → ((create_trial_request user type d).1.requests ≡ d.requests)
        ⊎ ((held_trials user (reset_of user d) d.requests ≡ 0)
            × ((create_trial_request user type d).1.requests
                ≡ put d.requests d.next_request
                    (fresh_request d.next_request user type (d.world.clock d.world.reads))))
  unfolding create_trial_request create can_request_trial
  create_trial_request-requests user type =
      ground (arith, count_used-held_trials user (reset_of user d) d.requests)

  module _ (issuers : Issuers S) (fails : Bool) (actor id : ℕ) where
    approve_trial_request-Frame : Frame d (approve_trial_request issuers fails actor id d).1
    unfolding approve_trial_request require_superadmin decide roll_back
    approve_trial_request-Frame = ground arith

    reject_trial_request-Frame : Frame d (reject_trial_request actor id d).1
    unfolding reject_trial_request require_superadmin decide
    reject_trial_request-Frame = ground arith

    approve_trial_request-requests :
        (key_id : ℕ) (old : TrialKeyRequest)
        → get d.requests id ≡ some old
        → (approve_trial_request issuers fails actor id d).0 ≡ ok key_id
        → (is_pending old ≡ true)
          × ((approve_trial_request issuers fails actor id d).1.requests
              ≡ put d.requests id (approved_request key_id actor (d.world.clock d.world.reads) old))
    unfolding approve_trial_request decide
    approve_trial_request-requests key_id old stored h = grind arith

    approve_trial_request-missing :
        get d.requests id ≡ none
        → (approve_trial_request issuers fails actor id d).1.requests ≡ d.requests
    unfolding approve_trial_request
    approve_trial_request-missing e = ground arith

    reject_trial_request-requests :
        (old : TrialKeyRequest)
        → get d.requests id ≡ some old
        → ((reject_trial_request actor id d).1.requests ≡ d.requests)
          ⊎ ((is_pending old ≡ true)
              × ((reject_trial_request actor id d).1.requests
                  ≡ put d.requests id (rejected_request actor (d.world.clock d.world.reads) old)))
    unfolding reject_trial_request decide
    reject_trial_request-requests old stored = ground arith

    reject_trial_request-missing :
        get d.requests id ≡ none → (reject_trial_request actor id d).1.requests ≡ d.requests
    unfolding reject_trial_request
    reject_trial_request-missing e = ground arith

    approve_trial_request-used :
        (user reset_at : ℕ)
        → held_trials user reset_at (approve_trial_request issuers fails actor id d).1.requests
          ≤ held_trials user reset_at d.requests
    approve_trial_request-used user reset_at = elim (Option-cases (get d.requests id)) [
      | inl e ↦ rw (approve_trial_request-missing e) (omega arith)
      | inr (old, e) ↦ elim (Result-cases (approve_trial_request issuers fails actor id d).0) [
        | inl (key_id, o) ↦
            let (fresh, shape) = approve_trial_request-requests key_id old e o in
            rw shape (
              held_trials-put_known user reset_at d.requests id old
                (approved_request key_id actor (d.world.clock d.world.reads) old) e ground arith)
        | inr (error, o) ↦
            rw (approve_trial_request-err issuers fails actor id d error o) (omega arith)
      ]
    ]

    reject_trial_request-used :
        (user reset_at : ℕ)
        → held_trials user reset_at (reject_trial_request actor id d).1.requests
          ≤ held_trials user reset_at d.requests
    reject_trial_request-used user reset_at = elim (Option-cases (get d.requests id)) [
      | inl e ↦ rw (reject_trial_request-missing e) (omega arith)
      | inr (old, e) ↦ elim (reject_trial_request-requests old e) [
        | inl same ↦ rw same (omega arith)
        | inr (fresh, shape) ↦ rw shape (
            held_trials-put_known user reset_at d.requests id old
              (rejected_request actor (d.world.clock d.world.reads) old) e ground arith)
      ]
    ]

-- The operations as commands. Issuing and revoking go through the same issuers; the flag says
-- whether the write of an approval fails.
pub data Command : Type 0 where
  request_trial : ℕ → VpnKeyType → Command
  approve_trial : Bool → ℕ → ℕ → Command
  reject_trial : ℕ → ℕ → Command
  reset_quota : ℕ → ℕ → Command

module _ {S : Type 0} (issuers : Issuers S) where
  unfoldable pub perform : Command → Desk S → Desk S
  unfolding create_trial_request approve_trial_request reject_trial_request admin_reset_trial_quota
  perform (request_trial user type) d = (create_trial_request user type d).1
  perform (approve_trial fails actor id) d = (approve_trial_request issuers fails actor id d).1
  perform (reject_trial actor id) d = (reject_trial_request actor id d).1
  perform (reset_quota actor user) d = (admin_reset_trial_quota actor user d).1

  unfoldable pub perform_all : List Command → Desk S → Desk S
  unfolding perform
  perform_all [] d = d
  perform_all (command ∷ commands) d = perform_all commands (perform command d)

  create-once :
      (user : ℕ) (type : VpnKeyType) (d : Desk S) (h : IsSound d) (other : ℕ)
      → held_trials other (reset_of other d) (create_trial_request user type d).1.requests ≤ 1
  create-once user type d h other = elim (create_trial_request-requests d user type) [
    | inl same ↦ rw same (h.once other)
    | inr (free, shape) ↦
        let request = fresh_request d.next_request user type (d.world.clock d.world.reads) in
        rw shape (
          ground (
            arith,
            free,
            h.once other,
            ==_iff user other,
            held_trials-put other (reset_of other d) d.requests d.next_request request,
          ))
  ]

  reset-IsSound :
      (actor user : ℕ) (d : Desk S) → IsSound d → IsSound (admin_reset_trial_quota actor user d).1
  unfolding admin_reset_trial_quota require_superadmin
  reset-IsSound actor user d h =
      let at = d.world.clock d.world.reads in
      elim (Bool-cases (is_superadmin_user (find_user actor d.world))) [
        | inr e ↦ rw e h
        | inl e ↦ elim (Bool-cases (is_some (find_user user d.world))) [
          | inr e' ↦
              rw (e, e')
                (record {
                  mono = h.mono;
                  past = λ u. omega (arith, h.past u, h.mono d.world.reads);
                  once = h.once;
                })
          | inl e' ↦
              rw (e, e')
                (record {
                  mono = h.mono;
                  past = λ u.
                      ground
                        (arith, get-put d.quota_reset_at user u at, h.past u, h.mono d.world.reads);
                  once = λ u.
                      let later : reset_of u d
                          ≤ or_default (get (put d.quota_reset_at user at) u) 0 =
                        ground
                          (arith, get-put d.quota_reset_at user u at, h.past u, ==_iff user u) in
                      omega (
                        arith,
                        h.once u,
                        held_trials-antitone u (reset_of u d)
                            (or_default (get (put d.quota_reset_at user at) u) 0) d.requests later,
                      );
                })
        ]
      ]

  perform-IsSound : (command : Command) (d : Desk S) → IsSound d → IsSound (perform command d)
  unfolding perform
  perform-IsSound (request_trial user type) d h =
      Frame-IsSound d (create_trial_request user type d).1 h
        (create_trial_request-Frame d user type) (create-once user type d h)
  perform-IsSound (approve_trial fails actor id) d h =
      Frame-IsSound d (approve_trial_request issuers fails actor id d).1 h
        (approve_trial_request-Frame d issuers fails actor id)
        λ user. omega (
          arith,
          approve_trial_request-used d issuers fails actor id user (reset_of user d),
          h.once user,
        )
  perform-IsSound (reject_trial actor id) d h =
      Frame-IsSound d (reject_trial_request actor id d).1 h
        (reject_trial_request-Frame d issuers true actor id)
        λ user. omega (
          arith,
          reject_trial_request-used d issuers true actor id user (reset_of user d),
          h.once user,
        )
  perform-IsSound (reset_quota actor user) d h = reset-IsSound actor user d h

  -- With a clock that does not go back, resets in the past, and at most one such trial each at the
  -- start, through any requests, decisions and resets: nobody ever has more than one trial that is
  -- pending or approved and was requested in a later second than the last reset of the quota.
  pub perform_all-IsSound :
      (commands : List Command) (d : Desk S) → IsSound d → IsSound (perform_all commands d)
  unfolding perform_all
  perform_all-IsSound [] d h = h
  perform_all-IsSound (command ∷ commands) d h =
      perform_all-IsSound commands (perform command d) (perform-IsSound command d h)
