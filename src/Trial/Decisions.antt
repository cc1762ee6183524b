-- ===== src/Trial/Decisions.antt =====
-- What a decision on a trial leaves behind (services/trial_access.py).
use vpnbot.Prelude.{ℕ, ◌+◌, ◌≡◌, Bool, true, false, none, some, get, get-put, nat_eq, arith}
use vpnbot.Access.World.{User, Result, ok, err, Error, access_denied, find_user}
use vpnbot.Keys.Store.{VpnKeyType}
use vpnbot.Trial.Desk.{
  TrialKeyRequest, Desk, Issuers, is_pending, trial_seconds, approved_request, require_superadmin,
  decide, roll_back, approve_trial_request, reject_trial_request,
}

roll_back_lem :
    {S : Type 0} (issuers : Issuers S) (type : VpnKeyType) (key actor : ℕ) (d : Desk S)
    → ((roll_back issuers type key actor d).requests ≡ d.requests)
      × ((roll_back issuers type key actor d).backend ≡ (issuers.revoke type key actor d.backend).1)
unfolding roll_back
roll_back_lem issuers type key actor d = ground arith

module _ {S : Type 0} (issuers : Issuers S) (fails : Bool) (actor id : ℕ) (d : Desk S) where
  -- An approval that raises, wherever it does, leaves every request as it was.
  pub approve_trial_request-err :
      (e : Error)
      → (approve_trial_request issuers fails actor id d).0 ≡ err e
      → (approve_trial_request issuers fails actor id d).1.requests ≡ d.requests
  unfolding approve_trial_request
  approve_trial_request-err e h = grind (arith, roll_back_lem)

  module _ (request : TrialKeyRequest) (stored : get d.requests id ≡ some request) where
    -- An approval that returns a key was one of a pending request, whose row now is approved, by the
    -- actor at the clock's time, with that key.
    pub approve_trial_request-ok :
        (key_id : ℕ)
        → (approve_trial_request issuers fails actor id d).0 ≡ ok key_id
        → (is_pending request ≡ true)
          × (get (approve_trial_request issuers fails actor id d).1.requests id
              ≡ some (approved_request key_id actor (d.world.clock d.world.reads) request))
    unfolding approve_trial_request decide
    approve_trial_request-ok key_id h = grind (arith, get-put)

    -- A request that is decided provisions nothing and changes no row, whoever approves or rejects
    -- it again: both calls are refused.
    pub decided-refused :
        is_pending request ≡ false
        → ((approve_trial_request issuers fails actor id d).0 ≡ err access_denied)
          × ((approve_trial_request issuers fails actor id d).1 ≡ d)
          × ((reject_trial_request actor id d).0 ≡ err access_denied)
          × ((reject_trial_request actor id d).1 ≡ d)
    unfolding approve_trial_request reject_trial_request require_superadmin
    decided-refused settled = ground (arith, settled, stored)

-- What an approval that raises may leave of the issuers' state: nothing was issued, or the key that
-- was issued has gone to the revoker.
pub data IsClean {S : Type 0} (issuers : Issuers S) (actor : ℕ) (before : S) : S → Type 0 where
  untouched : IsClean issuers actor before before
  unissued :
      (type : VpnKeyType) (owner : User) (expires : ℕ) (s : S)
      → issuers.issue type actor owner expires before ≡ (none, s)
      → IsClean issuers actor before s
  taken_back :
      (type : VpnKeyType) (owner : User) (expires key_id : ℕ) (s : S)
      → issuers.issue type actor owner expires before ≡ (some key_id, s)
      → IsClean issuers actor before (issuers.revoke type key_id actor s).1

-- An approval that returns a key.
pub record IsIssued {S : Type 0} (issuers : Issuers S) (actor id : ℕ) (d after : Desk S)
    (key_id : ℕ) : Type 0 where
  pub request : TrialKeyRequest
  pub owner : User
  pub stored : get d.requests id ≡ some request
  pub fresh : is_pending request ≡ true
  pub known : find_user request.telegram_user_id d.world ≡ some owner
  pub issued :
      issuers.issue request.key_type actor owner
        (d.world.clock d.world.reads + trial_seconds)
        d.backend
      ≡ (some key_id, after.backend)
  pub named :
      get after.requests id
      ≡ some (approved_request key_id actor (d.world.clock d.world.reads) request)

abbrev pub IsSettled : {S : Type 0} → Issuers S → ℕ → ℕ → Desk S → Result ℕ × Desk S → Type 0
IsSettled issuers actor id d (ok key_id, after) = IsIssued issuers actor id d after key_id
IsSettled issuers actor id d (err e, after) =
    (after.requests ≡ d.requests) × IsClean issuers actor d.backend after.backend

module _ {S : Type 0} (issuers : Issuers S) (fails : Bool) (actor id : ℕ) (d : Desk S) where
  abbrev expires : ℕ
  expires = d.world.clock d.world.reads + trial_seconds
