-- ===== src/Trial/Desk.antt =====
-- TrialAccessService (services/trial_access.py) over TrialKeyRequestRepository
-- (repositories/trial_requests.py).
--
-- A time is the number of seconds of its ISO text. The services that issue and revoke keys are
-- parameters, and `S` is their state; issuing gives the new key's id, or `none` where it raises.
-- Decisions stand under one lock, so nothing comes between their steps. Messages to the user are
-- best effort and change nothing; audit entries are counted as World has them.
use vpnbot.Prelude.{
  ℕ, suc, ◌+◌, String, Bool, true, false, not, ◌&&◌, [], ◌∷◌, Option, none, some, Dict, get, put,
  nat_eq, is_some, or_default, ltb, ◌==◌, if◌then◌else◌,
}
use vpnbot.Access.World.{
  User, World, Result, ok, err, Error, access_denied, not_found, integrity_error, runtime_error,
  concurrent_modification, backend_failed, is_superadmin, find_user, write_audit,
}
use vpnbot.Access.Users.{is_blocked_user}
use vpnbot.Keys.Store.{VpnKeyType}

pub data TrialStatus : Type 0 where
  pending approved rejected : TrialStatus

pub record TrialKeyRequest : Type 0 where
  pub id : ℕ
  pub telegram_user_id : ℕ
  pub key_type : VpnKeyType
  pub status : TrialStatus
  pub key_id : Option ℕ
  pub requested_at : ℕ
  pub decided_by : Option ℕ
  pub decided_at : Option ℕ

-- `quota_reset_at` is the column of `users`; `world` has the users, the clock and the audit log.
pub record Desk (S : Type 0) : Type 0 where
  pub world : World
  pub requests : Dict ℕ TrialKeyRequest
  pub next_request : ℕ
  pub quota_reset_at : Dict ℕ ℕ
  pub backend : S

pub record Issuers (S : Type 0) : Type 0 where
  pub issue : VpnKeyType → ℕ → User → ℕ → S → Option ℕ × S
  pub revoke : VpnKeyType → ℕ → ℕ → S → Bool × S

abbrev pub is_pending : TrialKeyRequest → Bool
is_pending request = elim request.status [ pending ↦ true | _ ↦ false ]

abbrev pub is_rejected : TrialKeyRequest → Bool
is_rejected request = elim request.status [ rejected ↦ true | _ ↦ false ]

abbrev pub is_pending_of : ℕ → TrialKeyRequest → Bool
is_pending_of user request = (request.telegram_user_id == user) && is_pending request

abbrev pub has_pending : ℕ → Dict ℕ TrialKeyRequest → Bool
has_pending user [] = false
has_pending user ((id, request) ∷ requests) =
    if is_pending_of user request then true else has_pending user requests

-- A row that counts against the quota.
abbrev pub counts : ℕ → ℕ → TrialKeyRequest → Bool
counts user reset_at request =
    (request.telegram_user_id == user)
    && ltb reset_at request.requested_at
    && not (is_rejected request)

-- `count_used_since_reset`
unfoldable pub count_used : ℕ → ℕ → Dict ℕ TrialKeyRequest → ℕ
count_used user reset_at [] = 0
count_used user reset_at ((id, request) ∷ requests) =
    (if counts user reset_at request then 1 else 0) + count_used user reset_at requests

abbrev pub trial_seconds : ℕ
trial_seconds = 604_800

abbrev pub Step : Type 0 → Type 0 → Type 0
Step S A = Desk S → Result A × Desk S

abbrev pub is_superadmin_user : Option User → Bool
is_superadmin_user none = false
is_superadmin_user (some user) = is_superadmin user.role

abbrev pub fresh_request : ℕ → ℕ → VpnKeyType → ℕ → TrialKeyRequest
fresh_request id user key_type at = record {
  id = id;
  telegram_user_id = user;
  key_type = key_type;
  status = pending;
  key_id = none;
  requested_at = at;
  decided_by = none;
  decided_at = none;
}

abbrev pub approved_request : ℕ → ℕ → ℕ → TrialKeyRequest → TrialKeyRequest
approved_request key_id actor at request = record request {
  status = approved;
  key_id = some key_id;
  decided_by = some actor;
  decided_at = some at;
}

abbrev pub rejected_request : ℕ → ℕ → TrialKeyRequest → TrialKeyRequest
rejected_request actor at request = record request {
  status = rejected;
  decided_by = some actor;
  decided_at = some at;
}

module _ {S : Type 0} where
  abbrev pub continue : {A B : Type 0} → Result A × Desk S → (A → Step S B) → Result B × Desk S
  continue (ok a, d) f = f a d
  continue (err e, d) f = (err e, d)

  infixl 5 ◌>>=◌ ◌>>◌
  abbrev pub ◌>>=◌ : {A B : Type 0} → Step S A → (A → Step S B) → Step S B
  ◌>>=◌ m f d = continue (m d) f

  abbrev pub ◌>>◌ : {A B : Type 0} → Step S A → Step S B → Step S B
  m >> k = m >>= λ _. k

  abbrev pub pure : {A : Type 0} → A → Step S A
  pure a d = (ok a, d)

  abbrev pub raise_if : Bool → Error → Step S (Unit {0})
  raise_if c e d = (if c then err e else ok tt, d)

  abbrev pub or_raise : {A : Type 0} → Option A → Error → Step S A
  or_raise none e d = (err e, d)
  or_raise (some a) e d = (ok a, d)

  abbrev pub gets : {A : Type 0} → (Desk S → A) → Step S A
  gets f d = (ok (f d), d)

  -- `self.clock.now()`
  abbrev pub now : Step S ℕ
  now d = (
    ok (d.world.clock d.world.reads),
    record d { world = record d.world { reads = d.world.reads + 1 } },
  )

  -- `audit.write`
  abbrev pub audit : ℕ → String → ℕ → Step S (Unit {0})
  audit actor action entity d =
      (ok tt, record d { world = (write_audit actor action entity d.world).1 })

  unfoldable pub require_superadmin : ℕ → Step S (Unit {0})
  require_superadmin actor = do
    found ← gets (λ d. find_user actor d.world)
    raise_if (not (is_superadmin_user found)) access_denied

  -- `get_trial_quota_reset_at`, or the start of time
  abbrev pub reset_of : ℕ → Desk S → ℕ
  reset_of user d = or_default (get d.quota_reset_at user) 0

  unfoldable pub can_request_trial : ℕ → Desk S → Bool
  unfolding count_used
  can_request_trial user d = count_used user (reset_of user d) d.requests == 0

  -- INSERT, refused by idx_trial_requests_one_pending where the user has a pending request.
  unfoldable pub create : ℕ → VpnKeyType → ℕ → Step S TrialKeyRequest
  create user key_type at d =
      if has_pending user d.requests
      then (err integrity_error, d)
      else let request = fresh_request d.next_request user key_type at in
        (
          ok request,
          record d {
            requests = put d.requests d.next_request request;
            next_request = suc d.next_request;
          },
        )

  unfoldable pub create_trial_request : ℕ → VpnKeyType → Step S TrialKeyRequest
  unfolding create can_request_trial is_blocked_user
  create_trial_request user key_type = do
    found ← gets (λ d. find_user user d.world)
    requester ← or_raise found not_found
    raise_if (is_blocked_user requester) access_denied
    free ← gets (can_request_trial user)
    raise_if (not free) access_denied
    at ← now
    request ← create user key_type at
    audit user "trial_key_requested" user
    pure request

  abbrev pub get_request : ℕ → Step S TrialKeyRequest
  get_request id = do found ← gets (λ d. get d.requests id); or_raise found not_found

  -- UPDATE ... WHERE id = ? AND status = 'pending', or ConcurrentModificationError.
  abbrev pub decide_found :
      ℕ → (TrialKeyRequest → TrialKeyRequest) → Option TrialKeyRequest → Step S (Unit {0})
  decide_found id change none d = (err concurrent_modification, d)
  decide_found id change (some request) d =
      if is_pending request
      then (ok tt, record d { requests = put d.requests id (change request) })
      else (err concurrent_modification, d)

  unfoldable pub decide : ℕ → (TrialKeyRequest → TrialKeyRequest) → Step S (Unit {0})
  decide id change d = decide_found id change (get d.requests id) d

  abbrev pub issued : Option ℕ × S → Step S ℕ
  issued (none, s) d = (err backend_failed, record d { backend = s })
  issued (some key_id, s) d = (ok key_id, record d { backend = s })

  abbrev pub after_revoke : ℕ → ℕ → Desk S → Bool × S → Desk S
  after_revoke actor key_id d (true, s) =
      (audit actor "trial_key_approve_rolled_back" key_id (record d { backend = s })).1
  after_revoke actor key_id d (false, s) = record d { backend = s }

  -- `_rollback_provisioned_trial_key`
  unfoldable pub roll_back : Issuers S → VpnKeyType → ℕ → ℕ → Desk S → Desk S
  roll_back issuers key_type key_id actor d =
      after_revoke actor key_id d (issuers.revoke key_type key_id actor d.backend)

  abbrev pub or_roll_back :
      (Desk S → Desk S) → Result (Unit {0}) × Desk S → Result (Unit {0}) × Desk S
  or_roll_back back (ok a, d) = (ok a, d)
  or_roll_back back (err e, d) = (err e, back d)

  -- The write may fail for a reason of the database's own (`write_fails`). The answer is the key.
  unfoldable pub approve_trial_request : Issuers S → Bool → ℕ → ℕ → Step S ℕ
  unfolding require_superadmin decide roll_back
  approve_trial_request issuers write_fails actor id = do
    require_superadmin actor
    request ← get_request id
    raise_if (not (is_pending request)) access_denied
    found ← gets (λ d. find_user request.telegram_user_id d.world)
    owner ← or_raise found not_found
    at ← now
    s ← gets (λ d. d.backend)
    key_id ← issued (issuers.issue request.key_type actor owner (at + trial_seconds) s)
    λ d. or_roll_back (roll_back issuers request.key_type key_id actor) (
        if write_fails
        then (err runtime_error, d)
        else decide id (approved_request key_id actor at) d)
    audit actor "trial_key_approved" key_id
    pure key_id

  unfoldable pub reject_trial_request : ℕ → ℕ → Step S (Unit {0})
  unfolding require_superadmin decide
  reject_trial_request actor id = do
    require_superadmin actor
    request ← get_request id
    raise_if (not (is_pending request)) access_denied
    at ← now
    decide id (rejected_request actor at)
    audit actor "trial_key_rejected" request.telegram_user_id

  -- A user without a row has nothing to reset.
  unfoldable pub admin_reset_trial_quota : ℕ → ℕ → Step S (Unit {0})
  unfolding require_superadmin
  admin_reset_trial_quota actor user = do
    require_superadmin actor
    at ← now
    λ d. (
      ok tt,
      if is_some (find_user user d.world)
          then record d { quota_reset_at = put d.quota_reset_at user at }
          else d,
    )
    audit actor "trial_quota_reset" user
