-- ===== src/Access/Revoke.antt =====
-- `_revoke_all_access_keys` and `_revoke_all_proxy_accesses` (services/users.py): one loop, over
-- what is listed for the blocked user and the revokers by type.
pub mod Complete
use vpnbot.Prelude.{
  ℕ, zero, suc, Bool, true, false, not, ◌&&◌, ◌||◌, List, [], ◌∷◌, Option, none, some, any, keep,
  ◌==◌, if◌then◌else◌,
}

-- `VpnKeyType`, then `ProxyAccessType`
pub data KeyType : Type 0 where
  xray awg hysteria2 socks5 mtproto : KeyType

pub record Target : Type 0 where
  pub id : ℕ
  pub key_type : KeyType

-- The texts of the errors by their cause.
pub data Cause : Type 0 where
  not_wired no_revoker failed stuck : Cause

pub record KeyOperationError : Type 0 where
  pub key_id : ℕ
  pub key_type : KeyType
  pub error : Cause

-- What the loop is given: the listing of at most 500 entries in a status that has to be revoked,
-- and the revoker of a type, which says whether it returned or raised.
pub record Backend (S : Type 0) : Type 0 where
  pub listing : S → List Target
  pub revoker : KeyType → Option (ℕ → S → Bool × S)

pub record Run (S : Type 0) : Type 0 where
  pub state : S
  pub succeeded : List ℕ
  pub failures : List ℕ
  pub revoked : List ℕ
  pub errors : List KeyOperationError

abbrev pub mem : ℕ → List ℕ → Bool
mem i ids = any (λ j. j == i) ids

abbrev pub is_empty : {A : Type 0} → List A → Bool
is_empty [] = true
is_empty (x ∷ xs) = false

abbrev pub failure : Target → Cause → KeyOperationError
failure target cause = record { key_id = target.id; key_type = target.key_type; error = cause }

module _ {S : Type 0} where
  abbrev pub untried : Run S → Target → Bool
  untried run target = not (mem target.id run.succeeded) && not (mem target.id run.failures)

  abbrev pub fail : Target → Cause → Run S → Run S
  fail target cause run = record run {
    failures = target.id ∷ run.failures;
    errors = failure target cause ∷ run.errors;
  }

  abbrev pub record_outcome : Target → Run S → Bool × S → Run S
  record_outcome target run (true, s) = record run {
    state = s;
    succeeded = target.id ∷ run.succeeded;
    revoked = target.id ∷ run.revoked;
  }
  record_outcome target run (false, s) = fail target failed (record run { state = s })

  abbrev pub attempt : Target → Run S → Option (ℕ → S → Bool × S) → Run S
  attempt target run none = fail target no_revoker run
  attempt target run (some revoker) = record_outcome target run (revoker target.id run.state)

  -- The lists that the source appends to are kept with the last entry first.
  unfoldable pub revoke_pending : Backend S → List Target → Run S → Run S
  revoke_pending backend [] run = run
  revoke_pending backend (target ∷ targets) run =
      revoke_pending backend targets (attempt target run (backend.revoker target.key_type))

  unfoldable pub report_stuck : List Target → Run S → Run S
  report_stuck [] run = run
  report_stuck (target ∷ targets) run = report_stuck targets (
      if mem target.id run.succeeded
      then record run { errors = failure target stuck ∷ run.errors }
      else run)

  -- `while True`, on fuel; `none` when the fuel runs out.
  unfoldable pub revoke_all : Backend S → ℕ → Run S → Option (Run S)
  unfolding revoke_pending report_stuck
  revoke_all backend zero run = none
  revoke_all backend (suc fuel) run =
      let keys = backend.listing run.state in
      let pending = keep (untried run) keys in
      let rest = revoke_all backend fuel (revoke_pending backend pending run) in
      if is_empty keys
      then some run
      else if is_empty pending
      then some (report_stuck keys run)
      else rest
