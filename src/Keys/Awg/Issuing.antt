-- ===== src/Keys/Awg/Issuing.antt =====
-- Issuing an AWG key (services/awg.py).
--
-- What one issue takes from outside is a record: the users as they are at each check, what was
-- generated, the adapter's answers, and the database's failures that the code handles.
use vpnbot.Prelude.{
  ℕ, String, Bool, false, not, List, [], ◌∷◌, Option, none, some, nat_eq, str_eq, take,
  if◌then◌else◌,
}
use vpnbot.Access.World.{World}
use vpnbot.Backends.Health.{Blocked, BackendHealth, require_mutation_allowed, mark_degraded}
use vpnbot.Backends.Health
use vpnbot.Keys.Store.{
  VpnKey, awg, apply_failed, Store, any_key, create_pending, mark_active, set_status,
}
use vpnbot.Keys.Awg.Permission.{ensure_can_create, passes}
use vpnbot.Keys.Awg.{
  Server, protocol_unavailable, not_ready, access_denied, no_address, not_unique, Reply, given,
  refused, Step, ◌>>=◌, ◌>>◌, or_refuse, or_handle, statement, refuse_if, Added, Removed, add_peer,
  remove_peer,
}
use vpnbot.Keys.Awg.Service.{require_allowed, lookup, write, set_key_status}

-- What one issue of a key takes.
pub record Issue : Type 0 where
  pub actor : ℕ
  pub owner : ℕ
  pub allow_pending_owner : Bool
  pub draft : VpnKey
  pub enabled : Bool
  pub settings_ready : Bool
  pub server_ready : Bool
  pub first_world : World
  pub locked_world : World
  pub apply_world : World
  pub free_ip : Option String
  pub public_keys : List String
  pub labels : List String
  pub payload_of : String → String
  pub public_payload_of : String → String
  pub add : Added
  pub activation_fails : Bool
  pub compensation : Removed
  pub correction_fails : Bool
  pub now : ℕ

abbrev pub has_public_key : String → VpnKey → Bool
has_public_key text key = elim key.public_key [ none ↦ false | some other ↦ str_eq other text ]

abbrev pub has_label : String → VpnKey → Bool
has_label text key = elim key.email_label [ none ↦ false | some other ↦ str_eq other text ]

-- The first of the texts that were generated which no key has.
abbrev pub first_new : (String → VpnKey → Bool) → Store → List String → Option String
first_new has store [] = none
first_new has store (text ∷ texts) =
    if any_key (has text) store.keys then first_new has store texts else some text

abbrev pub fresh : (String → VpnKey → Bool) → List String → Step String
fresh has texts s = or_refuse (first_new has s.store texts) not_unique s

abbrev pub ensure_issue : Issue → World → Step (Unit {0})
ensure_issue run w =
    refuse_if (not (passes (ensure_can_create run.actor run.owner run.allow_pending_owner w)))
      access_denied

abbrev pub drafted : Issue → String → String → String → VpnKey
drafted run client_ip public_key label = record run.draft {
  owner_user_id = run.owner;
  key_type = awg;
  email_label = some label;
  public_key = some public_key;
  client_ip = some client_ip;
  payload = run.payload_of public_key;
  public_payload = run.public_payload_of public_key;
  created_by = run.actor;
}

abbrev pub compensated : Bool → ℕ → ℕ → Reply (Unit {0}) × Server → Reply (Unit {0}) × Server
compensated fails now id (refused e, s) = (
  given tt,
  record s {
    health =
        mark_degraded Health.awg "post-apply mark_active failed and compensation failed" s.health;
  },
)
compensated fails now id (given a, s) = write fails (set_status id apply_failed now []) s

-- `_compensate_failed_create_after_apply`
unfoldable pub compensate : Issue → ℕ → String → Step (Unit {0})
unfolding remove_peer mark_degraded set_status
compensate run id public_key s =
    compensated run.correction_fails run.now id (remove_peer run.compensation id public_key s)

-- The row is there: the peer is added, and the row made active.
unfoldable pub apply_key : Issue → String → String → ℕ → Step VpnKey
unfolding add_peer compensate mark_active set_status ensure_can_create
apply_key run client_ip public_key id = do
  or_handle
      (do
        ensure_issue run run.apply_world
        add_peer run.add
            (record { key_id = some id; public_key = public_key; client_ip = client_ip }))
      (set_key_status id apply_failed run.now)
  or_handle
      (write run.activation_fails (
        mark_active id run.now (some (run.payload_of public_key))
          (some (run.public_payload_of public_key))))
      (compensate run id public_key)
  lookup id

unfoldable pub issue_key : Issue → String → String → String → Step VpnKey
unfolding create_pending apply_key
issue_key run client_ip public_key label = do
  key ← statement (create_pending (λ name. false) (drafted run client_ip public_key label) none)
  apply_key run client_ip public_key key.id

-- The address, the key pair and the label.
unfoldable pub generate_key : Issue → Step VpnKey
unfolding issue_key
generate_key run = do
  client_ip ← or_refuse run.free_ip no_address
  public_key ← fresh has_public_key (take 3 run.public_keys)
  label ← fresh has_label (take 5 run.labels)
  issue_key run client_ip public_key label

-- Under the lock of the backend.
abbrev pub create_locked : Issue → Step VpnKey
create_locked run = do
  ensure_issue run run.locked_world
  refuse_if (not run.server_ready) not_ready
  generate_key run

unfoldable pub create_awg_key : Issue → Step VpnKey
unfolding require_mutation_allowed ensure_can_create generate_key
create_awg_key run = do
  require_allowed
  refuse_if (not run.enabled) protocol_unavailable
  refuse_if (not run.settings_ready) not_ready
  ensure_issue run run.first_world
  create_locked run
