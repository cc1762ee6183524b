-- ===== src/Keys/Awg.antt =====
-- The AWG keys (services/awg.py) over the table of keys, the register of the backends and the
-- AWG server (adapters/awg_config.py).
--
-- The server has its config file and what runs. What a call of the adapter ends in is an input:
-- one that raises has rolled back, and what it could not roll back is part of the answer. Audits
-- are best-effort and left out. The reader of the JSON payload is a parameter, and so is
-- `str.strip`.
pub mod Permission
pub mod Service
pub mod Issuing
pub mod Startup
pub mod Accounted
pub mod Outcomes
use vpnbot.Prelude.{
  ℕ, ◌+◌, String, Bool, true, false, not, ◌&&◌, ◌||◌, List, [], ◌∷◌, Option, none, some, get,
  nat_eq, any, keep, is_some, str_eq, ◌==◌, if◌then◌else◌,
}
use vpnbot.Keys.Store.{
  VpnKey, VpnKeyType, xray, awg, hysteria2, VpnKeyStatus, active, pending_apply, apply_failed,
  pending_revoke, pending_delete, delete_failed, Store, Outcome, returned, raised, is_in, any_key,
}
use vpnbot.Backends.Health.{BackendHealth, Blocked}

-- A peer of the config, with the key of the managed block that it stands in.
pub record Peer : Type 0 where
  pub key_id : Option ℕ
  pub public_key : String
  pub client_ip : String

-- `runtime` lists the public keys that the interface accepts.
pub record Server : Type 0 where
  pub store : Store
  pub health : BackendHealth
  pub config : List Peer
  pub runtime : List String

pub data Refusal : Type 0 where
  blocked : Blocked → Refusal
  protocol_unavailable not_ready access_denied no_address not_unique : Refusal
  key_not_found not_awg_key foreign_key wrong_status no_public_key : Refusal
  adapter_failed database_failed : Refusal

pub data Reply (A : Type 0) : Type 0 where
  given : A → Reply A
  refused : Refusal → Reply A

abbrev pub Step : Type 0 → Type 0
Step A = Server → Reply A × Server

abbrev pub continue : {A B : Type 0} → Reply A → (A → Step B) → Step B
continue (given a) f s = f a s
continue (refused e) f s = (refused e, s)

infixl 5 ◌>>=◌ ◌>>◌
abbrev pub ◌>>=◌ : {A B : Type 0} → Step A → (A → Step B) → Step B
◌>>=◌ m f s = let (r, s') = m s in continue r f s'

abbrev pub ◌>>◌ : {A B : Type 0} → Step A → Step B → Step B
m >> k = m >>= λ _. k

module _ {A : Type 0} where
  abbrev pub give : A → Step A
  give a s = (given a, s)

  abbrev pub refuse : Refusal → Step A
  refuse e s = (refused e, s)

  abbrev pub or_refuse : Option A → Refusal → Step A
  or_refuse none e s = (refused e, s)
  or_refuse (some a) e s = (given a, s)

  abbrev pub handled : Step (Unit {0}) → Reply A × Server → Reply A × Server
  handled handler (given a, s) = (given a, s)
  handled handler (refused e, s) = (refused e, (handler s).1)

  -- `try: ... except Exception: ...; raise`
  abbrev pub or_handle : Step A → Step (Unit {0}) → Step A
  or_handle m handler s = handled handler (m s)

  abbrev pub of_outcome : Outcome A × Store → Server → Reply A × Server
  of_outcome (returned a, store) s = (given a, record s { store = store })
  of_outcome (raised e, store) s = (refused database_failed, record s { store = store })

  -- A statement of the repository.
  abbrev pub statement : (Store → Outcome A × Store) → Step A
  statement f s = of_outcome (f s.store) s

abbrev pub refuse_if : Bool → Refusal → Step (Unit {0})
refuse_if c e s = (if c then refused e else given tt, s)

-- What `add_peer` ends in; one that raises may leave the peer in the config and in what runs.
pub data Added : Type 0 where
  added : Added
  not_added : Bool → Bool → Added

-- What `remove_peer` ends in; one that raises may have taken the peer out of either.
pub data Removed : Type 0 where
  removed : Removed
  not_removed : Bool → Bool → Removed

abbrev pub with_peer : Bool → Peer → List Peer → List Peer
with_peer true peer config = peer ∷ config
with_peer false peer config = config

abbrev pub with_runtime : Bool → String → List String → List String
with_runtime true public_key runtime = public_key ∷ runtime
with_runtime false public_key runtime = runtime

unfoldable pub add_peer : Added → Peer → Step (Unit {0})
add_peer added peer s =
    (given tt, record s { config = peer ∷ s.config; runtime = peer.public_key ∷ s.runtime })
add_peer (not_added in_config in_runtime) peer s = (
  refused adapter_failed,
  record s {
    config = with_peer in_config peer s.config;
    runtime = with_runtime in_runtime peer.public_key s.runtime;
  },
)

abbrev pub is_managed : ℕ → Peer → Bool
is_managed id peer = elim peer.key_id [ none ↦ false | some other ↦ id == other ]

abbrev pub without_peer : Bool → ℕ → String → List Peer → List Peer
without_peer true id public_key config =
    keep (λ peer. not (is_managed id peer || str_eq peer.public_key public_key)) config
without_peer false id public_key config = config

abbrev pub without_runtime : Bool → String → List String → List String
without_runtime true public_key runtime = keep (λ other. not (str_eq other public_key)) runtime
without_runtime false public_key runtime = runtime

unfoldable pub remove_peer : Removed → ℕ → String → Step (Unit {0})
remove_peer removed id public_key s = (
  given tt,
  record s {
    config = without_peer true id public_key s.config;
    runtime = without_runtime true public_key s.runtime;
  },
)
remove_peer (not_removed of_config of_runtime) id public_key s = (
  refused adapter_failed,
  record s {
    config = without_peer of_config id public_key s.config;
    runtime = without_runtime of_runtime public_key s.runtime;
  },
)

abbrev same_text : Option String → String → Bool
same_text none text = false
same_text (some other) text = not (str_eq other "") && str_eq text other

-- `find_peer`, by public key or by address.
unfoldable pub find_peer : Option String → Option String → List Peer → Bool
find_peer public_key client_ip config =
    any (λ peer. same_text public_key peer.public_key || same_text client_ip peer.client_ip) config

-- `find_managed_peer_public_key`
unfoldable pub find_managed : ℕ → List Peer → String
find_managed id [] = ""
find_managed id (peer ∷ config) =
    if is_managed id peer then peer.public_key else find_managed id config

abbrev pub access_may_exist : List VpnKeyStatus
access_may_exist =
    active ∷ pending_apply ∷ apply_failed ∷ pending_revoke ∷ pending_delete ∷ delete_failed ∷ []

abbrev pub may_exist : VpnKey → Bool
may_exist key = is_in access_may_exist key.status

abbrev pub is_awg : VpnKeyType → Bool
is_awg awg = true
is_awg _ = false

abbrev pub text_of_key : Option String → String
text_of_key none = ""
text_of_key (some text) = text

-- What reads the public key out of a payload, and `str.strip`.
pub record Texts : Type 0 where
  pub payload_key : String → String
  pub strip : String → String

abbrev pub first_text : String → String → String
first_text text other = if str_eq text "" then other else text

-- `_stored_awg_public_key`
abbrev pub stored_key : Texts → VpnKey → String
stored_key t key = t.strip (first_text (t.payload_key key.payload) (text_of_key key.public_key))
