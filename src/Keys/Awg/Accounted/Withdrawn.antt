-- ===== src/Keys/Awg/Accounted/Withdrawn.antt =====
-- What a removal takes off the AWG server, and what an addition puts there.
use vpnbot.Prelude.{
  ℕ, ◌≡◌, refl, String, Bool, true, false, not, ◌||◌, List, [], ◌∷◌, keep, str_eq, eq_iff, arith,
  Bool-cases, inl, inr,
}
use vpnbot.Keys.Awg.{
  Peer, Server, Reply, given, refused, Added, added, not_added, Removed, removed, not_removed,
  add_peer, remove_peer, is_managed, with_peer, with_runtime, without_peer, without_runtime,
}
use vpnbot.Keys.Awg.Accounted.{has_access, peer_access, runtime_access}

any-keep :
    (public_key taken : String) (runtime : List String)
    → runtime_access (keep (λ other. not (str_eq other taken)) runtime) public_key ≡ true
    → (runtime_access runtime public_key ≡ true) × (str_eq taken public_key ≡ false)
any-keep public_key taken [] h = ground (arith, h)
any-keep public_key taken (other ∷ runtime) h = ground (
  arith,
  h,
  any-keep public_key taken runtime,
  eq_iff other taken,
  eq_iff other public_key,
  eq_iff taken public_key,
)

any-keep_peer :
    (id : ℕ) (public_key taken : String) (config : List Peer)
    → peer_access (without_peer true id taken config) public_key ≡ true
    → (peer_access config public_key ≡ true) × (str_eq taken public_key ≡ false)
any-keep_peer id public_key taken [] h = ground (arith, h)
any-keep_peer id public_key taken (peer ∷ config) h = elim (Bool-cases (is_managed id peer)) [
  | inl e ↦ ground (
    arith,
    e,
    h,
    any-keep_peer id public_key taken config,
    eq_iff peer.public_key taken,
    eq_iff peer.public_key public_key,
    eq_iff taken public_key,
  )
  | inr e ↦ ground (
    arith,
    e,
    h,
    any-keep_peer id public_key taken config,
    eq_iff peer.public_key taken,
    eq_iff peer.public_key public_key,
    eq_iff taken public_key,
  )
]

without_peer-access :
    (b : Bool) (id : ℕ) (taken public_key : String) (config : List Peer)
    → peer_access (without_peer b id taken config) public_key ≡ true
    → peer_access config public_key ≡ true
without_peer-access true id taken public_key config h =
    (any-keep_peer id public_key taken config h).0
without_peer-access false id taken public_key config h = h

without_runtime-access :
    (b : Bool) (taken public_key : String) (runtime : List String)
    → runtime_access (without_runtime b taken runtime) public_key ≡ true
    → runtime_access runtime public_key ≡ true
without_runtime-access true taken public_key runtime h = (any-keep public_key taken runtime h).0
without_runtime-access false taken public_key runtime h = h

-- The accesses of the second server are among those of the first.
abbrev pub IsFewer : Server → Server → Type 0
IsFewer before after =
    (public_key : String) → has_access after public_key ≡ true → has_access before public_key ≡ true

-- What a removal of a public key ends in: it never adds an access and leaves the rows alone, and
-- when it does not raise, the key has no access.
abbrev pub IsWithdrawn : String → Server → Reply (Unit {0}) × Server → Type 0
IsWithdrawn taken before (given a, after) =
    IsFewer before after × (after.store ≡ before.store) × (has_access after taken ≡ false)
IsWithdrawn taken before (refused e, after) = IsFewer before after × (after.store ≡ before.store)

fewer :
    (of_config of_runtime : Bool) (id : ℕ) (taken : String) (s : Server)
    → IsFewer s (record s {
      config = without_peer of_config id taken s.config;
      runtime = without_runtime of_runtime taken s.runtime;
    })
fewer of_config of_runtime id taken s public_key h =
    elim (Bool-cases (peer_access (without_peer of_config id taken s.config) public_key)) [
      | inl e ↦ ground (arith, without_peer-access of_config id taken public_key s.config e)
      | inr e ↦ ground (arith, h, e, without_runtime-access of_runtime taken public_key s.runtime)
    ]

gone :
    (id : ℕ) (taken : String) (config : List Peer) (runtime : List String)
    → (peer_access (without_peer true id taken config) taken
        || runtime_access (without_runtime true taken runtime) taken)
      ≡ false
gone id taken config runtime =
    elim (Bool-cases (peer_access (without_peer true id taken config) taken)) [
      | inl e ↦ ground (arith, any-keep_peer id taken taken config e, eq_iff taken taken)
      | inr e ↦ elim (Bool-cases (runtime_access (without_runtime true taken runtime) taken)) [
        | inl e' ↦ ground (arith, any-keep taken taken runtime e', eq_iff taken taken)
        | inr e' ↦ ground (arith, e, e')
      ]
    ]

pub remove_peer-IsWithdrawn :
    (answer : Removed) (id : ℕ) (taken : String) (s : Server)
    → IsWithdrawn taken s (remove_peer answer id taken s)
unfolding remove_peer
remove_peer-IsWithdrawn removed id taken s =
    (fewer true true id taken s, refl, gone id taken s.config s.runtime)
remove_peer-IsWithdrawn (not_removed of_config of_runtime) id taken s =
    (fewer of_config of_runtime id taken s, refl)

with_peer-access :
    (b : Bool) (peer : Peer) (public_key : String) (config : List Peer)
    → peer_access (with_peer b peer config) public_key ≡ true
    → (str_eq peer.public_key public_key || peer_access config public_key) ≡ true
with_peer-access true peer public_key config h = h
with_peer-access false peer public_key config h = ground (arith, h)

with_runtime-access :
    (b : Bool) (added_key public_key : String) (runtime : List String)
    → runtime_access (with_runtime b added_key runtime) public_key ≡ true
    → (str_eq added_key public_key || runtime_access runtime public_key) ≡ true
with_runtime-access true added_key public_key runtime h = h
with_runtime-access false added_key public_key runtime h = ground (arith, h)

-- An addition gives access to its own public key alone.
pub add_peer-access :
    (answer : Added) (peer : Peer) (s : Server) (public_key : String)
    → has_access (add_peer answer peer s).1 public_key ≡ true
    → (str_eq peer.public_key public_key || has_access s public_key) ≡ true
unfolding add_peer
add_peer-access added peer s public_key h = ground (arith, h)
add_peer-access (not_added in_config in_runtime) peer s public_key h = ground (
  arith,
  h,
  with_peer-access in_config peer public_key s.config,
  with_runtime-access in_runtime peer.public_key public_key s.runtime,
)

pub add_peer-store :
    (answer : Added) (peer : Peer) (s : Server) → (add_peer answer peer s).1.store ≡ s.store
unfolding add_peer
add_peer-store added peer s = refl
add_peer-store (not_added in_config in_runtime) peer s = refl
