-- ===== src/Keys/Addresses/Taken.antt =====
-- The addresses that are taken, as lists and as texts (adapters/ip_allocator.py).
use vpnbot.Prelude.{
  ℕ, ◌≡◌, refl, sym, ap, ◌∙◌, String, Bool, true, false, not, ◌&&◌, ◌||◌, List, [], ◌∷◌, Option,
  none, some, any, str_eq, ◌==◌, arith, Bool-cases, Option-cases, inl, inr, ◌⊎◌,
}
use vpnbot.Keys.Store.{
  VpnKey, VpnKeyStatus, is_in, awg, pending_apply, active, apply_failed, pending_revoke, revoked,
  pending_delete, delete_failed, deleted, failed,
}
use vpnbot.Keys.Addresses.{
  Network, Address, ipv4, ipv6, AnyNetwork, network4, network6, Allocation, allocated, refused,
  AllocationError, exhausted, contains, overlaps, PeerIps, no_config, unreadable, peer_ips,
  is_reserving, occupied_ips, cons_network, occupied_addresses, peer_networks, occupied_networks,
}

-- Two networks with a common address overlap.
overlaps-common :
    (a b : Network) (n : ℕ) → contains a n ≡ true → contains b n ≡ true → overlaps a b ≡ true
overlaps-common a b n ha hb = ground arith

abbrev network_names : ℕ → AnyNetwork → Bool
network_names n (network4 net) = contains net n
network_names n network6 = false

-- A peer's network that misses the pool has none of its addresses.
cons_network-any :
    (pool : Network) (n : ℕ) (net : AnyNetwork) (nets : List Network)
    → contains pool n ≡ true
    → any (λ m. contains m n) (cons_network pool net nets)
      ≡ (network_names n net || any (λ m. contains m n) nets)
cons_network-any pool n network6 nets inside = refl
cons_network-any pool n (network4 net) nets inside = elim (Bool-cases (overlaps net pool)) [
  | inl e ↦ rw e refl
  | inr e ↦ elim (Bool-cases (contains net n)) [
    | inr missing ↦ rw (e, missing) refl
    | inl common ↦
        let clash : true ≡ false = sym (overlaps-common net pool n common inside) ∙ e in
        ground (arith, clash)
  ]
]

pub Allocation-cases :
    {A : Type 0} (r : Allocation A)
    → ((a : A) × (r ≡ allocated a)) ⊎ ((e : AllocationError) × (r ≡ refused e))
Allocation-cases (allocated a) = inl (a, refl)
Allocation-cases (refused e) = inr (e, refl)

-- A key whose peer may be on the server keeps its address.
abbrev pub may_be_served : VpnKeyStatus → Bool
may_be_served revoked = false
may_be_served deleted = false
may_be_served failed = false
may_be_served _ = true

abbrev pub keeps_address : VpnKey → Bool
keeps_address key = elim key.key_type [ awg ↦ true | _ ↦ false ] && may_be_served key.status

reserving_statuses :
    (status : VpnKeyStatus)
    → is_in
        (pending_apply ∷ active ∷ apply_failed ∷ pending_revoke ∷ pending_delete ∷ delete_failed
          ∷ [])
        status
      ≡ may_be_served status
reserving_statuses pending_apply = refl
reserving_statuses active = refl
reserving_statuses apply_failed = refl
reserving_statuses pending_revoke = refl
reserving_statuses revoked = refl
reserving_statuses pending_delete = refl
reserving_statuses delete_failed = refl
reserving_statuses deleted = refl
reserving_statuses failed = refl

is_reserving-keeps_address : (key : VpnKey) → is_reserving key ≡ keeps_address key
is_reserving-keeps_address key =
    ap (λ b. elim key.key_type [ awg ↦ true | _ ↦ false ] && b) (reserving_statuses key.status)

module _ (address_of : String → Option Address) (network_of : String → Option AnyNetwork)
    (before_slash strip : String → String) where
  -- A stored text reads as this address.
  abbrev pub reads_as : ℕ → String → Bool
  reads_as n text =
      not (str_eq (strip (before_slash text)) "") && elim (address_of (strip (before_slash text))) [
        | none ↦ false
        | some (ipv4 m) ↦ m == n
        | some ipv6 ↦ false
      ]

  -- The row of an AWG key that is not deleted, revoked or failed holds this address.
  abbrev pub holds : ℕ → VpnKey → Bool
  holds n key = keeps_address key && elim key.client_ip [ none ↦ false | some ip ↦ reads_as n ip ]

  -- The text names a network with this address.
  abbrev pub names : ℕ → String → Bool
  names n value = not (str_eq value "") && elim (network_of value) [
    | none ↦ false
    | some (network4 net) ↦ contains net n
    | some network6 ↦ false
  ]

  abbrev pub peer_names : ℕ → PeerIps → Bool
  peer_names n no_config = false
  peer_names n unreadable = false
  peer_names n (peer_ips values) = any (names n) values

  pub any-occupied_ips :
      (n : ℕ) (keys : List VpnKey) → any (reads_as n) (occupied_ips keys) ≡ any (holds n) keys
  unfolding occupied_ips
  any-occupied_ips n [] = refl
  any-occupied_ips n (key ∷ keys) =
      rw (← is_reserving-keeps_address key) (ground (arith, any-occupied_ips n keys))

  pub occupied_addresses-any :
      (n : ℕ) (values : List String) (ns : List ℕ)
      → occupied_addresses address_of network_of before_slash strip values ≡ allocated ns
      → any (λ m. m == n) ns ≡ any (reads_as n) values
  unfolding occupied_addresses
  occupied_addresses-any n [] ns h = ground arith
  occupied_addresses-any n (value ∷ values) ns h =
      let rest = occupied_addresses address_of network_of before_slash strip values in
      elim (Allocation-cases rest) [
        | inl (ms, e) ↦ ground (arith, e, h, occupied_addresses-any n values ms e)
        | inr (error, e) ↦ ground (arith, e, h)
      ]

  peer_networks-any :
      (pool : Network) (n : ℕ) (values : List String) (nets : List Network)
      → contains pool n ≡ true
      → peer_networks address_of network_of before_slash strip pool values ≡ allocated nets
      → any (λ net. contains net n) nets ≡ any (names n) values
  unfolding peer_networks
  peer_networks-any pool n [] nets inside h = ground arith
  peer_networks-any pool n (value ∷ values) nets inside h =
      let rest = peer_networks address_of network_of before_slash strip pool values in
      elim (Allocation-cases rest) [
        | inl (ms, e) ↦ elim (Bool-cases (str_eq value "")) [
          | inl blank ↦
              rw blank (peer_networks-any pool n values nets inside (sym (rw blank refl) ∙ h))
          | inr text ↦ elim (Option-cases (network_of value)) [
            | inl bad ↦ ground (arith, text, bad, h)
            | inr (net, good) ↦
                let shape : allocated (cons_network pool net ms) ≡ allocated nets =
                  sym (rw (text, good, e) refl) ∙ h in
                rw (text, good)
                  (ground (
                    arith,
                    shape,
                    cons_network-any pool n net ms inside,
                    peer_networks-any pool n values ms inside e,
                  ))
          ]
        ]
        | inr (error, e) ↦ ground (arith, e, h)
      ]

  pub occupied_networks-any :
      (pool : Network) (n : ℕ) (peers : PeerIps) (nets : List Network)
      → contains pool n ≡ true
      → occupied_networks address_of network_of before_slash strip pool peers ≡ allocated nets
      → any (λ net. contains net n) nets ≡ peer_names n peers
  unfolding occupied_networks
  occupied_networks-any pool n no_config nets inside h = ground arith
  occupied_networks-any pool n unreadable nets inside h = ground arith
  occupied_networks-any pool n (peer_ips values) nets inside h =
      peer_networks-any pool n values nets inside h

  pub occupied_addresses-error :
      (values : List String)
      → occupied_addresses address_of network_of before_slash strip values ≡ refused exhausted
      → false ≡ true
  unfolding occupied_addresses
  occupied_addresses-error [] h = ground arith
  occupied_addresses-error (value ∷ values) h = ground (arith, occupied_addresses-error values)

  peer_networks-error :
      (pool : Network) (values : List String)
      → peer_networks address_of network_of before_slash strip pool values ≡ refused exhausted
      → false ≡ true
  unfolding peer_networks
  peer_networks-error pool [] h = ground arith
  peer_networks-error pool (value ∷ values) h = ground (arith, peer_networks-error pool values)

  pub occupied_networks-error :
      (pool : Network) (peers : PeerIps)
      → occupied_networks address_of network_of before_slash strip pool peers ≡ refused exhausted
      → false ≡ true
  unfolding occupied_networks
  occupied_networks-error pool no_config h = ground arith
  occupied_networks-error pool unreadable h = ground arith
  occupied_networks-error pool (peer_ips values) h = peer_networks-error pool values h
