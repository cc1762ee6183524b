-- ===== src/Keys/Addresses/Free.antt =====
-- What an allocated address is free of (adapters/ip_allocator.py).
use vpnbot.Prelude.{
  ℕ, zero, suc, ◌+◌, ◌<◌, ◌≤◌, ◌≡◌, refl, sym, ap, ◌∙◌, String, Bool, true, false, ◌||◌, List,
  Option, any, ◌==◌, ==_iff, arith, Bool-cases, inl, inr, ◌⊎◌,
}
use vpnbot.Keys.Store.{Store}
use vpnbot.Keys.Expiry.{rows}
use vpnbot.Keys.Addresses.{
  Network, Address, AnyNetwork, Allocation, allocated, refused, AllocationError, exhausted,
  contains, first_host, host_count, IpAllocator, PeerIps, get_occupied_awg_ips, occupied_addresses,
  occupied_networks, is_taken, scan, next_free_ip,
}
use vpnbot.Keys.Addresses.Taken.{
  holds, peer_names, Allocation-cases, any-occupied_ips, occupied_addresses-any,
  occupied_networks-any, occupied_addresses-error, occupied_networks-error,
}

scan-free :
    (taken : ℕ → Bool) (count candidate n : ℕ)
    → scan taken count candidate ≡ allocated n
    → (candidate ≤ n) × (n < candidate + count) × (taken n ≡ false)
unfolding scan
scan-free taken zero candidate n h = ground arith
scan-free taken (suc count) candidate n h = elim (Bool-cases (taken candidate)) [
  | inl e ↦ ground (arith, e, scan-free taken count (suc candidate) n)
  | inr e ↦ ground (arith, e)
]

scan-exhausted :
    (taken : ℕ → Bool) (count candidate n : ℕ) (error : AllocationError)
    → scan taken count candidate ≡ refused error
    → candidate ≤ n
    → n < candidate + count
    → taken n ≡ true
unfolding scan
scan-exhausted taken zero candidate n error h low high = ground (arith, low, high)
scan-exhausted taken (suc count) candidate n error h low high =
    elim (Bool-cases (taken candidate)) [
      | inr e ↦ ground (arith, e)
      | inl e ↦ elim (Bool-cases (candidate == n)) [
        | inl same ↦ rw (← (==_iff candidate n).0 same) e
        | inr other ↦
            ground
              (arith, e, ==_iff candidate n, scan-exhausted taken count (suc candidate) n error)
      ]
    ]

hosts-contains :
    (net : Network) (n : ℕ)
    → first_host net ≤ n
    → n < first_host net + host_count net
    → contains net n ≡ true
hosts-contains net n low high = ground arith

refused-injective : (e f : AllocationError) → ◌≡◌ {A = Allocation ℕ} (refused e) (refused f) → e ≡ f
refused-injective e f h = ground (arith, h)

module _ (address_of : String → Option Address) (network_of : String → Option AnyNetwork)
    (before_slash strip : String → String) where
  module _ (allocator : IpAllocator) (peers : PeerIps) (s : Store) where
    abbrev pool : Network
    pool = allocator.network

    abbrev addresses : Allocation (List ℕ)
    addresses = occupied_addresses address_of network_of before_slash strip (get_occupied_awg_ips s)

    abbrev networks : Allocation (List Network)
    networks = occupied_networks address_of network_of before_slash strip pool peers

    -- What the candidates are tested for, once both lists are read.
    is_taken_lem :
        (ns : List ℕ) (nets : List Network) (n : ℕ)
        → addresses ≡ allocated ns
        → networks ≡ allocated nets
        → contains pool n ≡ true
        → is_taken allocator.server_address ns nets n ≡ (
            (n == allocator.server_address)
            || any (holds address_of network_of before_slash strip n) (rows s.keys)
            || peer_names address_of network_of before_slash strip n peers)
    unfolding get_occupied_awg_ips
    is_taken_lem ns nets n e f inside =
        rw
          (
            occupied_addresses-any address_of network_of before_slash strip n
                (get_occupied_awg_ips s) ns e,
            occupied_networks-any address_of network_of before_slash strip pool n peers nets inside
                f,
            any-occupied_ips address_of network_of before_slash strip n (rows s.keys),
          )
          refl

    -- The answer is the scan's, or the error of one of the lists.
    next_free_ip-cases :
        ((ns : List ℕ) × (nets : List Network) × (addresses ≡ allocated ns)
          × (networks ≡ allocated nets)
          × (next_free_ip address_of network_of before_slash strip allocator peers s
              ≡ scan
                  (is_taken allocator.server_address ns nets)
                  (host_count pool)
                  (first_host pool)))
        ⊎ ((error : AllocationError) × (next_free_ip address_of network_of before_slash strip
                allocator peers s
              ≡ refused error)
            × ((addresses ≡ refused error) ⊎ (networks ≡ refused error)))
    unfolding next_free_ip
    next_free_ip-cases = elim (Allocation-cases addresses) [
      | inr (error, e) ↦ inr (error, rw e refl, inl e)
      | inl (ns, e) ↦ elim (Allocation-cases networks) [
        | inr (error, f) ↦ inr (error, rw (e, f) refl, inr f)
        | inl (nets, f) ↦ inl (ns, nets, e, f, rw (e, f) refl)
      ]
    ]

  -- An address that is allocated is a usable host of the pool, and it is not the server's, no
  -- AWG key that is not revoked, deleted or failed holds it, and no peer of the AWG config has it.
  pub next_free_ip-free :
      (allocator : IpAllocator) (peers : PeerIps) (s : Store) (n : ℕ)
      → next_free_ip address_of network_of before_slash strip allocator peers s ≡ allocated n
      → (first_host allocator.network ≤ n)
        × (n < first_host allocator.network + host_count allocator.network)
        × ((n == allocator.server_address) ≡ false)
        × (any (holds address_of network_of before_slash strip n) (rows s.keys) ≡ false)
        × (peer_names address_of network_of before_slash strip n peers ≡ false)
  next_free_ip-free allocator peers s n h = elim (next_free_ip-cases allocator peers s) [
    | inr (error, e, which) ↦ ground (arith, e, h)
    | inl (ns, nets, e, f, shape) ↦
        let net = allocator.network in
        let taken = is_taken allocator.server_address ns nets in
        let (low, high, free) =
          scan-free taken (host_count net) (first_host net) n (sym shape ∙ h) in
        let test = is_taken_lem allocator peers s ns nets n e f (hosts-contains net n low high) in
        (
          low,
          high,
          ground (arith, free, test),
          ground (arith, free, test),
          ground (arith, free, test),
        )
  ]

  -- An allocation is refused as exhausted only if every usable host of the pool is the server's,
  -- held by an AWG key that is not revoked, deleted or failed, or had by a peer.
  pub next_free_ip-exhausted :
      (allocator : IpAllocator) (peers : PeerIps) (s : Store) (n : ℕ)
      → next_free_ip address_of network_of before_slash strip allocator peers s ≡ refused exhausted
      → first_host allocator.network ≤ n
      → n < first_host allocator.network + host_count allocator.network
      → ((n == allocator.server_address)
          || any (holds address_of network_of before_slash strip n) (rows s.keys)
          || peer_names address_of network_of before_slash strip n peers)
        ≡ true
  next_free_ip-exhausted allocator peers s n h low high =
      elim (next_free_ip-cases allocator peers s) [
        | inl (ns, nets, e, f, shape) ↦
            let net = allocator.network in
            let taken = is_taken allocator.server_address ns nets in
            sym (is_taken_lem allocator peers s ns nets n e f (hosts-contains net n low high))
            ∙ scan-exhausted taken (host_count net) (first_host net) n exhausted (sym shape ∙ h) low
                high
        | inr (error, e, which) ↦
            let same : error ≡ exhausted = refused-injective error exhausted (sym e ∙ h) in
            elim which [
              | inl f ↦ ground (
                arith,
                occupied_addresses-error address_of network_of before_slash strip
                    (get_occupied_awg_ips s) (f ∙ ap refused same),
              )
              | inr f ↦ ground (
                arith,
                occupied_networks-error address_of network_of before_slash strip allocator.network
                    peers (f ∙ ap refused same),
              )
            ]
      ]
