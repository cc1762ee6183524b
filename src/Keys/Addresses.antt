-- ===== src/Keys/Addresses.antt =====
-- IpAllocator (adapters/ip_allocator.py) over `get_occupied_awg_ips` of repositories/vpn_keys.py.
--
-- An IPv4 address is its number; what it is printed as is left out. Python's parsers of addresses
-- and networks, `str.split` and `str.strip` are parameters; `IPv4Network` is modelled by what its
-- documentation says.
pub mod Taken
pub mod Free
pub mod Issue
use vpnbot.Prelude.{
  ℕ, zero, suc, ◌+◌, ◌-◌, ◌^◌, ◌<◌, String, Bool, true, false, not, ◌&&◌, ◌||◌, List, [], ◌∷◌,
  Option, none, some, any, keep, str_eq, ltb, leb, ◌==◌, if◌then◌else◌,
}
use vpnbot.Keys.Store.{
  VpnKey, VpnKeyType, xray, awg, hysteria2, pending_apply, active, apply_failed, pending_revoke,
  pending_delete, delete_failed, is_in, Store,
}
use vpnbot.Keys.Expiry.{rows}

pub record Network : Type 0 where
  pub network_address : ℕ
  pub prefixlen : ℕ

-- What the parsers of `ipaddress` give.
pub data Address : Type 0 where
  ipv4 : ℕ → Address
  ipv6 : Address

pub data AnyNetwork : Type 0 where
  network4 : Network → AnyNetwork
  network6 : AnyNetwork

pub data AllocationError : Type 0 where
  bad_settings only_ipv4 outside_network reserved_address bad_occupied bad_peer unreadable_config
        exhausted :
      AllocationError

pub data Allocation (A : Type 0) : Type 0 where
  allocated : A → Allocation A
  refused : AllocationError → Allocation A

abbrev pub num_addresses : Network → ℕ
num_addresses net = 2 ^ (32 - net.prefixlen)

-- `address in net`
abbrev pub contains : Network → ℕ → Bool
contains net n = leb net.network_address n && ltb n (net.network_address + num_addresses net)

abbrev pub broadcast_address : Network → ℕ
broadcast_address net = net.network_address + num_addresses net - 1

abbrev pub overlaps : Network → Network → Bool
overlaps a b =
    contains b a.network_address
    || contains b (broadcast_address a)
    || contains a b.network_address
    || contains a (broadcast_address b)

-- `net.hosts()`: all but the first and the last one, except in a net of one or two.
abbrev pub first_host : Network → ℕ
first_host net = if ltb 2 (num_addresses net) then suc net.network_address else net.network_address

abbrev pub host_count : Network → ℕ
host_count net = if ltb 2 (num_addresses net) then num_addresses net - 2 else num_addresses net

pub record IpAllocator : Type 0 where
  pub network : Network
  pub server_address : ℕ

-- The checks of `__init__`.
unfoldable pub checked : AnyNetwork → Address → Allocation IpAllocator
checked (network4 net) (ipv4 server) =
    if not (contains net server)
    then refused outside_network
    else (if (server == net.network_address) || (server == broadcast_address net)
        then refused reserved_address
        else allocated (record { network = net; server_address = server }))
checked _ _ = refused only_ipv4

-- `awg_config` is missing, cannot be read, or lists the AllowedIPs of the peers.
pub data PeerIps : Type 0 where
  no_config unreadable : PeerIps
  peer_ips : List String → PeerIps

abbrev pub client_ips : Option String → List String
client_ips none = []
client_ips (some ip) = ip ∷ []

-- The rows that reserve their address.
abbrev pub is_reserving : VpnKey → Bool
is_reserving key =
    elim key.key_type [ awg ↦ true | _ ↦ false ]
    && is_in
        (pending_apply ∷ active ∷ apply_failed ∷ pending_revoke ∷ pending_delete ∷ delete_failed
          ∷ [])
        key.status

unfoldable pub occupied_ips : List VpnKey → List String
occupied_ips [] = []
occupied_ips (key ∷ keys) =
    let rest = occupied_ips keys in
    if is_reserving key then elim key.client_ip [ none ↦ rest | some ip ↦ ip ∷ rest ] else rest

unfoldable pub get_occupied_awg_ips : Store → List String
unfolding occupied_ips
get_occupied_awg_ips s = occupied_ips (rows s.keys)

abbrev pub bind : {A B : Type 0} → Allocation A → (A → Allocation B) → Allocation B
bind (allocated a) f = f a
bind (refused e) f = refused e

abbrev pub cons_address : Address → List ℕ → List ℕ
cons_address (ipv4 n) ns = n ∷ ns
cons_address ipv6 ns = ns

abbrev pub cons_network : Network → AnyNetwork → List Network → List Network
cons_network pool (network4 net) nets = if overlaps net pool then net ∷ nets else nets
cons_network pool network6 nets = nets

abbrev pub read_address : Option Address → Allocation (List ℕ) → Allocation (List ℕ)
read_address none rest = refused bad_occupied
read_address (some address) rest = bind rest λ ns. allocated (cons_address address ns)

abbrev pub read_network :
    Network → Option AnyNetwork → Allocation (List Network) → Allocation (List Network)
read_network pool none rest = refused bad_peer
read_network pool (some net) rest = bind rest λ nets. allocated (cons_network pool net nets)

abbrev pub is_taken : ℕ → List ℕ → List Network → ℕ → Bool
is_taken server occupied nets n =
    (n == server) || any (λ m. m == n) occupied || any (λ net. contains net n) nets

-- The loop over the candidates, of which there are so many from this one on.
unfoldable pub scan : (ℕ → Bool) → ℕ → ℕ → Allocation ℕ
scan taken zero candidate = refused exhausted
scan taken (suc count) candidate = elim (taken candidate) [
  | true ↦ scan taken count (suc candidate)
  | false ↦ allocated candidate
]

module _ (address_of : String → Option Address) (network_of : String → Option AnyNetwork)
    (before_slash strip : String → String) where
  abbrev pub make_parsed : Option AnyNetwork → Option Address → Allocation IpAllocator
  make_parsed (some net) (some server) = checked net server
  make_parsed _ _ = refused bad_settings

  -- `__init__`
  unfoldable pub make_allocator : String → String → Allocation IpAllocator
  unfolding checked
  make_allocator network server_address =
      make_parsed (network_of network) (address_of (before_slash server_address))

  abbrev pub text_of : String → String
  text_of value = strip (before_slash value)

  unfoldable pub occupied_addresses : List String → Allocation (List ℕ)
  occupied_addresses [] = allocated []
  occupied_addresses (value ∷ values) =
      let rest = occupied_addresses values in
      if str_eq (text_of value) "" then rest else read_address (address_of (text_of value)) rest

  unfoldable pub peer_networks : Network → List String → Allocation (List Network)
  peer_networks pool [] = allocated []
  peer_networks pool (value ∷ values) =
      let rest = peer_networks pool values in
      if str_eq value "" then rest else read_network pool (network_of value) rest

  unfoldable pub occupied_networks : Network → PeerIps → Allocation (List Network)
  unfolding peer_networks
  occupied_networks pool no_config = allocated []
  occupied_networks pool unreadable = refused unreadable_config
  occupied_networks pool (peer_ips values) = peer_networks pool values

  unfoldable pub next_free_ip : IpAllocator → PeerIps → Store → Allocation ℕ
  unfolding get_occupied_awg_ips occupied_addresses occupied_networks scan
  next_free_ip allocator peers s = bind (occupied_addresses (get_occupied_awg_ips s)) λ occupied.
      bind (occupied_networks allocator.network peers) λ nets.
        scan (is_taken allocator.server_address occupied nets) (host_count allocator.network)
          (first_host allocator.network)
