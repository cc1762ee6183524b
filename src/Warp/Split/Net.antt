-- ===== src/Warp/Split/Net.antt =====
-- IPv4 networks as `ipaddress.IPv4Network` has them, and the network order of
-- warp/split_merge.py.
--
-- A network is the list of the first `prefixlen` bits of its network address, the highest bit
-- first; the host bits are zero (`strict=False`). An address is the list of its 32 bits.
use vpnbot.Prelude.{
  ℕ, ◌-◌, ◌^◌, ◌≡◌, ◌↔◌, refl, Bool, true, false, ◌&&◌, ◌||◌, List, [], ◌∷◌, length, any, Eq, arith,
}

abbrev pub Net : Type 0
Net = List Bool

abbrev pub address_bits : ℕ
address_bits = 32

abbrev pub bit_eq : Bool → Bool → Bool
bit_eq true b = b
bit_eq false true = false
bit_eq false false = true

-- `address in net`, and `other.subnet_of(net)`: the bits of `net` come first.
unfoldable pub covers : Net → List Bool → Bool
covers [] a = true
covers (b ∷ net) [] = false
covers (b ∷ net) (c ∷ a) = bit_eq b c && covers net a

-- Some network of the list contains the address.
abbrev pub covered : List Net → List Bool → Bool
covered nets a = any (λ net. covers net a) nets

-- `net.overlaps(other)`
unfoldable pub overlaps : Net → Net → Bool
unfolding covers
overlaps net other = covers net other || covers other net

-- `net.num_addresses`
unfoldable pub num_addresses : Net → ℕ
num_addresses net = 2 ^ (address_bits - length net)

-- `net.supernet()`; the network of prefix length 0 is its own supernet.
unfoldable pub supernet : Net → Net
supernet [] = []
supernet (b ∷ []) = []
supernet (b ∷ c ∷ net) = b ∷ supernet (c ∷ net)

unfoldable pub net_eqb : Net → Net → Bool
net_eqb [] [] = true
net_eqb [] (c ∷ m) = false
net_eqb (b ∷ n) [] = false
net_eqb (b ∷ n) (c ∷ m) = bit_eq b c && net_eqb n m

-- `(int(net.network_address), net.prefixlen)` of the first is at most that of the second.
unfoldable pub net_leb : Net → Net → Bool
net_leb [] m = true
net_leb (b ∷ n) [] = false
net_leb (true ∷ n) (true ∷ m) = net_leb n m
net_leb (true ∷ n) (false ∷ m) = false
net_leb (false ∷ n) (true ∷ m) = true
net_leb (false ∷ n) (false ∷ m) = net_leb n m

-- `net.broadcast_address >= other.broadcast_address`: the bits, filled up with ones.
unfoldable pub broadcast_geb : Net → Net → Bool
broadcast_geb [] m = true
broadcast_geb (b ∷ n) [] = b && broadcast_geb n []
broadcast_geb (true ∷ n) (true ∷ m) = broadcast_geb n m
broadcast_geb (true ∷ n) (false ∷ m) = true
broadcast_geb (false ∷ n) (true ∷ m) = false
broadcast_geb (false ∷ n) (false ∷ m) = broadcast_geb n m

pub net_eqb_sound : (n m : Net) → net_eqb n m ≡ true → n ≡ m
unfolding net_eqb
net_eqb_sound [] [] h = refl
net_eqb_sound [] (c ∷ m) h = ground arith
net_eqb_sound (b ∷ n) [] h = ground arith
net_eqb_sound (b ∷ n) (c ∷ m) h = ground (arith, net_eqb_sound n m)

pub net_eqb_refl : (n : Net) → net_eqb n n ≡ true
unfolding net_eqb
net_eqb_refl [] = refl
net_eqb_refl (b ∷ n) = ground (arith, net_eqb_refl n)

pub net_eqb_iff : (n m : Net) → (net_eqb n m ≡ true) ↔ (n ≡ m)
net_eqb_iff n m = (net_eqb_sound n m, λ h. cc (h, net_eqb_refl n))

instance abbrev pub net_eq : Eq Net
net_eq = record { beq = net_eqb; beq_iff = net_eqb_iff }
