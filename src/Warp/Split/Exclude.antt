-- ===== src/Warp/Split/Exclude.antt =====
-- Subtraction over addresses: `address_exclude` of ipaddress, and the loops of
-- `subtract_networks` (warp/split_merge.py).
use vpnbot.Prelude.{
  ◌≤◌, ◌≡◌, refl, Bool, true, false, not, ◌&&◌, List, [], ◌∷◌, ◌++◌, length, any-append,
  if◌then◌else◌, arith,
}
use vpnbot.Warp.Split.Net.{Net, covers, covered, overlaps}

-- Every network with one more bit in front.
abbrev pub under : Bool → List Net → List Net
under b [] = []
under b (net ∷ nets) = (b ∷ net) ∷ under b nets

-- The halves that are split off on the way down to a network, the largest first.
unfoldable pub siblings : Net → List Net
siblings [] = []
siblings (b ∷ hole) = (not b ∷ []) ∷ under b (siblings hole)

-- `net.address_exclude(hole)`, for a `hole` inside `net`.
unfoldable pub address_exclude : Net → Net → List Net
unfolding siblings
address_exclude [] hole = siblings hole
address_exclude (b ∷ net) [] = []
address_exclude (b ∷ net) (c ∷ hole) = under b (address_exclude net hole)

-- The inner loop of `subtract_networks`: one hole against every network.
unfoldable pub carve : Net → List Net → List Net
unfolding overlaps address_exclude
carve hole [] = []
carve hole (net ∷ current) =
    let remaining = carve hole current in
    if not (overlaps net hole)
    then net ∷ remaining
    else if covers hole net
    then remaining
    else address_exclude net hole ++ remaining

covered-under_same :
    (b : Bool) (nets : List Net) (a : List Bool) → covered (under b nets) (b ∷ a) ≡ covered nets a
unfolding covers
covered-under_same b [] a = refl
covered-under_same true (net ∷ nets) a = ground (arith, covered-under_same true nets a)
covered-under_same false (net ∷ nets) a = ground (arith, covered-under_same false nets a)

covered-under_other :
    (b : Bool) (nets : List Net) (a : List Bool) → covered (under b nets) (not b ∷ a) ≡ false
unfolding covers
covered-under_other b [] a = refl
covered-under_other true (net ∷ nets) a = ground (arith, covered-under_other true nets a)
covered-under_other false (net ∷ nets) a = ground (arith, covered-under_other false nets a)

covered-siblings :
    (hole : Net) (a : List Bool)
    → length hole ≤ length a
    → covered (siblings hole) a ≡ not (covers hole a)
unfolding siblings covers
covered-siblings [] a h = refl
covered-siblings (b ∷ hole) [] h = absurd (omega arith)
covered-siblings (true ∷ hole) (true ∷ a) h =
    ground (arith, covered-under_same true (siblings hole) a, covered-siblings hole a)
covered-siblings (true ∷ hole) (false ∷ a) h =
    ground (arith, covered-under_other true (siblings hole) a)
covered-siblings (false ∷ hole) (true ∷ a) h =
    ground (arith, covered-under_other false (siblings hole) a)
covered-siblings (false ∷ hole) (false ∷ a) h =
    ground (arith, covered-under_same false (siblings hole) a, covered-siblings hole a)

-- Punching a hole out of a network leaves its other addresses.
pub covered-address_exclude :
    (net hole : Net) (a : List Bool)
    → covers net hole ≡ true
    → length hole ≤ length a
    → covered (address_exclude net hole) a ≡ (covers net a && not (covers hole a))
unfolding address_exclude covers
covered-address_exclude [] hole a h k = covered-siblings hole a k
covered-address_exclude (b ∷ net) [] a h k = ground arith
covered-address_exclude (b ∷ net) (c ∷ hole) [] h k = absurd (omega arith)
covered-address_exclude (true ∷ net) (c ∷ hole) (true ∷ a) h k = ground (
  arith,
  covered-under_same true (address_exclude net hole) a,
  covered-address_exclude net hole a,
)
covered-address_exclude (true ∷ net) (c ∷ hole) (false ∷ a) h k =
    ground (arith, covered-under_other true (address_exclude net hole) a)
covered-address_exclude (false ∷ net) (c ∷ hole) (true ∷ a) h k =
    ground (arith, covered-under_other false (address_exclude net hole) a)
covered-address_exclude (false ∷ net) (c ∷ hole) (false ∷ a) h k = ground (
  arith,
  covered-under_same false (address_exclude net hole) a,
  covered-address_exclude net hole a,
)

-- A subnet's addresses are its supernet's.
pub covers_trans :
    (n m : Net) (a : List Bool) → covers n m ≡ true → covers m a ≡ true → covers n a ≡ true
unfolding covers
covers_trans [] m a h k = refl
covers_trans (b ∷ n) [] a h k = ground arith
covers_trans (b ∷ n) (c ∷ m) [] h k = ground arith
covers_trans (b ∷ n) (c ∷ m) (d ∷ a) h k = ground (arith, covers_trans n m a)

-- Two networks that share an address are nested.
pub overlaps_of_covers :
    (n m : Net) (a : List Bool) → covers n a ≡ true → covers m a ≡ true → overlaps n m ≡ true
unfolding covers overlaps
overlaps_of_covers [] m a h k = refl
overlaps_of_covers (b ∷ n) [] a h k = ground arith
overlaps_of_covers (b ∷ n) (c ∷ m) [] h k = ground arith
overlaps_of_covers (b ∷ n) (c ∷ m) (d ∷ a) h k = ground (arith, overlaps_of_covers n m a)

-- One hole: what is left is what was there, without the hole.
pub covered-carve :
    (hole : Net) (current : List Net) (a : List Bool)
    → length hole ≤ length a
    → covered (carve hole current) a ≡ (covered current a && not (covers hole a))
unfolding carve
covered-carve hole [] a h = refl
covered-carve hole (net ∷ current) a h = ground (
  arith,
  covered-carve hole current a h,
  any-append (λ n. covers n a) (address_exclude net hole) (carve hole current),
  covered-address_exclude net hole a,
  covers_trans hole net a,
  overlaps_of_covers net hole a,
)
