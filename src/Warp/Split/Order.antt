-- ===== src/Warp/Split/Order.antt =====
-- `sort_networks` (warp/split_merge.py), and the second pass of `collapse_addresses` (ipaddress).
use vpnbot.Prelude.{
  ◌≡◌, refl, Bool, true, false, ◌||◌, List, [], ◌∷◌, All, Bool-cases, inl, inr, if◌then◌else◌,
  arith,
}
use vpnbot.Warp.Split.Net.{Net, covers, covered, net_leb, broadcast_geb}
use vpnbot.Warp.Split.Exclude.{covers_trans}

unfoldable pub insert_net : Net → List Net → List Net
unfolding net_leb
insert_net net [] = net ∷ []
insert_net net (m ∷ nets) = if net_leb net m then net ∷ m ∷ nets else m ∷ insert_net net nets

-- `sort_networks`: by address, then by mask length.
unfoldable pub sort_networks : List Net → List Net
unfolding insert_net
sort_networks [] = []
sort_networks (net ∷ nets) = insert_net net (sort_networks nets)

-- The pass of `collapse_addresses` over the sorted networks: a network that ends no later than
-- the last one that was kept is dropped.
unfoldable pub keep_after : Net → List Net → List Net
unfolding broadcast_geb
keep_after last [] = []
keep_after last (net ∷ nets) =
    let dropped = keep_after last nets in
    let kept = net ∷ keep_after net nets in if broadcast_geb last net then dropped else kept

unfoldable pub drop_subsumed : List Net → List Net
unfolding keep_after
drop_subsumed [] = []
drop_subsumed (net ∷ nets) = net ∷ keep_after net nets

abbrev pub AllAbove : Net → List Net → Type 0
AllAbove n nets = All (λ m. net_leb n m ≡ true) nets

abbrev pub IsSorted : List Net → Type 0
IsSorted [] = Unit
IsSorted (n ∷ nets) = AllAbove n nets × IsSorted nets

pub net_leb_total : (n m : Net) → net_leb n m ≡ false → net_leb m n ≡ true
unfolding net_leb
net_leb_total [] m h = ground arith
net_leb_total (b ∷ n) [] h = refl
net_leb_total (true ∷ n) (true ∷ m) h = net_leb_total n m h
net_leb_total (true ∷ n) (false ∷ m) h = refl
net_leb_total (false ∷ n) (true ∷ m) h = ground arith
net_leb_total (false ∷ n) (false ∷ m) h = net_leb_total n m h

pub net_leb_trans : (n m k : Net) → net_leb n m ≡ true → net_leb m k ≡ true → net_leb n k ≡ true
unfolding net_leb
net_leb_trans [] m k h g = refl
net_leb_trans (b ∷ n) [] k h g = ground arith
net_leb_trans (b ∷ n) (c ∷ m) [] h g = ground arith
net_leb_trans (true ∷ n) (true ∷ m) (true ∷ k) h g = net_leb_trans n m k h g
net_leb_trans (false ∷ n) (false ∷ m) (false ∷ k) h g = net_leb_trans n m k h g
net_leb_trans (b ∷ n) (c ∷ m) (d ∷ k) h g = ground arith

AllAbove-weaken :
    (n m : Net) (nets : List Net) → net_leb n m ≡ true → AllAbove m nets → AllAbove n nets
AllAbove-weaken n m [] h all = tt
AllAbove-weaken n m (k ∷ nets) h all =
    (net_leb_trans n m k h all.0, AllAbove-weaken n m nets h all.1)

AllAbove-insert_net :
    (n m : Net) (nets : List Net)
    → net_leb n m ≡ true
    → AllAbove n nets
    → AllAbove n (insert_net m nets)
unfolding insert_net
AllAbove-insert_net n m [] h all = (h, tt)
AllAbove-insert_net n m (k ∷ nets) h all = elim (Bool-cases (net_leb m k)) [
  | inl le ↦ rw le (h, all)
  | inr gt ↦ rw gt (all.0, AllAbove-insert_net n m nets h all.1)
]

pub insert_net-IsSorted : (n : Net) (nets : List Net) → IsSorted nets → IsSorted (insert_net n nets)
unfolding insert_net
insert_net-IsSorted n [] s = (tt, tt)
insert_net-IsSorted n (m ∷ nets) s = elim (Bool-cases (net_leb n m)) [
  | inl le ↦ rw le ((le, AllAbove-weaken n m nets le s.0), s)
  | inr gt ↦
      rw gt
        (AllAbove-insert_net m n nets (net_leb_total n m gt) s.0, insert_net-IsSorted n nets s.1)
]

pub sort_networks-IsSorted : (nets : List Net) → IsSorted (sort_networks nets)
unfolding sort_networks
sort_networks-IsSorted [] = tt
sort_networks-IsSorted (n ∷ nets) =
    insert_net-IsSorted n (sort_networks nets) (sort_networks-IsSorted nets)

covered-insert_net :
    (n : Net) (nets : List Net) (a : List Bool)
    → covered (insert_net n nets) a ≡ (covers n a || covered nets a)
unfolding insert_net
covered-insert_net n [] a = refl
covered-insert_net n (m ∷ nets) a = ground (arith, covered-insert_net n nets a)

pub covered-sort_networks :
    (nets : List Net) (a : List Bool) → covered (sort_networks nets) a ≡ covered nets a
unfolding sort_networks
covered-sort_networks [] a = refl
covered-sort_networks (n ∷ nets) a =
    ground (arith, covered-insert_net n (sort_networks nets) a, covered-sort_networks nets a)

-- In sorted order, a network that ends no later than an earlier one lies inside it.
pub covers_of_broadcast_geb :
    (n m : Net) → net_leb n m ≡ true → broadcast_geb n m ≡ true → covers n m ≡ true
unfolding net_leb broadcast_geb covers
covers_of_broadcast_geb [] m h g = refl
covers_of_broadcast_geb (b ∷ n) [] h g = ground arith
covers_of_broadcast_geb (true ∷ n) (true ∷ m) h g = covers_of_broadcast_geb n m h g
covers_of_broadcast_geb (false ∷ n) (false ∷ m) h g = covers_of_broadcast_geb n m h g
covers_of_broadcast_geb (b ∷ n) (c ∷ m) h g = ground arith

covered-keep_after :
    (last : Net) (nets : List Net) (a : List Bool)
    → AllAbove last nets
    → IsSorted nets
    → (covers last a || covered (keep_after last nets) a) ≡ (covers last a || covered nets a)
unfolding keep_after
covered-keep_after last [] a above s = refl
covered-keep_after last (n ∷ nets) a above s = ground (
  arith,
  covers_of_broadcast_geb last n above.0,
  covers_trans last n a,
  covered-keep_after last nets a above.1 s.1,
  covered-keep_after n nets a s.0 s.1,
)

pub covered-drop_subsumed :
    (nets : List Net) (a : List Bool)
    → IsSorted nets
    → covered (drop_subsumed nets) a ≡ covered nets a
unfolding drop_subsumed
covered-drop_subsumed [] a s = refl
covered-drop_subsumed (n ∷ nets) a s = covered-keep_after n nets a s.0 s.1
