-- ===== src/Warp/Split/Collapse.antt =====
-- `collapse` (warp/split_merge.py), with the first pass of `collapse_addresses` (ipaddress): a
-- stack of networks to merge, and a dict from a supernet to the one network seen below it.
pub mod Cover
use vpnbot.Prelude.{
  ℕ, zero, suc, ◌+◌, ◌*◌, ◌≤◌, ◌<◌, ◌≡◌, ◌≢◌, refl, Bool, true, false, not, ◌&&◌, ◌||◌, List, [],
  ◌∷◌, ◌++◌, Option, none, some, Dict, get, put, remove, length, reverse, All, Bool-cases,
  Option-cases, inl, inr, length-put_new, length-remove, any, any-append, if◌then◌else◌, arith,
}
use vpnbot.Warp.Split.Net.{Net, covers, covered, supernet, net_eqb, net_eqb_sound, net_eq}
use vpnbot.Warp.Split.Order.{
  sort_networks, drop_subsumed, covered-sort_networks, sort_networks-IsSorted,
  covered-drop_subsumed,
}

-- `subnets.values()`
abbrev pub values : Dict Net Net → List Net
values [] = []
values ((k, v) ∷ d) = v ∷ values d

-- `while to_merge:`, with fuel. The stack has the last element of `to_merge` first.
unfoldable pub merge_siblings : ℕ → List Net → Dict Net Net → List Net
unfolding get put remove supernet net_eqb
merge_siblings zero stack subnets = values subnets
merge_siblings (suc fuel) [] subnets = values subnets
merge_siblings (suc fuel) (net ∷ stack) subnets =
    let key = supernet net in
    elim (get subnets key) [
      | none ↦ merge_siblings fuel stack (put subnets key net)
      | some existing ↦ elim (net_eqb existing net) [
        | true ↦ merge_siblings fuel stack subnets
        | false ↦ merge_siblings fuel (key ∷ stack) (remove subnets key)
      ]
    ]

-- Each round lowers twice the stack plus the dict, so this fuel is enough.
unfoldable pub collapse_addresses : List Net → List Net
unfolding merge_siblings sort_networks drop_subsumed
collapse_addresses nets =
    drop_subsumed (sort_networks (merge_siblings (2 * length nets + 1) (reverse nets) []))

unfoldable pub collapse : List Net → List Net
unfolding collapse_addresses sort_networks
collapse nets = sort_networks (collapse_addresses nets)

-- Two different networks with one supernet make it up.
pub covers-supernet :
    (n m : Net) (a : List Bool)
    → supernet n ≡ supernet m
    → n ≢ m
    → length n ≤ length a
    → length m ≤ length a
    → covers (supernet n) a ≡ (covers n a || covers m a)
unfolding covers supernet
covers-supernet [] m a e ne h k = refl
covers-supernet (b ∷ []) [] a e ne h k = ground arith
covers-supernet (b ∷ []) (c ∷ []) [] e ne h k = absurd (omega arith)
covers-supernet (true ∷ []) (true ∷ []) (x ∷ a) e ne h k = absurd (ne refl)
covers-supernet (true ∷ []) (false ∷ []) (x ∷ a) e ne h k = ground arith
covers-supernet (false ∷ []) (true ∷ []) (x ∷ a) e ne h k = ground arith
covers-supernet (false ∷ []) (false ∷ []) (x ∷ a) e ne h k = absurd (ne refl)
covers-supernet (b ∷ []) (c ∷ d ∷ m) a e ne h k = cc
covers-supernet (b ∷ c ∷ n) [] a e ne h k = cc
covers-supernet (b ∷ c ∷ n) (d ∷ []) a e ne h k = cc
covers-supernet (b ∷ c ∷ n) (d ∷ f ∷ m) [] e ne h k = absurd (omega arith)
covers-supernet (b ∷ c ∷ n) (d ∷ f ∷ m) (x ∷ a) e ne h k =
    ground (arith, covers-supernet (c ∷ n) (f ∷ m) a (ground arith) (λ q. ne (cc (q, e))))
