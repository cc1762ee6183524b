-- ===== src/Warp/Split/Merge/Fit.antt =====
-- The networks that the merge computes are no longer than an address, if its input is not.
use vpnbot.Prelude.{
  ℕ, zero, suc, ◌≤◌, Bool, List, [], ◌∷◌, Dict, get, put, remove, length, All, All-reverse,
  All-append, Bool-cases, Option-cases, inl, inr, reverse, arith, ◌*◌, ◌+◌,
}
use vpnbot.Warp.Split.Net.{Net, covers, overlaps, supernet, net_eqb, net_eq}
use vpnbot.Warp.Split.Exclude.{under, siblings, address_exclude, carve}
use vpnbot.Warp.Split.Merge.{subtract_holes, subtract_networks}
use vpnbot.Warp.Split.Order.{insert_net, sort_networks, keep_after, drop_subsumed}
use vpnbot.Warp.Split.Collapse.{values, merge_siblings, collapse_addresses, collapse}
use vpnbot.Warp.Split.Collapse.Cover.{AllFit, length-supernet}

module _ (a : List Bool) where
  AllFit-insert_net :
      (n : Net) (nets : List Net)
      → length n ≤ length a
      → AllFit a nets
      → AllFit a (insert_net n nets)
  unfolding insert_net
  AllFit-insert_net n [] h fit = (h, tt)
  AllFit-insert_net n (m ∷ nets) h fit = ground (arith, AllFit-insert_net n nets h fit.1)

  AllFit-sort_networks : (nets : List Net) → AllFit a nets → AllFit a (sort_networks nets)
  unfolding sort_networks
  AllFit-sort_networks [] fit = tt
  AllFit-sort_networks (n ∷ nets) fit =
      AllFit-insert_net n (sort_networks nets) fit.0 (AllFit-sort_networks nets fit.1)

  AllFit-keep_after :
      (last : Net) (nets : List Net) → AllFit a nets → AllFit a (keep_after last nets)
  unfolding keep_after
  AllFit-keep_after last [] fit = tt
  AllFit-keep_after last (n ∷ nets) fit =
      ground (arith, AllFit-keep_after last nets fit.1, AllFit-keep_after n nets fit.1)

  AllFit-drop_subsumed : (nets : List Net) → AllFit a nets → AllFit a (drop_subsumed nets)
  unfolding drop_subsumed
  AllFit-drop_subsumed [] fit = tt
  AllFit-drop_subsumed (n ∷ nets) fit = (fit.0, AllFit-keep_after n nets fit.1)

  AllFit-put :
      (d : Dict Net Net) (k v : Net)
      → length v ≤ length a
      → AllFit a (values d)
      → AllFit a (values (put d k v))
  unfolding put
  AllFit-put [] k v h fit = (h, tt)
  AllFit-put ((j, w) ∷ d) k v h fit = ground (arith, AllFit-put d k v h fit.1)

  AllFit-remove :
      (d : Dict Net Net) (k : Net) → AllFit a (values d) → AllFit a (values (remove d k))
  unfolding remove
  AllFit-remove [] k fit = tt
  AllFit-remove ((j, w) ∷ d) k fit = ground (arith, AllFit-remove d k fit.1)

  AllFit-merge_siblings :
      (fuel : ℕ) (stack : List Net) (d : Dict Net Net)
      → AllFit a stack
      → AllFit a (values d)
      → AllFit a (merge_siblings fuel stack d)
  unfolding merge_siblings
  AllFit-merge_siblings zero stack d s fit = fit
  AllFit-merge_siblings (suc fuel) [] d s fit = fit
  AllFit-merge_siblings (suc fuel) (net ∷ stack) d s fit =
      elim (Option-cases (get d (supernet net))) [
        | inl new ↦
            rw (new, merge_siblings)
              (AllFit-merge_siblings fuel stack (put d (supernet net) net) s.1
                (AllFit-put d (supernet net) net s.0 fit))
        | inr (existing, found) ↦ elim (Bool-cases (net_eqb existing net)) [
          | inl same ↦
              rw (found, merge_siblings)
                (rw (same, merge_siblings) (AllFit-merge_siblings fuel stack d s.1 fit))
          | inr differ ↦
              rw (found, merge_siblings)
                (rw (differ, merge_siblings)
                  (AllFit-merge_siblings fuel (supernet net ∷ stack) (remove d (supernet net))
                    (omega (arith, length-supernet net), s.1) (AllFit-remove d (supernet net) fit)))
        ]
      ]

  pub AllFit-collapse : (nets : List Net) → AllFit a nets → AllFit a (collapse nets)
  unfolding collapse collapse_addresses
  AllFit-collapse nets fit =
      let merged = merge_siblings (2 * length nets + 1) (reverse nets) [] in
      AllFit-sort_networks (drop_subsumed (sort_networks merged)) (
        AllFit-drop_subsumed (sort_networks merged) (
          AllFit-sort_networks merged (
            AllFit-merge_siblings (2 * length nets + 1) (reverse nets) []
              (All-reverse (λ net. length net ≤ length a) nets fit) tt)))

  AllFit-under :
      (b : Bool) (nets : List Net) (k : ℕ)
      → All (λ net. length net ≤ k) nets
      → All (λ net. length net ≤ suc k) (under b nets)
  AllFit-under b [] k h = tt
  AllFit-under b (net ∷ nets) k h = (omega arith, AllFit-under b nets k h.1)

  AllFit-siblings : (hole : Net) → All (λ net. length net ≤ length hole) (siblings hole)
  unfolding siblings
  AllFit-siblings [] = tt
  AllFit-siblings (b ∷ hole) =
      (omega arith, AllFit-under b (siblings hole) (length hole) (AllFit-siblings hole))

  AllFit-address_exclude :
      (net hole : Net) → All (λ n. length n ≤ length hole) (address_exclude net hole)
  unfolding address_exclude
  AllFit-address_exclude [] hole = AllFit-siblings hole
  AllFit-address_exclude (b ∷ net) [] = tt
  AllFit-address_exclude (b ∷ net) (c ∷ hole) =
      AllFit-under b (address_exclude net hole) (length hole) (AllFit-address_exclude net hole)

  AllFit-weaken :
      (k m : ℕ) (nets : List Net)
      → k ≤ m
      → All (λ net. length net ≤ k) nets
      → All (λ net. length net ≤ m) nets
  AllFit-weaken k m [] h all = tt
  AllFit-weaken k m (n ∷ nets) h all = (omega (arith, all.0), AllFit-weaken k m nets h all.1)

  AllFit-carve :
      (hole : Net) (current : List Net)
      → length hole ≤ length a
      → AllFit a current
      → AllFit a (carve hole current)
  unfolding carve
  AllFit-carve hole [] h fit = tt
  AllFit-carve hole (net ∷ current) h fit =
      let rest = AllFit-carve hole current h fit.1 in
      elim (Bool-cases (overlaps net hole)) [
        | inr apart ↦ rw apart (fit.0, rest)
        | inl meets ↦ elim (Bool-cases (covers hole net)) [
          | inl inside ↦ rw (meets, inside) rest
          | inr punched ↦
              rw (meets, punched)
                (All-append (λ n. length n ≤ length a) (address_exclude net hole)
                  (carve hole current)
                  (AllFit-weaken (length hole) (length a) (address_exclude net hole) h
                    (AllFit-address_exclude net hole))
                  rest)
        ]
      ]

  AllFit-subtract_holes :
      (holes current : List Net)
      → AllFit a holes
      → AllFit a current
      → AllFit a (subtract_holes current holes)
  unfolding subtract_holes
  AllFit-subtract_holes [] [] h fit = tt
  AllFit-subtract_holes [] (n ∷ current) h fit = fit
  AllFit-subtract_holes (hole ∷ holes) [] h fit = tt
  AllFit-subtract_holes (hole ∷ holes) (n ∷ current) h fit =
      AllFit-subtract_holes holes (carve hole (n ∷ current)) h.1
        (AllFit-carve hole (n ∷ current) h.0 fit)

  pub AllFit-subtract_networks :
      (base minus : List Net)
      → AllFit a minus
      → AllFit a base
      → AllFit a (subtract_networks base minus)
  unfolding subtract_networks
  AllFit-subtract_networks base minus h fit =
      AllFit-subtract_holes (collapse minus) base (AllFit-collapse minus h) fit
