-- ===== src/Warp/Split/Collapse/Cover.antt =====
-- `collapse` keeps the addresses: no network is lost while siblings are merged, and the fuel of
-- the merging loop is enough.
use vpnbot.Prelude.{
  ℕ, zero, suc, ◌+◌, ◌*◌, ◌≤◌, ◌<◌, ◌≡◌, ◌≢◌, refl, Bool, false, ◌||◌, List, [], ◌∷◌, none, some,
  Dict, get, put, remove, length, All, Bool-cases, Option-cases, inl, inr, length-put_new,
  length-remove, reverse, length-reverse, any-reverse, All-reverse, arith, ◌≡⟨◌⟩◌, ◌∎,
}
use vpnbot.Warp.Split.Net.{
  Net, covers, covered, supernet, net_eqb, net_eqb_sound, net_eqb_iff, net_eq,
}
use vpnbot.Warp.Split.Order.{
  sort_networks, drop_subsumed, covered-sort_networks, sort_networks-IsSorted,
  covered-drop_subsumed,
}
use vpnbot.Warp.Split.Collapse.{
  values, merge_siblings, collapse_addresses, collapse, covers-supernet,
}

-- No network is longer than the address, which holds for 32-bit addresses and IPv4 networks.
abbrev pub AllFit : List Bool → List Net → Type 0
AllFit a nets = All (λ net. length net ≤ length a) nets

-- Every network in the dict stands under its supernet.
abbrev IsKeyed : List Bool → Dict Net Net → Type 0
IsKeyed a [] = Unit
IsKeyed a ((k, v) ∷ d) = (k ≡ supernet v) × (length v ≤ length a) × IsKeyed a d

pub length-supernet : (n : Net) → length (supernet n) ≤ length n
unfolding supernet
length-supernet [] = omega arith
length-supernet (b ∷ []) = omega arith
length-supernet (b ∷ c ∷ n) = omega (arith, length-supernet (c ∷ n))

module _ (a : List Bool) where
  get-IsKeyed :
      (d : Dict Net Net) (k v : Net)
      → IsKeyed a d
      → get d k ≡ some v
      → (supernet v ≡ k) × (length v ≤ length a)
  unfolding get
  get-IsKeyed [] k v h e = ground arith
  get-IsKeyed ((j, w) ∷ d) k v h e = ground (arith, net_eqb_sound j k, get-IsKeyed d k v h.2)

  remove-IsKeyed : (d : Dict Net Net) (k : Net) → IsKeyed a d → IsKeyed a (remove d k)
  unfolding remove
  remove-IsKeyed [] k h = tt
  remove-IsKeyed ((j, w) ∷ d) k h = ground (arith, remove-IsKeyed d k h.2)

  put-IsKeyed :
      (d : Dict Net Net) (v : Net)
      → IsKeyed a d
      → length v ≤ length a
      → IsKeyed a (put d (supernet v) v)
  unfolding put
  put-IsKeyed [] v h l = (refl, l, tt)
  put-IsKeyed ((j, w) ∷ d) v h l = elim (Bool-cases (net_eqb j (supernet v))) [
    | inl same ↦ rw same (net_eqb_sound j (supernet v) same, l, h.2)
    | inr other ↦ rw other (h.0, h.1, put-IsKeyed d v h.2 l)
  ]

  covered-remove :
      (d : Dict Net Net) (k v : Net)
      → get d k ≡ some v
      → covered (values d) a ≡ (covers v a || covered (values (remove d k)) a)
  unfolding get remove
  covered-remove [] k v e = ground arith
  covered-remove ((j, w) ∷ d) k v e = ground (arith, covered-remove d k v)

  covered-get :
      (d : Dict Net Net) (k v : Net)
      → get d k ≡ some v
      → (covers v a || covered (values d) a) ≡ covered (values d) a
  unfolding get
  covered-get [] k v e = ground arith
  covered-get ((j, w) ∷ d) k v e = ground (arith, covered-get d k v)

  covered-put :
      (d : Dict Net Net) (k v : Net)
      → get d k ≡ none
      → covered (values (put d k v)) a ≡ (covers v a || covered (values d) a)
  unfolding get put
  covered-put [] k v e = refl
  covered-put ((j, w) ∷ d) k v e = ground (arith, covered-put d k v)

  net_eqb_ne : (n m : Net) → net_eqb n m ≡ false → n ≢ m
  net_eqb_ne n m h e = cc (h, (net_eqb_iff n m).1 e)

  merge_one :
      (fuel : ℕ) (net existing : Net) (stack : List Net) (d : Dict Net Net)
      → get d (supernet net) ≡ some existing
      → net_eqb existing net ≡ false
      → IsKeyed a d
      → length net ≤ length a
      → (covers (supernet net) a || covered (values (remove d (supernet net))) a)
        ≡ (covers net a || covered (values d) a)
  merge_one fuel net existing stack d found differ keyed fits =
      let known = get-IsKeyed d (supernet net) existing keyed found in
      ground (
        arith,
        covered-remove d (supernet net) existing found,
        covers-supernet net existing a (cc (known.0)) (λ e. net_eqb_ne existing net differ (cc e))
            fits known.1,
      )

  covered-merge_siblings :
      (fuel : ℕ) (stack : List Net) (d : Dict Net Net)
      → 2 * length stack + length d < fuel
      → AllFit a stack
      → IsKeyed a d
      → covered (merge_siblings fuel stack d) a ≡ (covered stack a || covered (values d) a)
  unfolding merge_siblings
  covered-merge_siblings zero stack d h fit keyed = absurd (omega arith)
  covered-merge_siblings (suc fuel) [] d h fit keyed = refl
  covered-merge_siblings (suc fuel) (net ∷ stack) d h fit keyed =
      elim (Option-cases (get d (supernet net))) [
        | inl new ↦
            rw (new, merge_siblings)
              (ground (
                arith,
                length-put_new d (supernet net) net new,
                covered-put d (supernet net) net new,
                covered-merge_siblings fuel stack (put d (supernet net) net)
                    (omega (arith, length-put_new d (supernet net) net new)) fit.1
                    (put-IsKeyed d net keyed fit.0),
              ))
        | inr (existing, found) ↦ elim (Bool-cases (net_eqb existing net)) [
          | inl same ↦
              rw (found, merge_siblings)
                (rw (same, merge_siblings)
                  (ground (
                    arith,
                    net_eqb_sound existing net same,
                    covered-get d (supernet net) existing found,
                    covered-merge_siblings fuel stack d (omega arith) fit.1 keyed,
                  )))
          | inr differ ↦
              rw (found, merge_siblings)
                (rw (differ, merge_siblings)
                  (ground (
                    arith,
                    merge_one fuel net existing stack d found differ keyed fit.0,
                    covered-merge_siblings fuel (supernet net ∷ stack) (remove d (supernet net))
                        (omega (arith, length-remove d (supernet net) existing found))
                        (omega (arith, length-supernet net), fit.1)
                        (remove-IsKeyed d (supernet net) keyed),
                  )))
        ]
      ]

-- `collapse` neither adds nor loses an address.
pub covered-collapse :
    (nets : List Net) (a : List Bool) → AllFit a nets → covered (collapse nets) a ≡ covered nets a
unfolding collapse collapse_addresses
covered-collapse nets a fit =
    let merged = merge_siblings (2 * length nets + 1) (reverse nets) [] in
    covered (sort_networks (drop_subsumed (sort_networks merged))) a
    ≡⟨ covered-sort_networks (drop_subsumed (sort_networks merged)) a ⟩
      covered (drop_subsumed (sort_networks merged)) a
    ≡⟨ covered-drop_subsumed (sort_networks merged) a (sort_networks-IsSorted merged) ⟩
      covered (sort_networks merged) a
    ≡⟨ covered-sort_networks merged a ⟩ covered merged a
    ≡⟨ covered-merge_siblings a (2 * length nets + 1) (reverse nets) []
        (omega (arith, length-reverse nets)) (All-reverse (λ net. length net ≤ length a) nets fit)
        tt ⟩
      (covered (reverse nets) a || false)
    ≡⟨ ground (arith, any-reverse (λ net. covers net a) nets) ⟩ covered nets a ∎
