-- ===== src/Warp/Manual.antt =====
-- Taking address space out of the hand-typed prefixes (services/warp_split_feeds.py,
-- `_manual_rows_without` and `remove_manual_many`).
--
-- A row is the network that it prints. The rows are a set in the database, so the order of what
-- is added is left out.
use vpnbot.Prelude.{
  ◌≤◌, ◌≡◌, refl, ap, Bool, true, not, ◌&&◌, ◌||◌, List, [], ◌∷◌, ◌++◌, length, any, any-append,
  keep, All, arith, if◌then◌else◌, Bool-cases, inl, inr,
}
use vpnbot.Warp.Split.Net.{Net, covers, covered, overlaps, net_eqb, net_eqb_iff, net_eqb_refl}
use vpnbot.Warp.Split.Exclude.{
  address_exclude, covered-address_exclude, covers_trans, overlaps_of_covers,
}
use vpnbot.Warp.Split.Collapse.Cover.{AllFit}

-- One range against every part of a row.
unfoldable pub punch : Net → List Net → List Net
unfolding covers address_exclude
punch target [] = []
punch target (part ∷ parts) =
    let pieces = punch target parts in
    if covers target part
    then pieces
    else (if covers part target then address_exclude part target ++ pieces else part ∷ pieces)

unfoldable pub cut : List Net → List Net → List Net
unfolding punch
cut [] parts = parts
cut (target ∷ targets) parts = cut targets (punch target parts)

-- Whether a row is is_touched.
abbrev pub is_touched : List Net → Net → Bool
is_touched targets net = any (λ target. overlaps net target) targets

-- The rows to delete and the rows to add.
unfoldable pub manual_rows_without : List Net → List Net → List Net × List Net
unfolding overlaps cut
manual_rows_without [] targets = ([], [])
manual_rows_without (net ∷ manual) targets =
    let rest = manual_rows_without manual targets in
    if is_touched targets net then (net ∷ rest.0, cut targets (net ∷ []) ++ rest.1) else rest

-- `remove_manual_prefixes` and `add_manual_prefixes` with them.
unfoldable pub remove_manual_many : List Net → List Net → List Net
unfolding manual_rows_without
remove_manual_many manual targets =
    let rows = manual_rows_without manual targets in
    keep (λ net. not (any (net_eqb net) rows.0)) manual ++ rows.1

module _ (a : List Bool) where
  covered-punch :
      (target : Net) (parts : List Net)
      → length target ≤ length a
      → covered (punch target parts) a ≡ (covered parts a && not (covers target a))
  unfolding punch overlaps
  covered-punch target [] h = refl
  covered-punch target (part ∷ parts) h = ground (
    arith,
    covered-punch target parts h,
    any-append (λ n. covers n a) (address_exclude part target) (punch target parts),
    covered-address_exclude part target a,
    covers_trans target part a,
    overlaps_of_covers part target a,
  )

  covered-cut :
      (targets parts : List Net)
      → AllFit a targets
      → covered (cut targets parts) a ≡ (covered parts a && not (covered targets a))
  unfolding cut
  covered-cut [] parts fit = ground arith
  covered-cut (target ∷ targets) parts fit =
      ground
        (arith, covered-cut targets (punch target parts) fit.1, covered-punch target parts fit.0)

  -- An address of a row that is not is_touched is in no range.
  untouched :
      (targets : List Net) (net : Net)
      → covers net a ≡ true
      → covered targets a ≡ true
      → is_touched targets net ≡ true
  untouched [] net h k = ground (arith, k)
  untouched (target ∷ targets) net h k =
      ground (arith, k, overlaps_of_covers net target a h, untouched targets net h)

  -- The is_touched and the untouched of some rows.
  abbrev kept_covers : List Net → List Net → Bool
  kept_covers targets nets = any (λ net. covers net a && not (is_touched targets net)) nets

  abbrev cut_covers : List Net → List Net → Bool
  cut_covers targets nets = any (λ net. covers net a && is_touched targets net) nets

  covered-added :
      (manual targets : List Net)
      → AllFit a targets
      → covered (manual_rows_without manual targets).1 a
        ≡ (cut_covers targets manual && not (covered targets a))
  unfolding manual_rows_without
  covered-added [] targets fit = refl
  covered-added (net ∷ manual) targets fit = ground (
    arith,
    covered-added manual targets fit,
    any-append (λ n. covers n a) (cut targets (net ∷ [])) (manual_rows_without manual targets).1,
    covered-cut targets (net ∷ []) fit,
  )

  split_covers :
      (targets manual : List Net)
      → (kept_covers targets manual || (cut_covers targets manual && not (covered targets a)))
        ≡ (covered manual a && not (covered targets a))
  split_covers targets [] = refl
  split_covers targets (net ∷ manual) =
      ground (arith, split_covers targets manual, untouched targets net)

touched_same :
    (targets : List Net) (net other : Net)
    → net_eqb net other ≡ true
    → is_touched targets net ≡ is_touched targets other
touched_same targets net other e = ap (is_touched targets) ((net_eqb_iff net other).0 e)

dropped_rows :
    (targets : List Net) (net : Net) (manual : List Net)
    → any (net_eqb net) (manual_rows_without manual targets).0
      ≡ (any (net_eqb net) manual && is_touched targets net)
unfolding manual_rows_without
dropped_rows targets net [] = refl
dropped_rows targets net (other ∷ manual) = elim (Bool-cases (is_touched targets other)) [
  | inl e ↦ rw e ground (arith, e, dropped_rows targets net manual, touched_same targets net other)
  | inr e ↦ rw e ground (arith, e, dropped_rows targets net manual, touched_same targets net other)
]

-- Each of these rows is one of the others.
abbrev AreAmong : List Net → List Net → Type 0
AreAmong nets others = All (λ net. any (net_eqb net) others ≡ true) nets

cons-AreAmong :
    (nets others : List Net) (other : Net) → AreAmong nets others → AreAmong nets (other ∷ others)
cons-AreAmong [] others other h = tt
cons-AreAmong (net ∷ nets) others other h =
    (ground (arith, h.0), cons-AreAmong nets others other h.1)

among_themselves : (nets : List Net) → AreAmong nets nets
among_themselves [] = tt
among_themselves (net ∷ nets) =
    (ground (arith, net_eqb_refl net), cons-AreAmong nets nets net (among_themselves nets))

covered-kept :
    (a : List Bool) (manual targets nets : List Net)
    → AreAmong nets manual
    → covered (keep (λ net. not (any (net_eqb net) (manual_rows_without manual targets).0)) nets) a
      ≡ kept_covers a targets nets
covered-kept a manual targets [] h = refl
covered-kept a manual targets (net ∷ nets) h =
    ground (arith, h.0, dropped_rows targets net manual, covered-kept a manual targets nets h.1)

-- Taking ranges out of the hand-typed rows leaves exactly the addresses that they had outside
-- every range, however rows and ranges are cut into prefixes. No range has more bits than an
-- address.
pub covered-remove_manual_many :
    (a : List Bool) (manual targets : List Net)
    → AllFit a targets
    → covered (remove_manual_many manual targets) a ≡ (covered manual a && not (covered targets a))
unfolding remove_manual_many
covered-remove_manual_many a manual targets fit = ground (
  arith,
  any-append (λ n. covers n a)
      (keep (λ net. not (any (net_eqb net) (manual_rows_without manual targets).0)) manual)
      (manual_rows_without manual targets).1,
  covered-kept a manual targets manual (among_themselves manual),
  covered-added a manual targets fit,
  split_covers a targets manual,
)
