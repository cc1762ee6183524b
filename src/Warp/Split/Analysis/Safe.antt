-- ===== src/Warp/Split/Analysis/Safe.antt =====
-- What may be applied unattended (warp/split_analysis.py).
use vpnbot.Prelude.{
  ℕ, ◌+◌, ◌*◌, ◌≤◌, ◌≡◌, refl, sym, ◌∙◌, String, Bool, true, false, ◌&&◌, ◌||◌, List, [], ◌∷◌, ◌++◌,
  Option, none, some, Dict, get, string_eq, length, All, leb, ◌==◌, arith,
}
use vpnbot.Warp.Split.Net.{Net, covered, net_eqb_iff}
use vpnbot.Warp.Split.Collapse.{collapse}
use vpnbot.Warp.Split.Collapse.Cover.{AllFit, covered-collapse}
use vpnbot.Warp.Split.Analysis.{
  Thresholds, Coverage, is_empty, SourceState, is_older, coverage_holds, stale_holds, source_holds,
  growth_holds, nets_eqb, cons_found, networks, collapsed_networks, coverage_of, analyse_change,
  is_none, pure_aggregation, suspicious,
}

nets_eqb_sound : (ms ns : List Net) → nets_eqb ms ns ≡ true → ms ≡ ns
unfolding nets_eqb
nets_eqb_sound [] [] h = refl
nets_eqb_sound [] (n ∷ ns) h = ground arith
nets_eqb_sound (m ∷ ms) [] h = ground arith
nets_eqb_sound (m ∷ ms) (n ∷ ns) h = ground (arith, h, net_eqb_iff m n, nets_eqb_sound ms ns)

is_none-append : {A : Type 0} (xs ys : List A) → is_none (xs ++ ys) ≡ (is_none xs && is_none ys)
is_none-append [] ys = refl
is_none-append (x ∷ xs) ys = refl

-- A source that published something, and that against its baseline, if it has one, has lost no
-- more than the share allowed, has addresses still and was fetched in time.
abbrev pub IsSafe : Thresholds → Option Coverage → SourceState → Type 0
IsSafe thresholds none source = source.empty_parse ≡ false
IsSafe thresholds (some baseline) source =
    (source.empty_parse ≡ false)
    × (is_empty source.coverage ≡ false)
    × (is_older source.age_sec thresholds.stale_after_sec ≡ false)
    × (100 * baseline.addresses
        ≤ 100 * source.coverage.addresses + thresholds.max_shrink_pct * baseline.addresses)

-- A list that has grown by no more than the share allowed.
abbrev pub IsWithin : Thresholds → Option Coverage → ℕ → Type 0
IsWithin thresholds none after = Unit
IsWithin thresholds (some baseline) after =
    ((baseline.addresses == 0)
      || leb (100 * after)
          (100 * baseline.addresses + thresholds.max_growth_pct * baseline.addresses))
    ≡ true

source_holds-IsSafe :
    (thresholds : Thresholds) (baseline : Option Coverage) (source : SourceState)
    → is_none (coverage_holds thresholds baseline source) ≡ true
    → is_none (stale_holds thresholds baseline source) ≡ true
    → IsSafe thresholds baseline source
unfolding coverage_holds stale_holds
source_holds-IsSafe thresholds none source h stale = ground arith
source_holds-IsSafe thresholds (some baseline) source h stale = ground (arith, h, stale)

sources-AreSafe :
    (thresholds : Thresholds) (baselines : Dict String Coverage) (sources : List SourceState)
    → is_none (source_holds thresholds baselines sources) ≡ true
    → All (λ source. IsSafe thresholds (get baselines source.slug) source) sources
unfolding source_holds
sources-AreSafe thresholds baselines [] h = tt
sources-AreSafe thresholds baselines (source ∷ sources) h =
    let baseline = get baselines source.slug in
    let own = coverage_holds thresholds baseline source in
    let old = stale_holds thresholds baseline source in
    let rest = source_holds thresholds baselines sources in
    let parts : (is_none own && (is_none old && is_none rest)) ≡ true =
      ground (arith, h, is_none-append own (old ++ rest), is_none-append old rest) in
    (
      source_holds-IsSafe thresholds baseline source ground (arith, parts) ground (arith, parts),
      sources-AreSafe thresholds baselines sources ground (arith, parts),
    )

growth_holds-IsWithin :
    (thresholds : Thresholds) (baseline : Option Coverage) (after : ℕ)
    → is_none (growth_holds thresholds baseline after) ≡ true
    → IsWithin thresholds baseline after
unfolding growth_holds
growth_holds-IsWithin thresholds none after h = tt
growth_holds-IsWithin thresholds (some baseline) after h = ground (arith, h)

AllFit-cons_found :
    (a : List Bool) (found : Option Net) (nets : List Net)
    → ((net : Net) → found ≡ some net → length net ≤ length a)
    → AllFit a nets
    → AllFit a (cons_found found nets)
AllFit-cons_found a none nets short fit = fit
AllFit-cons_found a (some net) nets short fit = (short net refl, fit)

module _ (network_of : String → Option Net) where
  -- A candidate without a hold: every source is safe against its own baseline, and the list has
  -- not outgrown its own.
  pub analyse_change-IsSafe :
      (thresholds : Thresholds) (list_key : String) (current candidate : List String)
      (sources : List SourceState) (baselines : Dict String Coverage)
      → suspicious
          (analyse_change network_of thresholds list_key current candidate sources baselines)
        ≡ false
      → All (λ source. IsSafe thresholds (get baselines source.slug) source) sources
        × IsWithin thresholds (get baselines list_key) (coverage_of network_of candidate).addresses
  unfolding analyse_change
  analyse_change-IsSafe thresholds list_key current candidate sources baselines h =
      let of_sources = source_holds thresholds baselines sources in
      let grown =
        growth_holds thresholds (get baselines list_key)
          (coverage_of network_of candidate).addresses in
      let parts : (is_none of_sources && is_none grown) ≡ true =
        ground (arith, h, is_none-append of_sources grown) in
      (
        sources-AreSafe thresholds baselines sources ground (arith, parts),
        growth_holds-IsWithin thresholds (get baselines list_key)
            (coverage_of network_of candidate).addresses ground (arith, parts),
      )

  AllFit-networks :
      (a : List Bool) (texts : List String)
      → ((text : String) (net : Net) → network_of text ≡ some net → length net ≤ length a)
      → AllFit a (networks network_of texts)
  AllFit-networks a [] short = tt
  AllFit-networks a (text ∷ texts) short =
      AllFit-cons_found a (network_of text) (networks network_of texts) (short text)
        (AllFit-networks a texts short)

  -- A candidate that passes as a mere re-aggregation routes every address exactly as the current
  -- list does. No network has more bits than an address.
  pub pure_aggregation-covered :
      (thresholds : Thresholds) (list_key : String) (current candidate : List String)
      (sources : List SourceState) (baselines : Dict String Coverage) (a : List Bool)
      → ((text : String) (net : Net) → network_of text ≡ some net → length net ≤ length a)
      → pure_aggregation
          (analyse_change network_of thresholds list_key current candidate sources baselines)
        ≡ true
      → covered (networks network_of current) a ≡ covered (networks network_of candidate) a
  unfolding analyse_change collapsed_networks
  pure_aggregation-covered thresholds list_key current candidate sources baselines a short h =
      let before = networks network_of current in
      let after = networks network_of candidate in
      let eqb : nets_eqb (collapse before) (collapse after) ≡ true = ground (arith, h) in
      sym (covered-collapse before a (AllFit-networks a current short))
      ∙ (rw (nets_eqb_sound (collapse before) (collapse after) eqb) refl
          ∙ covered-collapse after a (AllFit-networks a candidate short))
