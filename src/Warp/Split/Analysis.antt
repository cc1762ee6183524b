-- ===== src/Warp/Split/Analysis.antt =====
-- The ratchet analysis of a new list (warp/split_analysis.py).
--
-- An entry is a text; what `ip_network` reads of it is a parameter, with `none` for what is no IPv4
-- network. A percentage is compared as a fraction: below 2 ^ 20 per cent the code's float division
-- gives the same answer. `added` and `removed` are sets, so their order is left out, as is the hash.
pub mod Safe
use vpnbot.Prelude.{
  ℕ, ◌+◌, ◌-◌, ◌*◌, String, Bool, true, false, not, ◌&&◌, ◌||◌, List, [], ◌∷◌, ◌++◌, Option, none,
  some, Dict, get, string_eq, any, keep, length, str_eq, ltb, ◌==◌, is_some, if◌then◌else◌,
}
use vpnbot.Warp.Split.Net.{Net, num_addresses, net_eqb}
use vpnbot.Warp.Split.Collapse.{collapse}

pub record Thresholds : Type 0 where
  pub max_shrink_pct : ℕ
  pub max_growth_pct : ℕ
  pub stale_after_sec : ℕ

pub record Coverage : Type 0 where
  pub prefixes : ℕ
  pub addresses : ℕ

abbrev pub is_empty : Coverage → Bool
is_empty c = c.prefixes == 0

pub data Mode : Type 0 where
  add subtract : Mode

pub record SourceState : Type 0 where
  pub slug : String
  pub mode : Mode
  pub coverage : Coverage
  pub age_sec : Option ℕ
  pub empty_parse : Bool

pub data HoldCode : Type 0 where
  shrink_add shrink_subtract growth empty_source stale_source streak review_mode : HoldCode

-- `pct` is a fraction; a `before` of -1 is `none`.
pub record Hold : Type 0 where
  pub code : HoldCode
  pub slug : Option String
  pub pct : ℕ × ℕ
  pub before : Option ℕ
  pub after : ℕ

pub record SourceChange : Type 0 where
  pub slug : String
  pub mode : Mode
  pub before : Option Coverage
  pub after : Coverage
  pub age_sec : Option ℕ
  pub stale : Bool

pub record ChangeAnalysis : Type 0 where
  pub prefixes_before : ℕ
  pub prefixes_after : ℕ
  pub addresses_before : ℕ
  pub addresses_after : ℕ
  pub added : List String
  pub removed : List String
  pub sources : List SourceChange
  pub holds : List Hold
  pub baseline_addresses : Option ℕ
  pub baseline_prefixes : Option ℕ
  pub same_space : Bool

abbrev pub baseline_count : Option Coverage → ℕ
baseline_count none = 0
baseline_count (some baseline) = baseline.addresses

-- `100.0 * lost / before`, as its two parts; 0 without a baseline.
unfoldable pub shrink_pct : Option Coverage → Coverage → ℕ × ℕ
shrink_pct none after = (0, 1)
shrink_pct (some before) after =
    if before.addresses == 0
    then (0, 1)
    else (100 * (before.addresses - after.addresses), before.addresses)

-- `pct > threshold`
abbrev pub exceeds : ℕ × ℕ → ℕ → Bool
exceeds pct threshold = ltb (threshold * pct.1) pct.0

abbrev pub is_older : Option ℕ → ℕ → Bool
is_older none limit = true
is_older (some age) limit = ltb limit age

abbrev pub shrink_code : Mode → HoldCode
shrink_code add = shrink_add
shrink_code subtract = shrink_subtract

abbrev pub is_stale : Thresholds → Option Coverage → SourceState → Bool
is_stale thresholds baseline source =
    is_older source.age_sec thresholds.stale_after_sec && is_some baseline

abbrev pub is_vanished : Option Coverage → SourceState → Bool
is_vanished baseline source = source.empty_parse || (is_empty source.coverage && is_some baseline)

abbrev pub source_change : Thresholds → Option Coverage → SourceState → SourceChange
source_change thresholds baseline source = record {
  slug = source.slug;
  mode = source.mode;
  before = baseline;
  after = source.coverage;
  age_sec = source.age_sec;
  stale = is_stale thresholds baseline source;
}

-- The `if` and `elif` of a source.
unfoldable pub coverage_holds : Thresholds → Option Coverage → SourceState → List Hold
unfolding shrink_pct
coverage_holds thresholds baseline source =
    let pct = shrink_pct baseline source.coverage in
    let hold : HoldCode → ℕ × ℕ → Hold = λ code of. record {
      code = code;
      slug = some source.slug;
      pct = of;
      before = some (baseline_count baseline);
      after = source.coverage.addresses;
    } in
    if is_vanished baseline source
    then hold empty_source (0, 1) ∷ []
    else (if exceeds pct thresholds.max_shrink_pct
        then hold (shrink_code source.mode) pct ∷ []
        else [])

unfoldable pub stale_holds : Thresholds → Option Coverage → SourceState → List Hold
stale_holds thresholds baseline source =
    if is_stale thresholds baseline source
    then record {
      code = stale_source;
      slug = some source.slug;
      pct = (0, 1);
      before = source.age_sec;
      after = thresholds.stale_after_sec;
    }
      ∷ []
    else []

unfoldable pub source_holds : Thresholds → Dict String Coverage → List SourceState → List Hold
unfolding coverage_holds stale_holds
source_holds thresholds baselines [] = []
source_holds thresholds baselines (source ∷ sources) =
    let baseline = get baselines source.slug in
    coverage_holds thresholds baseline source
    ++ stale_holds thresholds baseline source
    ++ source_holds thresholds baselines sources

unfoldable pub source_changes :
    Thresholds → Dict String Coverage → List SourceState → List SourceChange
source_changes thresholds baselines [] = []
source_changes thresholds baselines (source ∷ sources) =
    source_change thresholds (get baselines source.slug) source
    ∷ source_changes thresholds baselines sources

unfoldable pub growth_holds : Thresholds → Option Coverage → ℕ → List Hold
growth_holds thresholds none after = []
growth_holds thresholds (some baseline) after =
    if ltb 0 baseline.addresses
      && ltb (thresholds.max_growth_pct * baseline.addresses) (100 * (after - baseline.addresses))
    then record {
      code = growth;
      slug = none;
      pct = (100 * (after - baseline.addresses), baseline.addresses);
      before = some baseline.addresses;
      after = after;
    }
      ∷ []
    else []

abbrev pub sum_addresses : List Net → ℕ
sum_addresses [] = 0
sum_addresses (net ∷ nets) = num_addresses net + sum_addresses nets

unfoldable pub nets_eqb : List Net → List Net → Bool
nets_eqb [] [] = true
nets_eqb [] (n ∷ ns) = false
nets_eqb (m ∷ ms) [] = false
nets_eqb (m ∷ ms) (n ∷ ns) = net_eqb m n && nets_eqb ms ns

abbrev pub without : List String → List String → List String
without others texts = keep (λ t. not (any (str_eq t) others)) texts

abbrev pub addresses_of : Option Coverage → Option ℕ
addresses_of none = none
addresses_of (some c) = some c.addresses

abbrev pub prefixes_of : Option Coverage → Option ℕ
prefixes_of none = none
prefixes_of (some c) = some c.prefixes

-- Anything else is ignored.
abbrev pub cons_found : Option Net → List Net → List Net
cons_found none nets = nets
cons_found (some net) nets = net ∷ nets

module _ (network_of : String → Option Net) where
  abbrev pub networks : List String → List Net
  networks [] = []
  networks (text ∷ texts) = cons_found (network_of text) (networks texts)

  unfoldable pub collapsed_networks : List String → List Net
  collapsed_networks texts = collapse (networks texts)

  unfoldable pub coverage_of : List String → Coverage
  unfolding collapsed_networks
  coverage_of texts =
      let merged = collapsed_networks texts in
      record { prefixes = length merged; addresses = sum_addresses merged }

  unfoldable pub analyse_change :
      Thresholds
      → String
      → List String
      → List String
      → List SourceState
      → Dict String Coverage
      → ChangeAnalysis
  unfolding collapsed_networks coverage_of source_holds source_changes growth_holds nets_eqb
  analyse_change thresholds list_key current candidate sources baselines =
      let after = (coverage_of candidate).addresses in
      let list_baseline = get baselines list_key in
      record {
        prefixes_before = length current;
        prefixes_after = length candidate;
        addresses_before = (coverage_of current).addresses;
        addresses_after = after;
        added = without current candidate;
        removed = without candidate current;
        sources = source_changes thresholds baselines sources;
        holds =
            source_holds thresholds baselines sources
            ++ growth_holds thresholds list_baseline after;
        baseline_addresses = addresses_of list_baseline;
        baseline_prefixes = prefixes_of list_baseline;
        same_space = nets_eqb (collapsed_networks current) (collapsed_networks candidate);
      }

abbrev pub is_none : {A : Type 0} → List A → Bool
is_none [] = true
is_none (x ∷ xs) = false

abbrev pub identical : ChangeAnalysis → Bool
identical a = is_none a.added && is_none a.removed

abbrev pub pure_aggregation : ChangeAnalysis → Bool
pure_aggregation a = not (identical a) && a.same_space

abbrev pub suspicious : ChangeAnalysis → Bool
suspicious a = not (is_none a.holds)

abbrev pub with_hold : ChangeAnalysis → Hold → ChangeAnalysis
with_hold a hold = record a { holds = a.holds ++ hold ∷ [] }
