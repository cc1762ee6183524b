-- ===== src/Warp/Split/Merge.antt =====
-- `subtract_networks`, `merge_split_list` and their records (warp/split_merge.py).
--
-- A prefix is kept as the network that it prints. The slugs and modes are texts, as in the source.
pub mod Fit
pub mod Addresses
pub mod Routed
use vpnbot.Prelude.{
  ℕ, ◌+◌, ◌-◌, String, Bool, true, false, not, ◌&&◌, List, [], ◌∷◌, ◌++◌, Option, none, some, Dict,
  get, put, length, keep, is_some, str_eq, string_eq, if◌then◌else◌,
}
use vpnbot.Warp.Split.Net.{Net, num_addresses}
use vpnbot.Warp.Split.Exclude.{carve}
use vpnbot.Warp.Split.Collapse.{collapse}

abbrev pub manual_origin : String
manual_origin = "manual"

pub record SourceContribution : Type 0 where
  pub slug : String
  pub mode : String
  pub networks : List Net
  pub scope_slug : Option String

-- `per_origin` and the three dicts like it hold no empty bucket.
pub record MergeReport : Type 0 where
  pub prefixes : List Net
  pub n_before_subtract : ℕ
  pub n_after_subtract : ℕ
  pub addresses_before : ℕ
  pub addresses_after : ℕ
  pub per_origin : Dict String ℕ
  pub per_origin_addresses : Dict String ℕ
  pub per_source_prefixes : Dict String ℕ
  pub per_source_addresses : Dict String ℕ

-- The loop over the holes, which ends early when nothing is left.
unfoldable pub subtract_holes : List Net → List Net → List Net
unfolding carve
subtract_holes [] holes = []
subtract_holes (net ∷ current) [] = net ∷ current
subtract_holes (net ∷ current) (hole ∷ holes) = subtract_holes (carve hole (net ∷ current)) holes

unfoldable pub subtract_networks : List Net → List Net → List Net
unfolding subtract_holes collapse
subtract_networks base minus = subtract_holes base (collapse minus)

-- `sum(net.num_addresses for net in nets)`
unfoldable pub count_addresses : List Net → ℕ
unfolding num_addresses
count_addresses [] = 0
count_addresses (net ∷ nets) = num_addresses net + count_addresses nets

abbrev pub Buckets : Type 0
Buckets = Dict String (List Net)

-- `[net for bucket in buckets.values() for net in bucket]`
unfoldable pub all_networks : Buckets → List Net
all_networks [] = []
all_networks ((origin, bucket) ∷ buckets) = bucket ++ all_networks buckets

abbrev pub is_add : SourceContribution → Bool
is_add source = str_eq source.mode "add"

abbrev pub is_scoped : SourceContribution → Bool
is_scoped source = str_eq source.mode "subtract" && is_some source.scope_slug

abbrev pub is_global : SourceContribution → Bool
is_global source = str_eq source.mode "subtract" && not (is_some source.scope_slug)

-- One bucket for each source that adds, beside the manual one.
unfoldable pub add_buckets : Buckets → List SourceContribution → Buckets
unfolding put collapse
add_buckets buckets [] = buckets
add_buckets buckets (source ∷ sources) =
    add_buckets
      (if is_add source then put buckets source.slug (collapse source.networks) else buckets)
      sources

-- A scope without a bucket does not apply.
unfoldable pub subtract_scope : SourceContribution → Option String → Buckets → Buckets
unfolding get put subtract_networks
subtract_scope source none buckets = buckets
subtract_scope source (some target) buckets = elim (get buckets target) [
  | none ↦ buckets
  | some bucket ↦ put buckets target (subtract_networks bucket source.networks)
]

-- The subtract sources with a scope, in order, each against its own bucket.
unfoldable pub subtract_scoped : Buckets → List SourceContribution → Buckets
unfolding subtract_scope
subtract_scoped buckets [] = buckets
subtract_scoped buckets (source ∷ scoped) =
    subtract_scoped (subtract_scope source source.scope_slug buckets) scoped

-- The subtract sources without a scope, in order, against the whole list.
unfoldable pub subtract_globals : List Net → List SourceContribution → List Net
unfolding subtract_networks
subtract_globals merged [] = merged
subtract_globals merged (source ∷ globals) =
    subtract_globals (subtract_networks merged source.networks) globals

unfoldable pub subtract_exclusions : List Net → List Net → List Net
unfolding subtract_networks
subtract_exclusions merged [] = merged
subtract_exclusions merged (net ∷ exclusions) = subtract_networks merged (net ∷ exclusions)

-- `{origin: measure(bucket) for origin, bucket in buckets.items() if bucket}`
unfoldable pub per_bucket : (List Net → ℕ) → Buckets → Dict String ℕ
per_bucket measure [] = []
per_bucket measure ((origin, []) ∷ buckets) = per_bucket measure buckets
per_bucket measure ((origin, net ∷ bucket) ∷ buckets) =
    (origin, measure (net ∷ bucket)) ∷ per_bucket measure buckets

-- The counts of what each source yielded, before any subtraction.
unfoldable pub per_source : (List Net → ℕ) → Dict String ℕ → List SourceContribution → Dict String ℕ
unfolding put collapse
per_source measure counts [] = counts
per_source measure counts (source ∷ sources) =
    per_source measure (put counts source.slug (measure (collapse source.networks))) sources

-- The buckets once the scoped subtractions are done.
unfoldable pub merged_buckets : List Net → List SourceContribution → Buckets
unfolding add_buckets subtract_scoped collapse
merged_buckets manual sources =
    subtract_scoped (add_buckets ((manual_origin, collapse manual) ∷ []) sources)
      (keep is_scoped sources)

-- The list just before the last `collapse`.
unfoldable pub merged_networks : List Net → List SourceContribution → List Net → List Net
unfolding merged_buckets all_networks subtract_globals subtract_exclusions collapse
merged_networks manual sources exclusions =
    subtract_exclusions
      (subtract_globals (collapse (all_networks (merged_buckets manual sources)))
        (keep is_global sources))
      exclusions

unfoldable pub merge_split_list : List Net → List SourceContribution → List Net → MergeReport
unfolding merged_networks merged_buckets per_bucket per_source count_addresses put add_buckets
    all_networks collapse
merge_split_list manual sources exclusions =
    let snapshot = collapse manual in
    let buckets = add_buckets ((manual_origin, snapshot) ∷ []) sources in
    let union_before = collapse (all_networks buckets) in
    let scoped_buckets = merged_buckets manual sources in
    let merged = merged_networks manual sources exclusions in
    let final = collapse merged in
    record {
      prefixes = final;
      n_before_subtract = length union_before;
      n_after_subtract = length merged;
      addresses_before = count_addresses union_before;
      addresses_after = count_addresses final;
      per_origin = per_bucket length scoped_buckets;
      per_origin_addresses = per_bucket count_addresses scoped_buckets;
      per_source_prefixes = put (per_source length [] sources) manual_origin (length snapshot);
      per_source_addresses =
          put (per_source count_addresses [] sources) manual_origin (count_addresses snapshot);
    }
