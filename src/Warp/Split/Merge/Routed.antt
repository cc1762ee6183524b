-- ===== src/Warp/Split/Merge/Routed.antt =====
-- The list that `merge_split_list` (warp/split_merge.py) computes, against an independent
-- description of the addresses that it should route.
use vpnbot.Prelude.{
  ◌≡◌, refl, ◌∙◌, String, Bool, false, not, ◌&&◌, ◌||◌, List, [], ◌∷◌, none, get, put, any, keep,
  All, str_eq, string_eq, get-put_ne, Bool-cases, inl, inr, arith,
}
use vpnbot.Warp.Split.Net.{Net, covered}
use vpnbot.Warp.Split.Collapse.{collapse}
use vpnbot.Warp.Split.Collapse.Cover.{AllFit, covered-collapse}
use vpnbot.Warp.Split.Merge.{
  SourceContribution, Buckets, manual_origin, all_networks, is_add, is_scoped, is_global,
  add_buckets, subtract_scoped, subtract_globals, subtract_exclusions, merged_buckets,
  merged_networks, merge_split_list,
}
use vpnbot.Warp.Split.Merge.Fit.{AllFit-collapse}
use vpnbot.Warp.Split.Merge.Addresses.{
  AllSourcesFit, published, contributes, some_bucket, IsWellFormed, put-HasDistinctKeys,
  put-AllBucketsFit, covered-all_networks, AllFit-all_networks, some_bucket-subtract_scoped,
  subtract_globals_lem, subtract_exclusions_lem,
}

abbrev AllSlugsDiffer : String → List SourceContribution → Type 0
AllSlugsDiffer k sources = All (λ s. str_eq k s.slug ≡ false) sources

abbrev HasDistinctSlugs : List SourceContribution → Type 0
HasDistinctSlugs [] = Unit
HasDistinctSlugs (s ∷ sources) = AllSlugsDiffer s.slug sources × HasDistinctSlugs sources

-- The slug is the table's key, and "manual" is refused as a slug (`validate_slug`).
abbrev pub HasSlugKeys : List SourceContribution → Type 0
HasSlugKeys sources = AllSlugsDiffer manual_origin sources × HasDistinctSlugs sources

abbrev AllNew : Buckets → List SourceContribution → Type 0
AllNew buckets sources = All (λ s. get buckets s.slug ≡ none) sources

module _ (a : List Bool) where
  -- The specification: an origin contributes the address, no global subtract source publishes it,
  -- and the operator has not excluded it.
  abbrev pub routed : List Net → List SourceContribution → List Net → Bool
  routed manual sources exclusions =
      let scoped = keep is_scoped sources in
      (contributes a scoped manual_origin manual
        || any (λ s. contributes a scoped s.slug s.networks) (keep is_add sources))
      && not (published a (keep is_global sources))
      && not (covered exclusions a)

  some_bucket-put_new :
      (scoped : List SourceContribution) (k : String) (bucket : List Net) (buckets : Buckets)
      → get buckets k ≡ none
      → some_bucket a scoped (put buckets k bucket)
        ≡ (some_bucket a scoped buckets || contributes a scoped k bucket)
  unfolding get put
  some_bucket-put_new scoped k bucket [] e = ground arith
  some_bucket-put_new scoped k bucket ((o, b) ∷ buckets) e =
      ground (arith, some_bucket-put_new scoped k bucket buckets)

  AllNew-put :
      (k : String) (bucket : List Net) (buckets : Buckets) (sources : List SourceContribution)
      → AllSlugsDiffer k sources
      → AllNew buckets sources
      → AllNew (put buckets k bucket) sources
  AllNew-put k bucket buckets [] differ new = tt
  AllNew-put k bucket buckets (s ∷ sources) differ new = (
    get-put_ne buckets k s.slug bucket differ.0 ∙ new.0,
    AllNew-put k bucket buckets sources differ.1 new.1,
  )

  AllSourcesFit-keep :
      (test : SourceContribution → Bool) (sources : List SourceContribution)
      → AllSourcesFit a sources
      → AllSourcesFit a (keep test sources)
  AllSourcesFit-keep test [] fit = tt
  AllSourcesFit-keep test (s ∷ sources) fit = ground (arith, AllSourcesFit-keep test sources fit.1)

  contributes-collapse :
      (scoped : List SourceContribution) (k : String) (nets : List Net)
      → AllFit a nets
      → contributes a scoped k (collapse nets) ≡ contributes a scoped k nets
  contributes-collapse scoped k nets fit = ground (arith, covered-collapse nets a fit)

  add_buckets_lem :
      (scoped : List SourceContribution) (buckets : Buckets) (sources : List SourceContribution)
      → AllSourcesFit a sources
      → HasDistinctSlugs sources
      → AllNew buckets sources
      → IsWellFormed a buckets
      → (some_bucket a scoped (add_buckets buckets sources) ≡ (
          some_bucket a scoped buckets
          || any (λ s. contributes a scoped s.slug s.networks) (keep is_add sources)))
        × IsWellFormed a (add_buckets buckets sources)
  unfolding add_buckets
  add_buckets_lem scoped buckets [] fit distinct new w = (ground arith, w)
  add_buckets_lem scoped buckets (s ∷ sources) fit distinct new w = elim (Bool-cases (is_add s)) [
    | inl adds ↦ rw adds (
        let more = put buckets s.slug (collapse s.networks) in
        let ih =
          add_buckets_lem scoped more sources fit.1 distinct.1
            (AllNew-put s.slug (collapse s.networks) buckets sources distinct.0 new.1)
            ((
              put-HasDistinctKeys a s.slug (collapse s.networks) buckets w.0,
              put-AllBucketsFit a s.slug (collapse s.networks) buckets
                  (AllFit-collapse a s.networks fit.0) w.1,
            )) in
        (
          ground (
            arith,
            ih.0,
            some_bucket-put_new scoped s.slug (collapse s.networks) buckets new.0,
            contributes-collapse scoped s.slug s.networks fit.0,
          ),
          ih.1,
        ))
    | inr takes ↦ rw takes (add_buckets_lem scoped buckets sources fit.1 distinct.1 new.1 w)
  ]

  AllNew-manual :
      (bucket : List Net) (sources : List SourceContribution)
      → AllSlugsDiffer manual_origin sources
      → AllNew ((manual_origin, bucket) ∷ []) sources
  unfolding get
  AllNew-manual bucket [] differ = tt
  AllNew-manual bucket (s ∷ sources) differ =
      (rw differ.0 refl, AllNew-manual bucket sources differ.1)

  merged_buckets_lem :
      (manual : List Net) (sources : List SourceContribution)
      → AllFit a manual
      → AllSourcesFit a sources
      → HasSlugKeys sources
      → (covered (all_networks (merged_buckets manual sources)) a ≡ (
          contributes a (keep is_scoped sources) manual_origin manual
          || any
              (λ s. contributes a (keep is_scoped sources) s.slug s.networks)
              (keep is_add sources)))
        × AllFit a (all_networks (merged_buckets manual sources))
  unfolding merged_buckets
  merged_buckets_lem manual sources fit sources_fit keys =
      let scoped = keep is_scoped sources in
      let start : Buckets = (manual_origin, collapse manual) ∷ [] in
      let added =
        add_buckets_lem scoped start sources sources_fit keys.1
          (AllNew-manual (collapse manual) sources keys.0)
          ((tt, tt), (AllFit-collapse a manual fit, tt)) in
      let cut =
        some_bucket-subtract_scoped a scoped (add_buckets start sources)
          (AllSourcesFit-keep is_scoped sources sources_fit) added.1 in
      (
        ground (
          arith,
          covered-all_networks a (subtract_scoped (add_buckets start sources) scoped),
          cut.0,
          added.0,
          contributes-collapse scoped manual_origin manual fit,
        ),
        AllFit-all_networks a (subtract_scoped (add_buckets start sources) scoped) cut.1.1,
      )

  -- The merged list routes an address exactly if the description above says so: hand-typed and
  -- published prefixes, less what each scoped source takes out of its own target, less the global
  -- subtractions and the exclusions. Slugs are distinct, none is "manual", and no network is
  -- longer than the address.
  pub merge_split_list-routed :
      (manual : List Net) (sources : List SourceContribution) (exclusions : List Net)
      → AllFit a manual
      → AllSourcesFit a sources
      → AllFit a exclusions
      → HasSlugKeys sources
      → covered (merge_split_list manual sources exclusions).prefixes a
        ≡ routed manual sources exclusions
  unfolding merge_split_list merged_networks
  merge_split_list-routed manual sources exclusions fit sources_fit out_fit keys =
      let union = all_networks (merged_buckets manual sources) in
      let unioned = merged_buckets_lem manual sources fit sources_fit keys in
      let globals = keep is_global sources in
      let after_globals =
        subtract_globals_lem a globals (collapse union)
          (AllSourcesFit-keep is_global sources sources_fit) (AllFit-collapse a union unioned.1) in
      let after_exclusions =
        subtract_exclusions_lem a exclusions (subtract_globals (collapse union) globals) out_fit
          after_globals.1 in
      ground (
        arith,
        covered-collapse
            (subtract_exclusions (subtract_globals (collapse union) globals) exclusions) a
            after_exclusions.1,
        after_exclusions.0,
        after_globals.0,
        covered-collapse union a unioned.1,
        unioned.0,
      )
