-- ===== src/Warp/Split/Merge/Addresses.antt =====
-- Which addresses `subtract_networks` and `merge_split_list` (warp/split_merge.py) leave in.
use vpnbot.Prelude.{
  ◌≤◌, ◌≡◌, refl, sym, ap, String, Bool, false, not, ◌&&◌, List, [], ◌∷◌, Option, none, some, get,
  put, length, any, any-append, All, All-append, ◌∙◌, str_eq, string_eq, eq_iff, Option-cases,
  Bool-cases, inl, inr, arith,
}
use vpnbot.Warp.Split.Net.{Net, covers, covered}
use vpnbot.Warp.Split.Exclude.{carve, covered-carve}
use vpnbot.Warp.Split.Collapse.{collapse}
use vpnbot.Warp.Split.Collapse.Cover.{AllFit, covered-collapse}
use vpnbot.Warp.Split.Merge.{
  SourceContribution, Buckets, subtract_holes, subtract_networks, all_networks, subtract_scope,
  subtract_scoped, subtract_globals, subtract_exclusions,
}
use vpnbot.Warp.Split.Merge.Fit.{AllFit-collapse, AllFit-subtract_networks}

-- The networks of every source fit into the address.
abbrev pub AllSourcesFit : List Bool → List SourceContribution → Type 0
AllSourcesFit a sources = All (λ s. AllFit a s.networks) sources

-- The source takes address space out of this origin.
abbrev pub aims : Option String → String → Bool
aims none origin = false
aims (some target) origin = str_eq target origin

module _ (a : List Bool) where
  covered-subtract_holes :
      (holes current : List Net)
      → AllFit a holes
      → covered (subtract_holes current holes) a ≡ (covered current a && not (covered holes a))
  unfolding subtract_holes
  covered-subtract_holes [] [] fit = refl
  covered-subtract_holes [] (n ∷ current) fit = ground arith
  covered-subtract_holes (hole ∷ holes) [] fit = refl
  covered-subtract_holes (hole ∷ holes) (n ∷ current) fit = ground (
    arith,
    covered-carve hole (n ∷ current) a fit.0,
    covered-subtract_holes holes (carve hole (n ∷ current)) fit.1,
  )

  -- Subtraction is over addresses: an address is left exactly if the base has it and no network of
  -- the subtrahend does, however the two are cut into prefixes.
  pub covered-subtract_networks :
      (base minus : List Net)
      → AllFit a minus
      → covered (subtract_networks base minus) a ≡ (covered base a && not (covered minus a))
  unfolding subtract_networks
  covered-subtract_networks base minus fit = ground (
    arith,
    covered-subtract_holes (collapse minus) base (AllFit-collapse a minus fit),
    covered-collapse minus a fit,
  )

  -- Some source of the list publishes the address.
  abbrev pub published : List SourceContribution → Bool
  published sources = any (λ s. covered s.networks a) sources

  -- Some source of the list takes the address out of the origin.
  abbrev pub withdrawn : String → List SourceContribution → Bool
  withdrawn origin scoped = any (λ s. aims s.scope_slug origin && covered s.networks a) scoped

  -- What an origin adds: its networks, less what is taken out of it.
  abbrev pub contributes : List SourceContribution → String → List Net → Bool
  contributes scoped origin networks = covered networks a && not (withdrawn origin scoped)

  abbrev pub some_bucket : List SourceContribution → Buckets → Bool
  some_bucket scoped buckets = any (λ e. contributes scoped e.0 e.1) buckets

  abbrev pub AllBucketsFit : Buckets → Type 0
  AllBucketsFit buckets = All (λ e. AllFit a e.1) buckets

  abbrev pub AllKeysDiffer : String → Buckets → Type 0
  AllKeysDiffer k buckets = All (λ e. str_eq e.0 k ≡ false) buckets

  abbrev pub HasDistinctKeys : Buckets → Type 0
  HasDistinctKeys [] = Unit
  HasDistinctKeys (e ∷ buckets) = AllKeysDiffer e.0 buckets × HasDistinctKeys buckets

  pub covered-all_networks :
      (buckets : Buckets) → covered (all_networks buckets) a ≡ some_bucket [] buckets
  unfolding all_networks
  covered-all_networks [] = refl
  covered-all_networks ((o, b) ∷ buckets) = ground (
    arith,
    any-append (λ net. covers net a) b (all_networks buckets),
    covered-all_networks buckets,
  )

  str_eq_sym : (s t : String) → str_eq s t ≡ false → str_eq t s ≡ false
  str_eq_sym s t h = ground (arith, eq_iff s t, eq_iff t s)

  aims-some :
      (t : SourceContribution) (k o : String)
      → t.scope_slug ≡ some k
      → aims t.scope_slug o ≡ str_eq k o
  aims-some t k o e = rw e refl

  some_bucket-other :
      (t : SourceContribution) (scoped : List SourceContribution) (k : String) (buckets : Buckets)
      → t.scope_slug ≡ some k
      → AllKeysDiffer k buckets
      → some_bucket (t ∷ scoped) buckets ≡ some_bucket scoped buckets
  some_bucket-other t scoped k [] e differ = refl
  some_bucket-other t scoped k ((o, b) ∷ buckets) e differ = ground (
    arith,
    str_eq_sym o k differ.0,
    aims-some t k o e,
    some_bucket-other t scoped k buckets e differ.1,
  )

  AllKeysDiffer-get :
      (k : String) (buckets : Buckets) → get buckets k ≡ none → AllKeysDiffer k buckets
  unfolding get
  AllKeysDiffer-get k [] e = tt
  AllKeysDiffer-get k ((o, b) ∷ buckets) e = ground (arith, AllKeysDiffer-get k buckets)

  some_bucket-put :
      (t : SourceContribution) (scoped : List SourceContribution) (k : String) (bucket : List Net)
      (buckets : Buckets)
      → AllFit a t.networks
      → t.scope_slug ≡ some k
      → HasDistinctKeys buckets
      → get buckets k ≡ some bucket
      → some_bucket scoped (put buckets k (subtract_networks bucket t.networks))
        ≡ some_bucket (t ∷ scoped) buckets
  unfolding get put
  some_bucket-put t scoped k bucket [] fit e distinct found = ground arith
  some_bucket-put t scoped k bucket ((o, b) ∷ buckets) fit e distinct found =
      elim (Bool-cases (str_eq o k)) [
        | inl here ↦
            let same : o ≡ k = (eq_iff o k).0 here in
            rw here (
              ground (
                arith,
                aims-some t k o e,
                eq_iff k o,
                covered-subtract_networks b t.networks fit,
                some_bucket-other t scoped o buckets (cc (e, same)) distinct.0,
              ))
        | inr there ↦ rw there (
            ground (
              arith,
              aims-some t k o e,
              str_eq_sym o k there,
              some_bucket-put t scoped k bucket buckets fit e distinct.1,
            ))
      ]

  some_bucket-subtract_scope :
      (t : SourceContribution) (scoped : List SourceContribution) (k : String) (buckets : Buckets)
      → AllFit a t.networks
      → t.scope_slug ≡ some k
      → HasDistinctKeys buckets
      → some_bucket scoped (subtract_scope t (some k) buckets) ≡ some_bucket (t ∷ scoped) buckets
  unfolding subtract_scope
  some_bucket-subtract_scope t scoped k buckets fit e distinct =
      elim (Option-cases (get buckets k)) [
        | inl absent ↦
            rw (absent, subtract_scope)
              (sym (some_bucket-other t scoped k buckets e (AllKeysDiffer-get k buckets absent)))
        | inr (bucket, found) ↦
            rw (found, subtract_scope)
              (some_bucket-put t scoped k bucket buckets fit e distinct found)
      ]

  AllKeysDiffer-put :
      (j k : String) (bucket : List Net) (buckets : Buckets)
      → str_eq k j ≡ false
      → AllKeysDiffer j buckets
      → AllKeysDiffer j (put buckets k bucket)
  unfolding put
  AllKeysDiffer-put j k bucket [] h differ = (h, tt)
  AllKeysDiffer-put j k bucket ((o, b) ∷ buckets) h differ =
      ground (arith, AllKeysDiffer-put j k bucket buckets h)

  pub put-HasDistinctKeys :
      (k : String) (bucket : List Net) (buckets : Buckets)
      → HasDistinctKeys buckets
      → HasDistinctKeys (put buckets k bucket)
  unfolding put
  put-HasDistinctKeys k bucket [] distinct = (tt, tt)
  put-HasDistinctKeys k bucket ((o, b) ∷ buckets) distinct = elim (Bool-cases (str_eq o k)) [
    | inl here ↦ rw here distinct
    | inr there ↦ rw there (
        (
          AllKeysDiffer-put o k bucket buckets (str_eq_sym o k there) distinct.0,
          put-HasDistinctKeys k bucket buckets distinct.1,
        ))
  ]

  pub put-AllBucketsFit :
      (k : String) (bucket : List Net) (buckets : Buckets)
      → AllFit a bucket
      → AllBucketsFit buckets
      → AllBucketsFit (put buckets k bucket)
  unfolding put
  put-AllBucketsFit k bucket [] h fit = (h, tt)
  put-AllBucketsFit k bucket ((o, b) ∷ buckets) h fit =
      ground (arith, put-AllBucketsFit k bucket buckets h fit.1)

  get-AllBucketsFit :
      (k : String) (bucket : List Net) (buckets : Buckets)
      → AllBucketsFit buckets
      → get buckets k ≡ some bucket
      → AllFit a bucket
  unfolding get
  get-AllBucketsFit k bucket [] fit found = ground arith
  get-AllBucketsFit k bucket ((o, b) ∷ buckets) fit found =
      ground (arith, get-AllBucketsFit k bucket buckets fit.1)

  pub AllFit-all_networks :
      (buckets : Buckets) → AllBucketsFit buckets → AllFit a (all_networks buckets)
  unfolding all_networks
  AllFit-all_networks [] fit = tt
  AllFit-all_networks ((o, b) ∷ buckets) fit =
      All-append (λ n. length n ≤ length a) b (all_networks buckets) fit.0
        (AllFit-all_networks buckets fit.1)

  -- What holds of the buckets throughout the merge.
  abbrev pub IsWellFormed : Buckets → Type 0
  IsWellFormed buckets = HasDistinctKeys buckets × AllBucketsFit buckets

  subtract_scope-IsWellFormed :
      (t : SourceContribution) (scope : Option String) (buckets : Buckets)
      → AllFit a t.networks
      → IsWellFormed buckets
      → IsWellFormed (subtract_scope t scope buckets)
  unfolding subtract_scope
  subtract_scope-IsWellFormed t none buckets fit w = w
  subtract_scope-IsWellFormed t (some k) buckets fit w = elim (Option-cases (get buckets k)) [
    | inl absent ↦ rw (absent, subtract_scope) w
    | inr (bucket, found) ↦
        rw (found, subtract_scope)
          ((
            put-HasDistinctKeys k (subtract_networks bucket t.networks) buckets w.0,
            put-AllBucketsFit k (subtract_networks bucket t.networks) buckets
                (AllFit-subtract_networks a bucket t.networks fit
                  (get-AllBucketsFit k bucket buckets w.1 found))
                w.1,
          ))
  ]

  some_bucket-none :
      (t : SourceContribution) (scoped : List SourceContribution) (buckets : Buckets)
      → t.scope_slug ≡ none
      → some_bucket (t ∷ scoped) buckets ≡ some_bucket scoped buckets
  some_bucket-none t scoped [] e = refl
  some_bucket-none t scoped ((o, b) ∷ buckets) e =
      ground (arith, aims_none o, some_bucket-none t scoped buckets e)
    where
      aims_none : (o : String) → aims t.scope_slug o ≡ false
      aims_none o = rw e refl

  -- One subtract source, whatever its scope.
  some_bucket-subtract :
      (t : SourceContribution) (scoped : List SourceContribution) (buckets : Buckets)
      → AllFit a t.networks
      → HasDistinctKeys buckets
      → some_bucket scoped (subtract_scope t t.scope_slug buckets)
        ≡ some_bucket (t ∷ scoped) buckets
  unfolding subtract_scope
  some_bucket-subtract t scoped buckets fit distinct = elim (Option-cases t.scope_slug) [
    | inl everywhere ↦
        ap (λ s. some_bucket scoped (subtract_scope t s buckets)) everywhere
        ∙ sym (some_bucket-none t scoped buckets everywhere)
    | inr (k, here) ↦
        ap (λ s. some_bucket scoped (subtract_scope t s buckets)) here
        ∙ some_bucket-subtract_scope t scoped k buckets fit here distinct
  ]

  pub some_bucket-subtract_scoped :
      (scoped : List SourceContribution) (buckets : Buckets)
      → AllSourcesFit a scoped
      → IsWellFormed buckets
      → (some_bucket [] (subtract_scoped buckets scoped) ≡ some_bucket scoped buckets)
        × IsWellFormed (subtract_scoped buckets scoped)
  unfolding subtract_scoped
  some_bucket-subtract_scoped [] buckets fit w = (refl, w)
  some_bucket-subtract_scoped (t ∷ scoped) buckets fit w =
      let ih =
        some_bucket-subtract_scoped scoped (subtract_scope t t.scope_slug buckets) fit.1
          (subtract_scope-IsWellFormed t t.scope_slug buckets fit.0 w) in
      (ih.0 ∙ some_bucket-subtract t scoped buckets fit.0 w.0, ih.1)

  pub subtract_globals_lem :
      (globals : List SourceContribution) (merged : List Net)
      → AllSourcesFit a globals
      → AllFit a merged
      → (covered (subtract_globals merged globals) a
          ≡ (covered merged a && not (published globals)))
        × AllFit a (subtract_globals merged globals)
  unfolding subtract_globals
  subtract_globals_lem [] merged fit h = (ground arith, h)
  subtract_globals_lem (t ∷ globals) merged fit h =
      let ih =
        subtract_globals_lem globals (subtract_networks merged t.networks) fit.1
          (AllFit-subtract_networks a merged t.networks fit.0 h) in
      (ground (arith, ih.0, covered-subtract_networks merged t.networks fit.0), ih.1)

  pub subtract_exclusions_lem :
      (exclusions merged : List Net)
      → AllFit a exclusions
      → AllFit a merged
      → (covered (subtract_exclusions merged exclusions) a
          ≡ (covered merged a && not (covered exclusions a)))
        × AllFit a (subtract_exclusions merged exclusions)
  unfolding subtract_exclusions
  subtract_exclusions_lem [] merged fit h = (ground arith, h)
  subtract_exclusions_lem (n ∷ exclusions) merged fit h = (
    covered-subtract_networks merged (n ∷ exclusions) fit,
    AllFit-subtract_networks a merged (n ∷ exclusions) fit h,
  )
