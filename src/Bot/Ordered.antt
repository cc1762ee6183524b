-- ===== src/Bot/Ordered.antt =====
-- An `OrderedDict` as a dict without repeated keys: moving a key to the end, and taking entries
-- from the front.
use vpnbot.Prelude.{
  ℕ, ◌+◌, ◌≤◌, ◌≡◌, refl, false, [], ◌∷◌, ◌++◌, none, some, Eq, Dict, get, remove, beq_self,
  get-remove_ne, length, length-append, ltb, Bool-cases, inl, inr, arith, if◌then◌else◌,
}

pub beq_sym : {K : Type 0} ⦃e : Eq K⦄ (j k : K) → e.beq j k ≡ false → e.beq k j ≡ false
beq_sym ⦃e⦄ j k h = ground (arith, e.beq_iff j k, e.beq_iff k j)

module _ {K V : Type 0} ⦃e : Eq K⦄ where
  -- No key stands in it twice.
  abbrev pub IsKeyed : Dict K V → Type 0
  IsKeyed [] = Unit
  IsKeyed ((k, v) ∷ d) = (get d k ≡ none) × IsKeyed d

  -- `move_to_end`, with the value that is then stored.
  unfoldable pub touched : Dict K V → K → V → Dict K V
  touched d k v = remove d k ++ (k, v) ∷ []

  -- `while len(d) > max_entries: d.popitem(last=False)`
  unfoldable pub trim : ℕ → Dict K V → Dict K V
  trim max_entries [] = []
  trim max_entries (entry ∷ d) =
      let rest = trim max_entries d in
      if ltb max_entries (length (entry ∷ d)) then rest else entry ∷ d

  pub get-remove_self : (d : Dict K V) (k : K) → IsKeyed d → get (remove d k) k ≡ none
  unfolding get remove
  get-remove_self [] k h = refl
  get-remove_self ((j, v) ∷ d) k h = elim (Bool-cases (e.beq j k)) [
    | inl same ↦ let s : j ≡ k = (e.beq_iff j k).0 same in rw same (cc (s, h.0))
    | inr other ↦ rw (other, get) (rw other (get-remove_self d k h.1))
  ]

  get-append :
      (d : Dict K V) (k j : K) (v : V)
      → get (d ++ (k, v) ∷ []) j
        ≡ elim (get d j) [ some w ↦ some w | none ↦ if e.beq k j then some v else none ]
  unfolding get
  get-append [] k j v = ground arith
  get-append ((i, w) ∷ d) k j v = ground (arith, get-append d k j v)

  pub IsKeyed-remove : (d : Dict K V) (k : K) → IsKeyed d → IsKeyed (remove d k)
  unfolding get remove
  IsKeyed-remove [] k h = tt
  IsKeyed-remove ((j, v) ∷ d) k h = elim (Bool-cases (e.beq j k)) [
    | inl same ↦ rw same h.1
    | inr other ↦
        rw other (cc (get-remove_ne d k j (beq_sym j k other), h.0), IsKeyed-remove d k h.1)
  ]

  IsKeyed-append :
      (d : Dict K V) (k : K) (v : V) → get d k ≡ none → IsKeyed d → IsKeyed (d ++ (k, v) ∷ [])
  unfolding get
  IsKeyed-append [] k v new h = (refl, tt)
  IsKeyed-append ((j, w) ∷ d) k v new h = elim (Bool-cases (e.beq j k)) [
    | inl same ↦ ground (arith, same)
    | inr other ↦ (
      ground (arith, get-append d k j v, beq_sym j k other, h.0),
      IsKeyed-append d k v ground arith h.1,
    )
  ]

  pub touched-IsKeyed : (d : Dict K V) (k : K) (v : V) → IsKeyed d → IsKeyed (touched d k v)
  unfolding touched
  touched-IsKeyed d k v h =
      IsKeyed-append (remove d k) k v (get-remove_self d k h) (IsKeyed-remove d k h)

  pub trim-IsKeyed : (n : ℕ) (d : Dict K V) → IsKeyed d → IsKeyed (trim n d)
  unfolding trim
  trim-IsKeyed n [] h = tt
  trim-IsKeyed n ((k, v) ∷ d) h = elim (Bool-cases (ltb n (length ((k, v) ∷ d)))) [
    | inl over ↦ rw over (trim-IsKeyed n d h.1)
    | inr fits ↦ rw fits h
  ]

  pub get-touched_self : (d : Dict K V) (k : K) (v : V) → IsKeyed d → get (touched d k v) k ≡ some v
  unfolding touched
  get-touched_self d k v h =
      ground (arith, get-append (remove d k) k k v, get-remove_self d k h, beq_self k)

  pub get-touched_ne :
      (d : Dict K V) (k j : K) (v : V) → e.beq k j ≡ false → get (touched d k v) j ≡ get d j
  unfolding touched
  get-touched_ne d k j v other =
      ground (arith, get-append (remove d k) k j v, get-remove_ne d k j other)

  length-remove_le : (d : Dict K V) (k : K) → length (remove d k) ≤ length d
  unfolding remove
  length-remove_le [] k = omega arith
  length-remove_le ((j, v) ∷ d) k = ground (arith, length-remove_le d k)

  length-remove_held :
      (d : Dict K V) (k : K) (v : V) → get d k ≡ some v → length (remove d k) + 1 ≡ length d
  unfolding get remove
  length-remove_held [] k v h = ground arith
  length-remove_held ((j, w) ∷ d) k v h = ground (arith, length-remove_held d k v)

  pub length-touched : (d : Dict K V) (k : K) (v : V) → length (touched d k v) ≤ length d + 1
  unfolding touched
  length-touched d k v =
      omega (arith, length-append {0} (remove d k) ((k, v) ∷ []), length-remove_le d k)

  pub length-touched_known :
      (d : Dict K V) (k : K) (v w : V) → get d k ≡ some w → length (touched d k v) ≡ length d
  unfolding touched
  length-touched_known d k v w h =
      omega (arith, length-append {0} (remove d k) ((k, v) ∷ []), length-remove_held d k w h)

  pub trim_fits : (n : ℕ) (d : Dict K V) → length d ≤ n → trim n d ≡ d
  unfolding trim
  trim_fits n [] h = refl
  trim_fits n (x ∷ d) h = ground arith

  pub length-trim : (n : ℕ) (d : Dict K V) → length (trim n d) ≤ n
  unfolding trim
  length-trim n [] = omega arith
  length-trim n (x ∷ d) = ground (arith, length-trim n d)

  get-trim_last :
      (n : ℕ) (d : Dict K V) (k : K) (v : V)
      → 1 ≤ n
      → get d k ≡ none
      → get (trim n (d ++ (k, v) ∷ [])) k ≡ some v
  unfolding get trim
  get-trim_last n [] k v h new = ground (arith, beq_self k)
  get-trim_last n ((j, w) ∷ d) k v h new =
      ground (arith, get-trim_last n d k v h, get-append ((j, w) ∷ d) k k v, beq_self k)

  -- The entry that was just moved to the end outlives any trimming.
  pub get-trim_kept :
      (n : ℕ) (d : Dict K V) (k : K) (v : V)
      → 1 ≤ n
      → IsKeyed d
      → get (trim n (touched d k v)) k ≡ some v
  unfolding touched
  get-trim_kept n d k v h keyed = get-trim_last n (remove d k) k v h (get-remove_self d k keyed)
