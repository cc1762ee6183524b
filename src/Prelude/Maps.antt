-- ===== src/Prelude/Maps.antt =====
-- Python's `dict` in insertion order, over any key type with a decidable equality.
use Prim.Native.Nat.{ℕ, suc, ◌≤◌}
use Prim.Native.String.{String}
use mathlib.Core.Path.{◌≡◌, refl}
use mathlib.Core.Logic.{◌↔◌, inl, inr}
use mathlib.Core.Bool.{Bool, true, false}
use mathlib.Core.List.{List, [], ◌∷◌}
use mathlib.Core.Option.{Option, none, some}
use native.Mathlib.Omega.{arith}
use text.Mathlib.TextEquality.{eq_iff}
use vpnbot.Prelude.Tests.{if◌then◌else◌, ◌==◌ as nat_eqb, ==_iff, str_eq, Bool-cases}
use vpnbot.Prelude.Lists.{length}

pub record Eq {ℓ} (A : Type ℓ) : Type ℓ where
  pub beq : A → A → Bool
  pub beq_iff : (a b : A) → (beq a b ≡ true) ↔ (a ≡ b)

instance abbrev pub nat_eq : Eq ℕ
nat_eq = record { beq = nat_eqb; beq_iff = ==_iff }

instance abbrev pub string_eq : Eq String
string_eq = record { beq = str_eq; beq_iff = eq_iff }

abbrev pub Dict {ℓ κ} : Type ℓ → Type κ → Type (ℓ ⊔ κ)
Dict K V = List (K × V)

pub beq_self {ℓ} : {K : Type ℓ} ⦃e : Eq K⦄ (k : K) → e.beq k k ≡ true
beq_self ⦃e⦄ k = (e.beq_iff k k).1 refl

module _ {ℓ κ} {K : Type ℓ} {V : Type κ} ⦃e : Eq K⦄ where
  -- `d.get(k)`
  unfoldable pub get : Dict K V → K → Option V
  get [] k = none
  get ((j, v) ∷ d) k = if e.beq j k then some v else get d k

  -- `d[k] = v`: a known key keeps its place, a new one goes to the end.
  unfoldable pub put : Dict K V → K → V → Dict K V
  put [] k v = (k, v) ∷ []
  put ((j, w) ∷ d) k v = if e.beq j k then (j, v) ∷ d else (j, w) ∷ put d k v

  -- `del d[k]`, and `d.pop(k, None)`
  unfoldable pub remove : Dict K V → K → Dict K V
  remove [] k = []
  remove ((j, w) ∷ d) k = if e.beq j k then d else (j, w) ∷ remove d k

  pub get-put_self : (d : Dict K V) (k : K) (v : V) → get (put d k v) k ≡ some v
  unfolding get put
  get-put_self [] k v = ground (arith, beq_self k)
  get-put_self ((j, w) ∷ d) k v = ground (arith, get-put_self d k v)

  pub get-put_ne :
      (d : Dict K V) (k j : K) (v : V) → e.beq k j ≡ false → get (put d k v) j ≡ get d j
  unfolding get put
  get-put_ne [] k j v h = ground arith
  get-put_ne ((i, w) ∷ d) k j v h =
      ground (arith, get-put_ne d k j v h, e.beq_iff i k, e.beq_iff i j)

  pub get-remove_ne : (d : Dict K V) (k j : K) → e.beq k j ≡ false → get (remove d k) j ≡ get d j
  unfolding get remove
  get-remove_ne [] k j h = refl
  get-remove_ne ((i, w) ∷ d) k j h =
      ground (arith, get-remove_ne d k j h, e.beq_iff i k, e.beq_iff i j)

  pub length-put : (d : Dict K V) (k : K) (v : V) → length (put d k v) ≤ suc (length d)
  unfolding put
  length-put [] k v = omega arith
  length-put ((j, w) ∷ d) k v = ground (arith, length-put d k v)

  pub length-put_known :
      (d : Dict K V) (k : K) (v w : V) → get d k ≡ some w → length (put d k v) ≡ length d
  unfolding get put
  length-put_known [] k v w h = ground arith
  length-put_known ((j, u) ∷ d) k v w h = ground (arith, length-put_known d k v w)

  pub length-put_new :
      (d : Dict K V) (k : K) (v : V) → get d k ≡ none → length (put d k v) ≡ suc (length d)
  unfolding get put
  length-put_new [] k v h = refl
  length-put_new ((j, u) ∷ d) k v h = ground (arith, length-put_new d k v)

  pub length-remove :
      (d : Dict K V) (k : K) (w : V) → get d k ≡ some w → suc (length (remove d k)) ≡ length d
  unfolding get remove
  length-remove [] k w h = ground arith
  length-remove ((j, u) ∷ d) k w h = ground (arith, length-remove d k w)

-- Reading after a write, at numbers.
pub get-put {κ} :
    {V : Type κ} (d : Dict ℕ V) (k j : ℕ) (v : V)
    → get (put d k v) j ≡ (if nat_eqb k j then some v else get d j)
get-put d k j v = elim (Bool-cases (nat_eqb k j)) [
  | inl same ↦ let e : k ≡ j = (==_iff k j).0 same in rw same (cc (e, get-put_self d k v))
  | inr other ↦ rw other (get-put_ne d k j v other)
]
