-- ===== src/Keys/Expiry/Column.antt =====
-- The text of the column `expiry_notified_days` (repositories/vpn_keys.py, `mark_expiry_notified`
-- and the test of `list_not_notified_expiring`), which the rows of Keys.Store have as a list.
--
-- A text is a list of characters, of a type with a comma. `str`, and `int` of what is a number
-- once it is stripped, are parameters; NULL and the empty text read alike. A LIKE pattern of
-- digits and commas has no wildcard but the two at its ends.
pub mod Marks
use vpnbot.Prelude.{
  ℕ, suc, ◌<◌, ◌≡◌, refl, sym, ap, ◌∙◌, Bool, true, false, not, ◌&&◌, ◌||◌, List, [], ◌∷◌, ◌++◌,
  map, Option, none, some, Eq, beq_self, any, ltb, ◌==◌, ==_iff, All, arith, if◌then◌else◌,
  Bool-cases, inl, inr,
}

pub record Digits (C : Type 0) : Type 0 where
  pub comma : C
  pub str_of : ℕ → List C
  pub read : List C → Option ℕ

-- `sorted` of a set of numbers.
unfoldable pub insert : ℕ → List ℕ → List ℕ
insert n [] = n ∷ []
insert n (m ∷ ns) =
    let rest = insert n ns in if ltb n m then n ∷ m ∷ ns else (if n == m then m ∷ ns else m ∷ rest)

unfoldable pub sorted_set : List ℕ → List ℕ
unfolding insert
sorted_set [] = []
sorted_set (n ∷ ns) = insert n (sorted_set ns)

abbrev pub cons_known : Option ℕ → List ℕ → List ℕ
cons_known none ns = ns
cons_known (some n) ns = n ∷ ns

module _ {C : Type 0} ⦃e : Eq C⦄ (t : Digits C) where
  abbrev pub cons_first : C → List (List C) → List (List C)
  cons_first c [] = (c ∷ []) ∷ []
  cons_first c (word ∷ words) = (c ∷ word) ∷ words

  -- `text.split(",")`
  unfoldable pub split : List C → List (List C)
  split [] = [] ∷ []
  split (c ∷ text) =
      let rest = split text in if e.beq c t.comma then [] ∷ rest else cons_first c rest

  -- `",".join(words)`
  unfoldable pub join : List (List C) → List C
  join [] = []
  join (word ∷ []) = word
  join (word ∷ next ∷ words) = word ++ (t.comma ∷ join (next ∷ words))

  unfoldable pub known_days : List (List C) → List ℕ
  known_days [] = []
  known_days (word ∷ words) = cons_known (t.read word) (known_days words)

  -- `{int(d) for d in text.split(",") if d.strip().isdigit()}`, sorted.
  abbrev pub days_in : List C → List ℕ
  days_in text = sorted_set (known_days (split text))

  abbrev pub days_text : List ℕ → List C
  days_text days = join (map t.str_of days)

  -- `mark_expiry_notified`, on the column.
  unfoldable pub mark_text : ℕ → List C → List C
  unfolding insert split join known_days sorted_set
  mark_text threshold text = days_text (insert threshold (days_in text))

  unfoldable pub starts_with : List C → List C → Bool
  starts_with [] text = true
  starts_with (p ∷ pattern_) [] = false
  starts_with (p ∷ pattern_) (c ∷ text) = e.beq p c && starts_with pattern_ text

  -- `text LIKE '%' || pattern || '%'`
  unfoldable pub is_like : List C → List C → Bool
  unfolding starts_with
  is_like pattern_ [] = starts_with pattern_ []
  is_like pattern_ (c ∷ text) = starts_with pattern_ (c ∷ text) || is_like pattern_ text

  unfoldable pub is_recorded : ℕ → List C → Bool
  unfolding is_like
  is_recorded threshold text =
      is_like (t.comma ∷ (t.str_of threshold ++ (t.comma ∷ [])))
        (t.comma ∷ (text ++ (t.comma ∷ [])))

  unfoldable pub mark_all : List ℕ → List C → List C
  unfolding mark_text
  mark_all [] text = text
  mark_all (threshold ∷ thresholds) text = mark_all thresholds (mark_text threshold text)

  -- `str(n)` reads as n and has no comma; the empty text is no number.
  pub record IsDecimal : Type 0 where
    pub reads : (n : ℕ) → t.read (t.str_of n) ≡ some n
    pub no_comma : (n : ℕ) → any (λ c. e.beq c t.comma) (t.str_of n) ≡ false
    pub no_number : t.read [] ≡ none
