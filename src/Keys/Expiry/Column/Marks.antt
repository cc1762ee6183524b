-- ===== src/Keys/Expiry/Column/Marks.antt =====
-- What is marked on a key reads back out of the text of the column, and by its LIKE test
-- (repositories/vpn_keys.py).
use vpnbot.Prelude.{
  ℕ, ◌<◌, ◌≡◌, refl, sym, ap, ◌∙◌, Bool, true, false, false≢true, ◌&&◌, ◌||◌, List, [], ◌∷◌, ◌++◌,
  map, Eq, beq_self, any, ltb, ltb→lt, ◌==◌, ==_iff, arith, Bool-cases, inl, inr,
}
use mathlib.Core.Option.{none-ne-some, some-injective}
use vpnbot.Keys.Expiry.Column.{
  Digits, insert, sorted_set, cons_first, split, join, known_days, days_in, days_text, mark_text,
  starts_with, is_like, is_recorded, mark_all, IsDecimal,
}

abbrev has_day : ℕ → List ℕ → Bool
has_day n days = any (λ m. n == m) days

-- Each number is smaller than the next.
abbrev IsAscending : List ℕ → Type 0
IsAscending [] = Unit
IsAscending (n ∷ []) = Unit
IsAscending (n ∷ m ∷ ns) = (n < m) × IsAscending (m ∷ ns)

insert-IsAscending_above :
    (n m : ℕ) (ns : List ℕ) → m < n → IsAscending (m ∷ ns) → IsAscending (m ∷ insert n ns)
unfolding insert
insert-IsAscending_above n m [] h asc = (h, tt)
insert-IsAscending_above n m (k ∷ ns) h asc = elim (Bool-cases (ltb n k)) [
  | inl e ↦ rw e (h, (ltb→lt n k e, asc.1))
  | inr e ↦ rw e (elim (Bool-cases (n == k)) [
    | inl e' ↦ rw e' asc
    | inr e' ↦ rw e' (asc.0, insert-IsAscending_above n k ns ground (arith, e, e') asc.1)
  ])
]

insert-IsAscending : (n : ℕ) (ns : List ℕ) → IsAscending ns → IsAscending (insert n ns)
unfolding insert
insert-IsAscending n [] asc = tt
insert-IsAscending n (m ∷ ns) asc = elim (Bool-cases (ltb n m)) [
  | inl e ↦ rw e (ltb→lt n m e, asc)
  | inr e ↦ rw e (elim (Bool-cases (n == m)) [
    | inl e' ↦ rw e' asc
    | inr e' ↦ rw e' (insert-IsAscending_above n m ns ground (arith, e, e') asc)
  ])
]

has_day-insert : (k n : ℕ) (ns : List ℕ) → has_day k (insert n ns) ≡ (k == n || has_day k ns)
unfolding insert
has_day-insert k n [] = refl
has_day-insert k n (m ∷ ns) = ground (arith, has_day-insert k n ns)

-- A list that is in order is its own sorted set.
sorted_set-IsAscending : (ns : List ℕ) → IsAscending ns → sorted_set ns ≡ ns
unfolding sorted_set insert
sorted_set-IsAscending [] asc = refl
sorted_set-IsAscending (n ∷ []) asc = refl
sorted_set-IsAscending (n ∷ m ∷ ns) asc =
    ap (insert n) (sorted_set-IsAscending (m ∷ ns) asc.1) ∙ ground (arith, asc.0)

module _ {C : Type 0} ⦃e : Eq C⦄ (t : Digits C) where
  abbrev has_comma : List C → Bool
  has_comma word = any (λ c. e.beq c t.comma) word

  split-word : (word : List C) → has_comma word ≡ false → split t word ≡ word ∷ []
  unfolding split
  split-word [] h = refl
  split-word (c ∷ word) h =
      let apart : e.beq c t.comma ≡ false = ground (arith, h) in
      let rest : has_comma word ≡ false = ground (arith, h) in
      rw apart (ap (cons_first t c) (split-word word rest))

  split-append :
      (word text : List C)
      → has_comma word ≡ false
      → split t (word ++ (t.comma ∷ text)) ≡ word ∷ split t text
  unfolding split
  split-append [] text h = rw (beq_self t.comma) refl
  split-append (c ∷ word) text h =
      let apart : e.beq c t.comma ≡ false = ground (arith, h) in
      let rest : has_comma word ≡ false = ground (arith, h) in
      rw apart (ap (cons_first t c) (split-append word text rest))

  split-join :
      (d : IsDecimal t) (n : ℕ) (ns : List ℕ)
      → split t (days_text t (n ∷ ns)) ≡ t.str_of n ∷ map t.str_of ns
  unfolding join
  split-join d n [] = split-word (t.str_of n) (d.no_comma n)
  split-join d n (m ∷ ns) =
      split-append (t.str_of n) (days_text t (m ∷ ns)) (d.no_comma n)
      ∙ ap (λ words. t.str_of n ∷ words) (split-join d m ns)

  known_days-map : (d : IsDecimal t) (ns : List ℕ) → known_days t (map t.str_of ns) ≡ ns
  unfolding known_days
  known_days-map d [] = refl
  known_days-map d (n ∷ ns) = rw (d.reads n) (ap (λ rest. n ∷ rest) (known_days-map d ns))

  days_in-days_text :
      (d : IsDecimal t) (ns : List ℕ) → IsAscending ns → days_in t (days_text t ns) ≡ ns
  unfolding join split known_days sorted_set
  days_in-days_text d [] asc = rw d.no_number refl
  days_in-days_text d (n ∷ ns) asc =
      ap (λ words. sorted_set (known_days t words)) (split-join d n ns)
      ∙ ap sorted_set (known_days-map d (n ∷ ns))
      ∙ sorted_set-IsAscending (n ∷ ns) asc

  abbrev same_word : List C → List C → Bool
  same_word [] [] = true
  same_word [] (c ∷ word) = false
  same_word (p ∷ other) [] = false
  same_word (p ∷ other) (c ∷ word) = e.beq p c && same_word other word

  same_word_sound : (other word : List C) → same_word other word ≡ true → other ≡ word
  same_word_sound [] [] h = refl
  same_word_sound [] (c ∷ word) h = ground (arith, h)
  same_word_sound (p ∷ other) [] h = ground (arith, h)
  same_word_sound (p ∷ other) (c ∷ word) h =
      let first : e.beq p c ≡ true = ground (arith, h) in
      let rest : same_word other word ≡ true = ground (arith, h) in
      ap (λ x. x ∷ other) ((e.beq_iff p c).0 first)
      ∙ ap (λ xs. c ∷ xs) (same_word_sound other word rest)

  same_word_refl : (word : List C) → same_word word word ≡ true
  same_word_refl [] = refl
  same_word_refl (c ∷ word) = ground (arith, beq_self c, same_word_refl word)

  same_word-str_of : (d : IsDecimal t) (n m : ℕ) → same_word (t.str_of n) (t.str_of m) ≡ (n == m)
  same_word-str_of d n m = elim (Bool-cases (n == m)) [
    | inl e' ↦
        let same : n ≡ m = (==_iff n m).0 e' in rw e' (cc (same, same_word_refl (t.str_of n)))
    | inr e' ↦ rw e' (elim (Bool-cases (same_word (t.str_of n) (t.str_of m))) [
      | inr f ↦ f
      | inl f ↦
          let same : n ≡ m = some-injective _ _ (
            sym (d.reads n)
            ∙ ap t.read (same_word_sound (t.str_of n) (t.str_of m) f)
            ∙ d.reads m) in
          absurd (false≢true (sym e' ∙ (==_iff n m).1 same))
    ])
  ]

  starts_with-word :
      (pattern_ word text : List C)
      → has_comma pattern_ ≡ false
      → has_comma word ≡ false
      → starts_with t (pattern_ ++ (t.comma ∷ [])) (word ++ (t.comma ∷ text))
        ≡ same_word pattern_ word
  unfolding starts_with
  starts_with-word [] [] text h k = rw (beq_self t.comma) refl
  starts_with-word [] (c ∷ word) text h k =
      ground (arith, k, e.beq_iff c t.comma, e.beq_iff t.comma c)
  starts_with-word (p ∷ pattern_) [] text h k = ground (arith, h)
  starts_with-word (p ∷ pattern_) (c ∷ word) text h k =
      ap (λ rest. e.beq p c && rest)
        (starts_with-word pattern_ word text ground (arith, h) ground (arith, k))

  -- No match starts inside a word.
  is_like-word :
      (pattern_ word text : List C)
      → has_comma word ≡ false
      → is_like t (t.comma ∷ pattern_) (word ++ (t.comma ∷ text))
        ≡ is_like t (t.comma ∷ pattern_) (t.comma ∷ text)
  unfolding is_like starts_with
  is_like-word pattern_ [] text h = refl
  is_like-word pattern_ (c ∷ word) text h =
      ground (arith, h, e.beq_iff c t.comma, e.beq_iff t.comma c, is_like-word pattern_ word text)

  starts_with-end : (word : List C) → starts_with t (word ++ (t.comma ∷ [])) [] ≡ false
  unfolding starts_with
  starts_with-end [] = refl
  starts_with-end (c ∷ word) = refl

  filled : (d : IsDecimal t) (n : ℕ) (word : List C) → t.str_of n ≡ word → same_word word [] ≡ false
  filled d n [] h = absurd (none-ne-some n (sym d.no_number ∙ ap t.read (sym h) ∙ d.reads n))
  filled d n (c ∷ word) h = refl

  -- Every number with a comma after it.
  abbrev ended : List ℕ → List C
  ended [] = []
  ended (n ∷ ns) = t.str_of n ++ (t.comma ∷ ended ns)

  append_end :
      (word text : List C)
      → (word ++ (t.comma ∷ text)) ++ (t.comma ∷ []) ≡ word ++ (t.comma ∷ (text ++ (t.comma ∷ [])))
  append_end [] text = refl
  append_end (c ∷ word) text = ap (λ rest. c ∷ rest) (append_end word text)

  days_text-ended : (n : ℕ) (ns : List ℕ) → days_text t (n ∷ ns) ++ (t.comma ∷ []) ≡ ended (n ∷ ns)
  unfolding join
  days_text-ended n [] = refl
  days_text-ended n (m ∷ ns) =
      append_end (t.str_of n) (days_text t (m ∷ ns))
      ∙ ap (λ rest. t.str_of n ++ (t.comma ∷ rest)) (days_text-ended m ns)

  is_like-ended :
      (d : IsDecimal t) (n : ℕ) (ns : List ℕ)
      → is_like t (t.comma ∷ (t.str_of n ++ (t.comma ∷ []))) (t.comma ∷ ended ns) ≡ has_day n ns
  unfolding is_like starts_with
  is_like-ended d n [] = ground (arith, starts_with-end (t.str_of n))
  is_like-ended d n (m ∷ ns) =
      let pattern_ = t.str_of n ++ (t.comma ∷ []) in
      ground (
        arith,
        beq_self t.comma,
        starts_with-word (t.str_of n) (t.str_of m) (ended ns) (d.no_comma n) (d.no_comma m),
        same_word-str_of d n m,
        is_like-word pattern_ (t.str_of m) (ended ns) (d.no_comma m),
        is_like-ended d n ns,
      )

  is_recorded-days_text :
      (d : IsDecimal t) (n : ℕ) (ns : List ℕ) → is_recorded t n (days_text t ns) ≡ has_day n ns
  unfolding is_recorded join is_like
  is_recorded-days_text d n [] = ground (
    arith,
    starts_with-word (t.str_of n) [] [] (d.no_comma n) refl,
    filled d n (t.str_of n) refl,
    is_like-ended d n [],
  )
  is_recorded-days_text d n (m ∷ ns) =
      ap (λ text. is_like t (t.comma ∷ (t.str_of n ++ (t.comma ∷ []))) (t.comma ∷ text))
        (days_text-ended m ns)
      ∙ is_like-ended d n (m ∷ ns)

  -- A text that is some numbers in order.
  abbrev IsText : List C → (ℕ → Bool) → Type 0
  IsText text has =
      (days : List ℕ) × IsAscending days
      × (text ≡ days_text t days)
      × ((k : ℕ) → has_day k days ≡ has k)

  mark_text-IsText :
      (d : IsDecimal t) (n : ℕ) (text : List C) (has : ℕ → Bool)
      → IsText text has
      → IsText (mark_text t n text) (λ k. k == n || has k)
  unfolding mark_text
  mark_text-IsText d n text has (days, asc, same, holds) = (
    insert n days,
    insert-IsAscending n days asc,
    ap (λ x. days_text t (insert n x)) (ap (days_in t) same ∙ days_in-days_text d days asc),
    λ k. ground (arith, has_day-insert k n days, holds k),
  )

  mark_all-IsText :
      (d : IsDecimal t) (ns : List ℕ) (text : List C) (has : ℕ → Bool)
      → IsText text has
      → IsText (mark_all t ns text) (λ k. has_day k ns || has k)
  unfolding mark_all
  mark_all-IsText d [] text has h = h
  mark_all-IsText d (n ∷ ns) text has h =
      let (days, asc, same, holds) =
        mark_all-IsText d ns (mark_text t n text) (λ k. k == n || has k)
          (mark_text-IsText d n text has h) in
      (days, asc, same, λ k. ground (arith, holds k))

  -- After any marks on a column without any, a threshold passes the LIKE test exactly if it was
  -- marked, and so it is with the numbers that the next mark reads out of the text. Numbers are
  -- printed without a comma and read back as themselves, and the empty text is none.
  pub mark_all-roundtrip :
      (d : IsDecimal t) (thresholds : List ℕ) (k : ℕ)
      → (is_recorded t k (mark_all t thresholds []) ≡ any (λ m. k == m) thresholds)
        × (any (λ m. k == m) (days_in t (mark_all t thresholds [])) ≡ any (λ m. k == m) thresholds)
  unfolding join
  mark_all-roundtrip d thresholds k =
      let (days, asc, same, holds) =
        mark_all-IsText d thresholds [] (λ _. false) ([], tt, refl, λ _. refl) in
      let known : has_day k days ≡ has_day k thresholds = ground (arith, holds k) in
      (
        ap (is_recorded t k) same ∙ is_recorded-days_text d k days ∙ known,
        ap (λ text. has_day k (days_in t text)) same
            ∙ ap (has_day k) (days_in-days_text d days asc)
            ∙ known,
      )
