-- ===== src/Keys/Lifecycle/Archive.antt =====
-- The traffic of a deleted key is kept (repositories/vpn_keys.py).
use vpnbot.Prelude.{
  ℕ, ◌+◌, ◌≡◌, refl, true, List, [], ◌∷◌, none, some, Dict, get, remove, nat_eq, is_some, arith,
  Option-cases, inl, inr,
}
use vpnbot.Keys.Store.{Traffic, Archived, Store, hard_delete_with_stats}

abbrev volume : Traffic → ℕ
volume t = t.downloaded_bytes + t.uploaded_bytes

abbrev stored_volume : Dict ℕ Traffic → ℕ
stored_volume [] = 0
stored_volume ((id, t) ∷ rows) = volume t + stored_volume rows

abbrev archived_volume : List Archived → ℕ
archived_volume [] = 0
archived_volume (a ∷ rows) = volume a.traffic + archived_volume rows

-- The bytes that a dashboard sums up: those of the keys and those of the archive.
abbrev pub total_volume : Store → ℕ
total_volume s = stored_volume s.traffic + archived_volume s.archive

stored_volume-remove :
    (rows : Dict ℕ Traffic) (id : ℕ) (t : Traffic)
    → get rows id ≡ some t
    → volume t + stored_volume (remove rows id) ≡ stored_volume rows
unfolding get remove
stored_volume-remove [] id t e = ground arith
stored_volume-remove ((j, u) ∷ rows) id t e = ground (arith, stored_volume-remove rows id t)

remove-unknown : (rows : Dict ℕ Traffic) (id : ℕ) → get rows id ≡ none → remove rows id ≡ rows
unfolding get remove
remove-unknown [] id e = refl
remove-unknown ((j, u) ∷ rows) id e = ground (arith, remove-unknown rows id)

-- A hard delete of a key that is there, or that has no traffic row, keeps the bytes in total: what
-- leaves the statistics enters the archive.
pub hard_delete_with_stats-total :
    (id now : ℕ) (s : Store)
    → (is_some (get s.traffic id) ≡ true → is_some (get s.keys id) ≡ true)
    → total_volume (hard_delete_with_stats id now s) ≡ total_volume s
unfolding hard_delete_with_stats
hard_delete_with_stats-total id now s owned = elim (Option-cases (get s.traffic id)) [
  | inl e ↦ rw (e, remove-unknown s.traffic id e) refl
  | inr (t, e) ↦ elim (Option-cases (get s.keys id)) [
    | inl missing ↦ ground (arith, owned)
    | inr (key, e') ↦ rw (e, e') omega (arith, stored_volume-remove s.traffic id t e)
  ]
]
