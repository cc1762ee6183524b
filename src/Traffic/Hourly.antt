-- ===== src/Traffic/Hourly.antt =====
-- The totals and their hourly history (services/traffic_stats.py, repositories/traffic_stats.py).
use vpnbot.Prelude.{
  ℕ, ◌+◌, ◌≤◌, ◌≡◌, refl, sym, ◌∙◌, String, true, false, ◌||◌, List, [], ◌∷◌, Option, none, some,
  Dict, get, put, get-put, nat_eq, string_eq, is_some, ◌==◌, ==_iff, Bool-cases, Option-cases, inl,
  inr, All, arith, if◌then◌else◌,
}
use vpnbot.Keys.Store.{VpnKey, VpnKeyType, awg, xray, hysteria2}
use vpnbot.Traffic.Tables.{
  ℤ, Reason, load_failed, no_public_key, peer_missing, no_label, TrafficStats, Bucket, Tables,
  next_total, next_total_for_direction, add_bucket, upsert_success, touch_attempt,
  upsert_unavailable, unavailable_stats, touched_stats,
}
use vpnbot.Traffic.Refresh.{
  store_success, Answers, awg_source, xray_source, hysteria_source, counter_name, refresh_awg_key,
  refresh_xray_key, refresh_hysteria_key, refresh_key, refresh_from, refresh_views,
  downloaded_before, uploaded_before, raw_downloaded_before, raw_uploaded_before, success_row,
  success_bucket, store_transfer, refresh_awg_peer, refresh_xray_label, store_session,
  refresh_hysteria_label,
}

-- The bytes of a key in the history.
abbrev pub booked_down : ℕ → List Bucket → ℕ
booked_down id [] = 0
booked_down id (b ∷ hourly) =
    (if b.key_id == id then b.downloaded_bytes else 0) + booked_down id hourly

abbrev pub booked_up : ℕ → List Bucket → ℕ
booked_up id [] = 0
booked_up id (b ∷ hourly) = (if b.key_id == id then b.uploaded_bytes else 0) + booked_up id hourly

booked-add_bucket :
    (id : ℕ) (b : Bucket) (hourly : List Bucket)
    → (booked_down id (add_bucket b hourly)
        ≡ (if b.key_id == id then b.downloaded_bytes else 0) + booked_down id hourly)
      × (booked_up id (add_bucket b hourly)
          ≡ (if b.key_id == id then b.uploaded_bytes else 0) + booked_up id hourly)
unfolding add_bucket
booked-add_bucket id b [] = (refl, refl)
booked-add_bucket id b (o ∷ hourly) = ground (arith, booked-add_bucket id b hourly)

next_total_for_direction-le :
    (total : ℕ) (previous : Option ℕ) (raw : Option ℤ)
    → total ≤ (next_total_for_direction total previous raw).0
unfolding next_total_for_direction next_total
next_total_for_direction-le total previous none = omega arith
next_total_for_direction-le total none (some raw) = omega arith
next_total_for_direction-le total (some p) (some raw) = ground arith

-- What a change of the tables by this key keeps: the rows of the others; for each key, the totals
-- do not go down, and the history gains what the totals gain.
pub record Books (id : ℕ) (t t' : Tables) : Type 0 where
  pub others : (j : ℕ) → (id == j) ≡ false → get t'.stats j ≡ get t.stats j
  pub down :
      (j : ℕ)
      → booked_down j t'.hourly + downloaded_before (get t.stats j)
        ≡ booked_down j t.hourly + downloaded_before (get t'.stats j)
  pub up :
      (j : ℕ)
      → booked_up j t'.hourly + uploaded_before (get t.stats j)
        ≡ booked_up j t.hourly + uploaded_before (get t'.stats j)
  pub grows :
      (j : ℕ)
      → (downloaded_before (get t.stats j) ≤ downloaded_before (get t'.stats j))
        × (uploaded_before (get t.stats j) ≤ uploaded_before (get t'.stats j))

row-lem :
    (stats : Dict ℕ TrafficStats) (id j : ℕ) (row : TrafficStats)
    → (downloaded_before (get (put stats id row) j)
        ≡ (if id == j then row.downloaded_bytes else downloaded_before (get stats j)))
      × (uploaded_before (get (put stats id row) j)
          ≡ (if id == j then row.uploaded_bytes else uploaded_before (get stats j)))
row-lem stats id j row = ground (arith, get-put stats id j row)

same_key : (stats : Dict ℕ TrafficStats) (id j : ℕ) → (id == j) ≡ true → get stats j ≡ get stats id
same_key stats id j e = let s : id ≡ j = (==_iff id j).0 e in cc s

module _ (t : Tables) (id : ℕ) (row : TrafficStats) where
  -- A row that keeps the totals.
  kept-Books :
      row.downloaded_bytes ≡ downloaded_before (get t.stats id)
      → row.uploaded_bytes ≡ uploaded_before (get t.stats id)
      → Books id t (record t { stats = put t.stats id row })
  kept-Books down up = record {
    others = λ j e. ground (arith, get-put t.stats id j row, e);
    down = λ j. ground (arith, row-lem t.stats id j row, same_key t.stats id j, down);
    up = λ j. ground (arith, row-lem t.stats id j row, same_key t.stats id j, up);
    grows = λ j. ground (arith, row-lem t.stats id j row, same_key t.stats id j, down, up);
  }

  -- A row that adds what the bucket has.
  written-Books :
      (bucket : Bucket)
      → bucket.key_id ≡ id
      → row.downloaded_bytes ≡ downloaded_before (get t.stats id) + bucket.downloaded_bytes
      → row.uploaded_bytes ≡ uploaded_before (get t.stats id) + bucket.uploaded_bytes
      → Books id t (upsert_success id row bucket t)
  unfolding upsert_success
  written-Books bucket key down up = record {
    others = λ j e. ground (arith, get-put t.stats id j row, e);
    down = λ j. ground (
      arith,
      row-lem t.stats id j row,
      same_key t.stats id j,
      booked-add_bucket j bucket t.hourly,
      down,
    );
    up = λ j. ground (
      arith,
      row-lem t.stats id j row,
      same_key t.stats id j,
      booked-add_bucket j bucket t.hourly,
      up,
    );
    grows = λ j. ground (arith, row-lem t.stats id j row, same_key t.stats id j, down, up);
  }

unavailable_lem :
    (reason : Reason) (now : ℕ) (source : String) (o : Option TrafficStats)
    → ((unavailable_stats reason now source o).downloaded_bytes ≡ downloaded_before o)
      × ((unavailable_stats reason now source o).uploaded_bytes ≡ uploaded_before o)
unavailable_lem reason now source none = (refl, refl)
unavailable_lem reason now source (some row) = (refl, refl)

touched_lem :
    (now : ℕ) (source : String) (o : Option TrafficStats)
    → ((touched_stats now source o).downloaded_bytes ≡ downloaded_before o)
      × ((touched_stats now source o).uploaded_bytes ≡ uploaded_before o)
touched_lem now source none = (refl, refl)
touched_lem now source (some row) = (refl, refl)

module _ (t : Tables) (id now : ℕ) (source : String) where
  unavailable-Books : (reason : Reason) → Books id t (upsert_unavailable id reason now source t)
  unfolding upsert_unavailable
  unavailable-Books reason =
      let o = get t.stats id in
      let same = unavailable_lem reason now source o in
      kept-Books t id (unavailable_stats reason now source o) same.0 same.1

  touch-Books : Books id t (touch_attempt id now source t)
  unfolding touch_attempt
  touch-Books =
      let o = get t.stats id in
      let same = touched_lem now source o in
      kept-Books t id (touched_stats now source o) same.0 same.1

module _ (t : Tables) (key : VpnKey) (now : ℕ) (answers : Answers) where
  store-Books :
      (down up : Option ℤ) (source : String)
      → Books key.id t (store_success key (get t.stats key.id) down up source now t)
  unfolding store_success
  store-Books down up source =
      let o = get t.stats key.id in
      let d = next_total_for_direction-le (downloaded_before o) (raw_downloaded_before o) down in
      let u = next_total_for_direction-le (uploaded_before o) (raw_uploaded_before o) up in
      written-Books t key.id (success_row o down up source now) (success_bucket key o down up now)
        refl omega (arith, d) omega (arith, u)

  awg-Books : Books key.id t (refresh_awg_key key (get t.stats key.id) answers now t)
  unfolding refresh_awg_key refresh_awg_peer store_transfer
  awg-Books = elim (Bool-cases answers.awg_failed) [
    | inl e ↦ rw e (unavailable-Books t key.id now awg_source load_failed)
    | inr e ↦ elim (Option-cases key.public_key) [
      | inl e' ↦ rw (e, e') (unavailable-Books t key.id now awg_source no_public_key)
      | inr (public_key, e') ↦ elim (Option-cases (get answers.transfers public_key)) [
        | inl e'' ↦ rw (e, e', e'') (unavailable-Books t key.id now awg_source peer_missing)
        | inr (raw, e'') ↦ rw (e, e', e'') (store-Books (some raw.1) (some raw.0) awg_source)
      ]
    ]
  ]

  xray-Books : Books key.id t (refresh_xray_key key (get t.stats key.id) answers now t)
  unfolding refresh_xray_key refresh_xray_label
  xray-Books = elim (Bool-cases answers.xray_failed) [
    | inl e ↦ rw e (unavailable-Books t key.id now xray_source load_failed)
    | inr e ↦ elim (Option-cases key.email_label) [
      | inl e' ↦ rw (e, e') (unavailable-Books t key.id now xray_source no_label)
      | inr (label, e') ↦
          let down = get answers.xray_stats (counter_name label "downlink") in
          let up = get answers.xray_stats (counter_name label "uplink") in
          elim (Bool-cases (is_some down || is_some up)) [
            | inl seen ↦ rw (e, e', seen) (store-Books down up xray_source)
            | inr idle ↦ rw (e, e', idle) (touch-Books t key.id now xray_source)
          ]
    ]
  ]

  hysteria-Books : Books key.id t (refresh_hysteria_key key (get t.stats key.id) answers now t)
  unfolding refresh_hysteria_key refresh_hysteria_label store_session
  hysteria-Books = elim (Bool-cases answers.hysteria_failed) [
    | inl e ↦ rw e (unavailable-Books t key.id now hysteria_source load_failed)
    | inr e ↦ elim (Option-cases key.email_label) [
      | inl e' ↦ rw (e, e') (unavailable-Books t key.id now hysteria_source no_label)
      | inr (label, e') ↦ elim (Option-cases (get answers.hysteria_stats label)) [
        | inl e'' ↦ rw (e, e', e'') (touch-Books t key.id now hysteria_source)
        | inr (raw, e'') ↦ rw (e, e', e'') (store-Books (some raw.1) (some raw.0) hysteria_source)
      ]
    ]
  ]

  refresh_key-Books :
      (type : VpnKeyType) → Books key.id t (refresh_key type key (get t.stats key.id) answers now t)
  unfolding refresh_key
  refresh_key-Books awg = awg-Books
  refresh_key-Books xray = xray-Books
  refresh_key-Books hysteria2 = hysteria-Books

-- No key stands in the batch twice.
abbrev pub AreDistinct : List VpnKey → Type 0
AreDistinct [] = Unit
AreDistinct (key ∷ keys) = All (λ k. (key.id == k.id) ≡ false) keys × AreDistinct keys

-- For this key, the totals do not go down, and the history gains what the totals gain.
abbrev pub Balanced : ℕ → Tables → Tables → Type 0
Balanced j t t' =
    (booked_down j t'.hourly + downloaded_before (get t.stats j)
      ≡ booked_down j t.hourly + downloaded_before (get t'.stats j))
    × (booked_up j t'.hourly + uploaded_before (get t.stats j)
        ≡ booked_up j t.hourly + uploaded_before (get t'.stats j))
    × (downloaded_before (get t.stats j) ≤ downloaded_before (get t'.stats j))
    × (uploaded_before (get t.stats j) ≤ uploaded_before (get t'.stats j))

-- The rows of these keys are those that were read.
abbrev AreCurrent : Dict ℕ TrafficStats → Tables → List VpnKey → Type 0
AreCurrent current t keys = All (λ k. get current k.id ≡ get t.stats k.id) keys

module _ (current : Dict ℕ TrafficStats) (answers : Answers) (now : ℕ) where
  AreCurrent-keep :
      (id : ℕ) (t t' : Tables) (keys : List VpnKey)
      → Books id t t'
      → All (λ k. (id == k.id) ≡ false) keys
      → AreCurrent current t keys
      → AreCurrent current t' keys
  AreCurrent-keep id t t' [] b d c = tt
  AreCurrent-keep id t t' (k ∷ keys) b d c =
      (c.0 ∙ sym (b.others k.id d.0), AreCurrent-keep id t t' keys b d.1 c.1)

  refresh_from-Balanced :
      (j : ℕ) (keys : List VpnKey) (t : Tables)
      → AreDistinct keys
      → AreCurrent current t keys
      → Balanced j t (refresh_from current answers now keys t)
  unfolding refresh_from
  refresh_from-Balanced j [] t d c = (refl, refl, omega arith, omega arith)
  refresh_from-Balanced j (key ∷ keys) t d c =
      let t' = refresh_key key.key_type key (get current key.id) answers now t in
      let b : Books key.id t t' = rw c.0 (refresh_key-Books t key now answers key.key_type) in
      let rest = refresh_from-Balanced j keys t' d.1 (AreCurrent-keep key.id t t' keys b d.0 c.1) in
      (
        omega (arith, b.down j, rest),
        omega (arith, b.up j, rest),
        omega (arith, b.grows j, rest),
        omega (arith, b.grows j, rest),
      )

AreCurrent-self : (t : Tables) (keys : List VpnKey) → AreCurrent t.stats t keys
AreCurrent-self t [] = tt
AreCurrent-self t (k ∷ keys) = (refl, AreCurrent-self t keys)

-- After a refresh of any keys, each of them once, whatever the backends answer or fail at: the
-- hourly history of every key has gained exactly what its totals have, and no total went down.
pub refresh_views-Balanced :
    (answers : Answers) (now : ℕ) (keys : List VpnKey) (t : Tables) (j : ℕ)
    → AreDistinct keys
    → Balanced j t (refresh_views answers now keys t)
unfolding refresh_views
refresh_views-Balanced answers now keys t j d =
    refresh_from-Balanced t.stats answers now j keys t d (AreCurrent-self t keys)
