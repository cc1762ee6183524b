-- ===== src/Relays/Health/Isolation.antt =====
-- One relay's latch is its own (services/relay_health.py).
use vpnbot.Prelude.{
  ℕ, ◌≡◌, refl, ◌∙◌, sym, false, List, [], ◌∷◌, Option, none, some, Dict, get, get-put, nat_eq,
  or_default, ◌==◌, ==_iff, Bool-cases, inl, inr, arith, if◌then◌else◌,
}
use vpnbot.Keys.Relay.{RelayRow}
use vpnbot.Relays.Health.{
  Latch, fresh_latch, outcome, latch_step, Supervisor, Reading, check_relay, check_relays, has_id,
  keep_ids, by_id, enabled, check_once,
}

-- The primary key: no id twice.
abbrev pub HasDistinctIds : List RelayRow → Type 0
HasDistinctIds [] = Unit
HasDistinctIds (relay ∷ relays) = (has_id relay.id relays ≡ false) × HasDistinctIds relays

get-keep_ids :
    {V : Type 0} (relays : List RelayRow) (d : Dict ℕ V) (id : ℕ)
    → get (keep_ids relays d) id ≡ (if has_id id relays then get d id else none)
unfolding get keep_ids
get-keep_ids relays [] id = ground arith
get-keep_ids relays ((j, v) ∷ d) id = ground (arith, get-keep_ids relays d id, ==_iff j id)

has_id-enabled :
    (id : ℕ) (relays : List RelayRow)
    → has_id id relays ≡ false
    → has_id id (enabled relays) ≡ false
has_id-enabled id [] h = refl
has_id-enabled id (relay ∷ relays) h = ground (arith, has_id-enabled id relays)

enabled-HasDistinctIds :
    (relays : List RelayRow) → HasDistinctIds relays → HasDistinctIds (enabled relays)
enabled-HasDistinctIds [] d = d
enabled-HasDistinctIds (relay ∷ relays) d = elim (Bool-cases relay.enabled) [
  | inl on ↦ simp (on) (has_id-enabled relay.id relays d.0, enabled-HasDistinctIds relays d.1)
  | inr off ↦ simp (off) (enabled-HasDistinctIds relays d.1)
]

module _ (window : ℕ) (readings : RelayRow → Reading) where
  check_relay-monitors :
      (relay : RelayRow) (s : Supervisor) (id : ℕ)
      → get (check_relay window relay (readings relay) s).monitors id ≡ (
          if relay.id == id
          then some
              (latch_step window window
                (readings relay).now
                (outcome (readings relay).answer)
                (or_default (get s.monitors relay.id) fresh_latch)).0
          else get s.monitors id)
  unfolding check_relay
  check_relay-monitors relay s id = get-put s.monitors relay.id id _

  check_relays-other :
      (relays : List RelayRow) (s : Supervisor) (id : ℕ)
      → has_id id relays ≡ false
      → get (check_relays window readings relays s).monitors id ≡ get s.monitors id
  unfolding check_relays
  check_relays-other [] s id h = refl
  check_relays-other (relay ∷ relays) s id h = ground (
    arith,
    check_relay-monitors relay s id,
    check_relays-other relays (check_relay window relay (readings relay) s) id,
  )

  -- The latch that a relay of the pass gets.
  abbrev pub own_step : RelayRow → Option Latch → Latch
  own_step relay latch =
      (latch_step window window (readings relay).now (outcome (readings relay).answer)
        (or_default latch fresh_latch)).0

  abbrev pub own_monitor : ℕ → List RelayRow → Option Latch → Option Latch
  own_monitor id [] latch = none
  own_monitor id (relay ∷ relays) latch =
      if relay.id == id then some (own_step relay latch) else own_monitor id relays latch

  own_monitor-absent :
      (relays : List RelayRow) (id : ℕ) (latch : Option Latch)
      → has_id id relays ≡ false
      → own_monitor id relays latch ≡ none
  own_monitor-absent [] id latch h = refl
  own_monitor-absent (relay ∷ relays) id latch h =
      ground (arith, own_monitor-absent relays id latch)

  check_relays-monitors :
      (relays : List RelayRow) (s : Supervisor) (id : ℕ)
      → HasDistinctIds relays
      → get (check_relays window readings relays s).monitors id ≡ (
          if has_id id relays then own_monitor id relays (get s.monitors id) else get s.monitors id)
  unfolding check_relays
  check_relays-monitors [] s id d = refl
  check_relays-monitors (relay ∷ relays) s id d =
      let s' = check_relay window relay (readings relay) s in
      elim (Bool-cases (relay.id == id)) [
        | inl same ↦
            let e : relay.id ≡ id = (==_iff relay.id id).0 same in
            let gone : has_id id relays ≡ false = rw (← e) d.0 in
            check_relays-other relays s' id gone
            ∙ (check_relay-monitors relay s id ∙ simp (e, (==_iff id id).1 refl) refl)
        | inr other ↦
            let kept : get s'.monitors id ≡ get s.monitors id =
              check_relay-monitors relay s id ∙ rw other refl in
            simp (other) (check_relays-monitors relays s' id d.1 ∙ simp (kept) refl)
      ]

  -- After a pass, the latch of a relay that is switched on is the step of its own latch, or of a
  -- fresh one, by its own probe, and a relay that is switched off or gone has none. No other
  -- relay's state or probe has a part in it. No two relays have one id.
  pub check_once-own :
      (relays : List RelayRow) (s : Supervisor) (id : ℕ)
      → HasDistinctIds relays
      → get (check_once window readings relays s).monitors id
        ≡ own_monitor id (enabled relays) (get s.monitors id)
  unfolding check_once
  check_once-own relays s id d =
      let kept = enabled relays in
      let reset : Supervisor = record s {
        current = by_id relays;
        monitors = keep_ids kept s.monitors;
        last = keep_ids relays s.last;
      } in
      check_relays-monitors kept reset id (enabled-HasDistinctIds relays d)
      ∙ elim (Bool-cases (has_id id kept)) [
        | inl here ↦ simp (here, get-keep_ids kept s.monitors id) refl
        | inr gone ↦
            simp (gone, get-keep_ids kept s.monitors id)
              (sym (own_monitor-absent kept id (get s.monitors id) gone))
      ]
