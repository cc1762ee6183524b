-- ===== src/Bot/RateLimit/Burst.antt =====
-- The limit that a caller meets, and the memory that the limiter takes (bot/rate_limit.py).
use vpnbot.Prelude.{
  lt→ltb, ap, ℕ, suc, ◌+◌, ◌-◌, ◌≤◌, ◌<◌, ◌≡◌, refl, Bool, true, false, List, [], ◌∷◌, Option, none,
  some, get, length, max, min, ltb, leb, ◌⊎◌, ◌∙◌, ◌&&◌, Bool-cases, Option-cases, inl, inr, arith,
  if◌then◌else◌,
}
use vpnbot.Bot.Ordered.{
  IsKeyed, touched, trim, touched-IsKeyed, trim-IsKeyed, get-touched_self, get-touched_ne,
  length-touched, trim_fits, get-trim_kept,
}
use vpnbot.Bot.RateLimit.{
  Caller, caller_eqb, caller_eqb_iff, caller_eq, Window, Windows, Verdict, accepted, exceeded,
  check,
}

abbrev pub is_accepted : Verdict → Bool
is_accepted accepted = true
is_accepted (exceeded seconds) = false

-- The specification: one caller's window on its own.
abbrev pub next_window : ℕ → ℕ → ℕ → Option Window → Bool × Window
next_window cooldown burst now none = (true, record { started = now; used = 1 })
next_window cooldown burst now (some window) =
    if ltb now (window.started + cooldown)
    then (if leb (max 1 burst) window.used
        then (false, window)
        else (true, record window { used = window.used + 1 }))
    else (true, record { started = now; used = 1 })

module _ (max_entries cooldown burst now : ℕ) (key : Caller) (windows : Windows) where
  abbrev after : Windows
  after = (check max_entries cooldown burst now key windows).1

  abbrev next : Bool × Window
  next = next_window cooldown burst now (get windows key)

  -- A call stores its caller's next window at the end, and trims only where that one is new.
  check-shape :
      (is_accepted (check max_entries cooldown burst now key windows).0 ≡ next.0)
      × (((w : Window) × (get windows key ≡ some w)
            × ((check max_entries cooldown burst now key windows).1 ≡ touched windows key next.1))
          ⊎ ((check max_entries cooldown burst now key windows).1
              ≡ trim max_entries (touched windows key next.1)))
  unfolding check
  check-shape = elim (Option-cases (get windows key)) [
    | inl e ↦ rw e (refl, inr refl)
    | inr (w, e) ↦ elim (Bool-cases (ltb now (w.started + cooldown))) [
      | inr over ↦ rw (e, over) (refl, inr refl)
      | inl inside ↦ elim (Bool-cases (leb (max 1 burst) w.used)) [
        | inl full ↦ rw (e, inside, full) (refl, inl (w, refl, refl))
        | inr free ↦ rw (e, inside, free) (refl, inl (w, refl, refl))
      ]
    ]
  ]

  check-IsKeyed : IsKeyed windows → IsKeyed after
  check-IsKeyed keyed = elim (check-shape.1) [
    | inl (w, e, s) ↦ rw s (touched-IsKeyed windows key next.1 keyed)
    | inr s ↦ rw s (
        trim-IsKeyed max_entries (touched windows key next.1)
          (touched-IsKeyed windows key next.1 keyed))
  ]

  -- A caller that was just served or refused is not trimmed away.
  get-check_self : 1 ≤ max_entries → IsKeyed windows → get after key ≡ some next.1
  get-check_self some_room keyed = elim (check-shape.1) [
    | inl (w, e, s) ↦ rw s (get-touched_self windows key next.1 keyed)
    | inr s ↦ rw s (get-trim_kept max_entries windows key next.1 some_room keyed)
  ]

  -- Where there is room, the windows of the others stay, and one is added at most.
  get-check_ne :
      (other : Caller)
      → length windows < max_entries
      → caller_eqb key other ≡ false
      → get after other ≡ get windows other
  get-check_ne other room ne =
      let fits : length (touched windows key next.1) ≤ max_entries =
        omega (arith, room, length-touched windows key next.1) in
      elim (check-shape.1) [
        | inl (w, e, s) ↦ rw s (get-touched_ne windows key other next.1 ne)
        | inr s ↦
            rw (s, trim_fits max_entries (touched windows key next.1) fits)
              (get-touched_ne windows key other next.1 ne)
      ]

  length-check_step : length windows < max_entries → length after ≤ length windows + 1
  length-check_step room =
      let grows = length-touched windows key next.1 in
      elim (check-shape.1) [
        | inl (w, e, s) ↦ rw s grows
        | inr s ↦
            rw (s, trim_fits max_entries (touched windows key next.1) omega (arith, room, grows))
              grows
      ]

-- The next window of an open window.
next_window_open :
    (cooldown burst now : ℕ) (window : Window)
    → now < window.started + cooldown
    → next_window cooldown burst now (some window) ≡ (
        if leb (max 1 burst) window.used
        then (false, window)
        else (true, record window { used = window.used + 1 }))
next_window_open cooldown burst now window h = rw (lt→ltb now (window.started + cooldown) h) refl

-- Calls in order: each with its time, its caller, and the cooldown and the burst of the action.
abbrev pub Calls : Type 0
Calls = List (ℕ × Caller × ℕ × ℕ)

abbrev pub calls_of : Caller → Calls → ℕ
calls_of caller [] = 0
calls_of caller ((now, key, cooldown, burst) ∷ calls) =
    if caller_eqb key caller then suc (calls_of caller calls) else calls_of caller calls

-- The caller's own calls have this cooldown and burst, and come before this time.
abbrev pub Within : Caller → ℕ → ℕ → ℕ → Calls → Type 0
Within caller cooldown burst end [] = Unit
Within caller cooldown burst end ((now, key, c, b) ∷ calls) =
    (caller_eqb key caller ≡ true → (c ≡ cooldown) × (b ≡ burst) × (now < end))
    × Within caller cooldown burst end calls

module _ (max_entries : ℕ) where
  -- The accepted calls of one caller, and the windows at the end.
  unfoldable pub serve : Caller → Calls → Windows → ℕ × Windows
  unfolding check
  serve caller [] windows = (0, windows)
  serve caller ((now, key, cooldown, burst) ∷ calls) windows =
      let (verdict, after) = check max_entries cooldown burst now key windows in
      let (count, last) = serve caller calls after in
      (if caller_eqb key caller && is_accepted verdict then suc count else count, last)

  -- While a caller's window is open, exactly as many of its calls are accepted as the window has
  -- left, however many it makes and whatever others do, with whatever cooldowns and bursts of
  -- theirs: as long as its own calls have one cooldown and burst and come before the window ends,
  -- the limiter has room for a new window per call, and no key stands twice.
  pub serve-burst :
      (cooldown burst : ℕ) (caller : Caller) (calls : Calls) (windows : Windows) (window : Window)
      → IsKeyed windows
      → length windows + length calls ≤ max_entries
      → get windows caller ≡ some window
      → Within caller cooldown burst (window.started + cooldown) calls
      → (serve caller calls windows).0 ≡ min (calls_of caller calls) (max 1 burst - window.used)
  unfolding serve
  serve-burst cooldown burst caller [] windows window keyed room known inside = omega arith
  serve-burst cooldown burst caller ((now, key, c, b) ∷ calls) windows window keyed room known
        inside =
      let after = (check max_entries c b now key windows).1 in
      let keyed' = check-IsKeyed max_entries c b now key windows keyed in
      let grown = length-check_step max_entries c b now key windows omega (arith, room) in
      elim (Bool-cases (caller_eqb key caller)) [
        | inr ne ↦ rw ne (
            serve-burst cooldown burst caller calls after window keyed' omega (arith, grown, room)
              (get-check_ne max_entries c b now key windows caller omega (arith, room) ne ∙ known)
              inside.1)
        | inl same ↦
            let (cool, burst_is, early) = inside.0 same in
            let at_key : get windows key ≡ some window =
              rw ((caller_eqb_iff key caller).0 same) known in
            let step : next_window c b now (get windows key) ≡ (
                if leb (max 1 burst) window.used
                then (false, window)
                else (true, record window { used = window.used + 1 })) =
              rw (at_key, cool, burst_is) (next_window_open cooldown burst now window early) in
            let self : get after caller ≡ some (next_window c b now (get windows key)).1 =
              rw (← (caller_eqb_iff key caller).0 same)
                (get-check_self max_entries c b now key windows omega (arith, room) keyed) in
            let verdict = (check-shape max_entries c b now key windows).0 in
            elim (Bool-cases (leb (max 1 burst) window.used)) [
              | inl full ↦
                  let s : next_window c b now (get windows key) ≡ (false, window) =
                    step ∙ rw full refl in
                  let ih =
                    serve-burst cooldown burst caller calls after (window) keyed' omega
                      (arith, grown, room) (self ∙ ap (λ p. some p.1) s) inside.1 in
                  let v : is_accepted (check max_entries c b now key windows).0 ≡ false =
                    verdict ∙ ap (λ p. p.0) s in
                  rw (same, v) (ground (arith, ih, full))
              | inr free ↦
                  let s : next_window c b now (get windows key)
                      ≡ (true, record window { used = window.used + 1 }) =
                    step ∙ rw free refl in
                  let ih =
                    serve-burst cooldown burst caller calls after
                      (record window { used = window.used + 1 }) keyed' omega (arith, grown, room)
                      (self ∙ ap (λ p. some p.1) s) inside.1 in
                  let v : is_accepted (check max_entries c b now key windows).0 ≡ true =
                    verdict ∙ ap (λ p. p.0) s in
                  rw (same, v) (ground (arith, ih, free))
            ]
      ]
