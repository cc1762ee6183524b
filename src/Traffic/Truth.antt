-- ===== src/Traffic/Truth.antt =====
-- The totals against the bytes that really moved (`_next_total` of services/traffic_stats.py).
use vpnbot.Prelude.{ℕ, ◌+◌, ◌≤◌, ◌≡◌, Bool, true, false, List, [], ◌∷◌, Option, none, some, arith}
use vpnbot.Traffic.Tables.{next_total}

-- The life of one direction's counter: bytes move, the backend restarts, and the bot polls.
pub data Event : Type 0 where
  move : ℕ → Event
  restart poll : Event

-- The backend's counter, the bytes moved since the key was made, and what the bot has stored.
pub record Meter : Type 0 where
  pub counter : ℕ
  pub moved : ℕ
  pub total : ℕ
  pub last_raw : Option ℕ

unfoldable pub observe : Event → Meter → Meter
unfolding next_total
observe (move n) m = record m { counter = m.counter + n; moved = m.moved + n }
observe restart m = record m { counter = 0 }
observe poll m = record m {
  total = next_total m.total m.last_raw m.counter;
  last_raw = some m.counter;
}

unfoldable pub observe_all : List Event → Meter → Meter
unfolding observe
observe_all [] m = m
observe_all (event ∷ events) m = observe_all events (observe event m)

abbrev pub unused : Meter
unused = record { counter = 0; moved = 0; total = 0; last_raw = none }

-- The next poll would not count too much.
abbrev IsCautious : Meter → Type 0
IsCautious m = next_total m.total m.last_raw m.counter ≤ m.moved

next_total-le : (t : ℕ) (raw : Option ℕ) (c : ℕ) → t ≤ next_total t raw c
unfolding next_total
next_total-le t none c = omega arith
next_total-le t (some r) c = ground arith

next_total-add :
    (t : ℕ) (raw : Option ℕ) (c n : ℕ) → next_total t raw (c + n) ≤ next_total t raw c + n
unfolding next_total
next_total-add t none c n = omega arith
next_total-add t (some r) c n = ground arith

next_total-restart : (t : ℕ) (raw : Option ℕ) → next_total t raw 0 ≡ t
unfolding next_total
next_total-restart t none = omega arith
next_total-restart t (some r) = ground arith

next_total-same : (t c : ℕ) → next_total t (some c) c ≡ t
unfolding next_total
next_total-same t c = ground arith

observe-IsCautious : (event : Event) (m : Meter) → IsCautious m → IsCautious (observe event m)
unfolding observe
observe-IsCautious (move n) m h = omega (arith, h, next_total-add m.total m.last_raw m.counter n)
observe-IsCautious restart m h =
    omega
      (arith, h, next_total-restart m.total m.last_raw, next_total-le m.total m.last_raw m.counter)
observe-IsCautious poll m h =
    omega (arith, h, next_total-same (next_total m.total m.last_raw m.counter) m.counter)

observe_all-IsCautious :
    (events : List Event) (m : Meter) → IsCautious m → IsCautious (observe_all events m)
unfolding observe_all
observe_all-IsCautious [] m h = h
observe_all-IsCautious (event ∷ events) m h =
    observe_all-IsCautious events (observe event m) (observe-IsCautious event m h)

-- Whatever moves, however often the backend restarts and whenever the bot polls: a total that
-- started with the key never exceeds the bytes that really moved.
pub observe_all-bounds :
    (events : List Event) → (observe_all events unused).total ≤ (observe_all events unused).moved
observe_all-bounds events =
    let m = observe_all events unused in
    let start : IsCautious unused = unfold next_total in omega arith in
    omega (
      arith,
      observe_all-IsCautious events unused start,
      next_total-le m.total m.last_raw m.counter,
    )

abbrev pub has_restart : List Event → Bool
has_restart [] = false
has_restart (restart ∷ events) = true
has_restart (event ∷ events) = has_restart events

-- Without a restart: the stored value is below the counter, and a poll now would be exact.
abbrev IsBelow : ℕ → Option ℕ → ℕ → Type 0
IsBelow t none c = t ≤ c
IsBelow t (some r) c = r ≤ c

abbrev IsExact : Meter → Type 0
IsExact m =
    IsBelow m.total m.last_raw m.counter × (next_total m.total m.last_raw m.counter ≡ m.moved)

next_total-exact :
    (t : ℕ) (raw : Option ℕ) (c n : ℕ)
    → IsBelow t raw c
    → IsBelow t raw (c + n) × (next_total t raw (c + n) ≡ next_total t raw c + n)
unfolding next_total
next_total-exact t none c n h = omega (arith, h)
next_total-exact t (some r) c n h = ground arith

observe_move-IsExact : (n : ℕ) (m : Meter) → IsExact m → IsExact (observe (move n) m)
unfolding observe
observe_move-IsExact n m h =
    let step = next_total-exact m.total m.last_raw m.counter n h.0 in
    (step.0, omega (arith, h.1, step.1))

observe_poll-IsExact : (m : Meter) → IsExact m → IsExact (observe poll m)
unfolding observe
observe_poll-IsExact m h = (
  omega arith,
  omega (arith, h.1, next_total-same (next_total m.total m.last_raw m.counter) m.counter),
)

observe_all-IsExact :
    (events : List Event) (m : Meter)
    → has_restart events ≡ false
    → IsExact m
    → IsExact (observe_all events m)
unfolding observe_all
observe_all-IsExact [] m e h = h
observe_all-IsExact (move n ∷ events) m e h =
    observe_all-IsExact events (observe (move n) m) e (observe_move-IsExact n m h)
observe_all-IsExact (restart ∷ events) m e h = ground arith
observe_all-IsExact (poll ∷ events) m e h =
    observe_all-IsExact events (observe poll m) e (observe_poll-IsExact m h)

-- As long as the backend does not restart, a poll makes the total exactly the bytes that moved.
pub observe_all-exact :
    (events : List Event)
    → has_restart events ≡ false
    → (observe poll (observe_all events unused)).total ≡ (observe_all events unused).moved
unfolding observe
observe_all-exact events e =
    let start : IsExact unused = unfold next_total in (omega arith, omega arith) in
    (observe_all-IsExact events unused e start).1
