-- ===== src/Bot/RateLimit.antt =====
-- RateLimiter (bot/rate_limit.py): a counter for each caller and action, in fixed windows.
--
-- The monotonic clock counts milliseconds, and so do cooldowns.
pub mod Burst
use vpnbot.Prelude.{
  ℕ, ◌+◌, ◌-◌, ◌/◌, ◌≡◌, ◌↔◌, refl, String, Bool, true, false, ◌&&◌, List, Option, none, some, Eq,
  Dict, get, str_eq, eq_iff, max, ltb, leb, ◌==◌, ==_iff, arith, if◌then◌else◌,
}
use vpnbot.Bot.Ordered.{touched, trim}

-- `(user_id, action)`
pub record Caller : Type 0 where
  pub user_id : ℕ
  pub action : String

abbrev pub caller_eqb : Caller → Caller → Bool
caller_eqb a b = (a.user_id == b.user_id) && str_eq a.action b.action

pub caller_eqb_iff : (a b : Caller) → (caller_eqb a b ≡ true) ↔ (a ≡ b)
caller_eqb_iff a b = ground (arith, eq_iff a.action b.action)

instance abbrev pub caller_eq : Eq Caller
caller_eq = record { beq = caller_eqb; beq_iff = caller_eqb_iff }

-- The window's start, and the calls accepted in it.
pub record Window : Type 0 where
  pub started : ℕ
  pub used : ℕ

abbrev pub Windows : Type 0
Windows = Dict Caller Window

-- A refusal has the seconds that `RateLimitExceeded` carries.
pub data Verdict : Type 0 where
  accepted : Verdict
  exceeded : ℕ → Verdict

module _ (max_entries cooldown burst : ℕ) where
  abbrev pub allowance : ℕ
  allowance = max 1 burst

  -- A window that is over counts as none. Moved to the end, an entry is stored there; trimming
  -- follows only where a window opens.
  abbrev pub open_window : ℕ → Caller → Windows → Verdict × Windows
  open_window now key windows =
      (accepted, trim max_entries (touched windows key (record { started = now; used = 1 })))

  abbrev pub check_found : ℕ → Caller → Option Window → Windows → Verdict × Windows
  check_found now key none windows = open_window now key windows
  check_found now key (some window) windows =
      if ltb now (window.started + cooldown)
      then (if leb allowance window.used
          then (
            exceeded (max 1 ((window.started + cooldown - now) / 1000)),
            touched windows key window,
          )
          else (accepted, touched windows key (record window { used = window.used + 1 })))
      else open_window now key windows

  unfoldable pub check : ℕ → Caller → Windows → Verdict × Windows
  check now key windows = check_found now key (get windows key) windows
