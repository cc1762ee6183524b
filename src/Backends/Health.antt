-- ===== src/Backends/Health.antt =====
-- BackendHealth (services/backend_health.py). The labels and the texts are left out.
pub mod History
use vpnbot.Prelude.{
  ℕ, suc, String, Bool, true, false, not, ◌&&◌, ◌||◌, List, [], ◌∷◌, ◌≡◌, ◌↔◌, refl, Option, none,
  some, Eq, Dict, get, put, remove, any, is_some, arith, if◌then◌else◌,
}

-- A key type, or a type of proxy access.
pub data BackendType : Type 0 where
  xray awg hysteria2 socks5 mtproto : BackendType

abbrev pub backend_eqb : BackendType → BackendType → Bool
backend_eqb xray xray = true
backend_eqb awg awg = true
backend_eqb hysteria2 hysteria2 = true
backend_eqb socks5 socks5 = true
backend_eqb mtproto mtproto = true
backend_eqb _ _ = false

pub backend_eqb_iff : (a b : BackendType) → (backend_eqb a b ≡ true) ↔ (a ≡ b)
backend_eqb_iff a b = ground arith

instance abbrev pub backend_eq : Eq BackendType
backend_eq = record { beq = backend_eqb; beq_iff = backend_eqb_iff }

pub record BackendHealth : Type 0 where
  pub degraded : Dict BackendType String
  pub uninstalled : List BackendType
  pub skipped_revocations : ℕ

abbrev pub fresh_health : BackendHealth
fresh_health = record { degraded = []; uninstalled = []; skipped_revocations = 0 }

unfoldable pub is_uninstalled : BackendType → BackendHealth → Bool
is_uninstalled b h = any (backend_eqb b) h.uninstalled

unfoldable pub mark_degraded : BackendType → String → BackendHealth → BackendHealth
unfolding is_uninstalled
mark_degraded b reason h =
    if is_uninstalled b h then h else record h { degraded = put h.degraded b reason }

unfoldable pub mark_uninstalled : BackendType → BackendHealth → BackendHealth
unfolding is_uninstalled
mark_uninstalled b h = record h {
  degraded = remove h.degraded b;
  uninstalled = if is_uninstalled b h then h.uninstalled else b ∷ h.uninstalled;
}

unfoldable pub mark_healthy : BackendType → BackendHealth → BackendHealth
mark_healthy b h = record h { degraded = remove h.degraded b }

abbrev pub record_skipped_revocation : BackendHealth → BackendHealth
record_skipped_revocation h = record h { skipped_revocations = suc h.skipped_revocations }

-- What `require_mutation_allowed` raises, if anything.
pub data Blocked : Type 0 where
  is_gone : Blocked
  is_degraded : String → Blocked

abbrev pub blocked_by : Option String → Option Blocked
blocked_by none = none
blocked_by (some reason) = some (is_degraded reason)

unfoldable pub require_mutation_allowed : BackendType → BackendHealth → Option Blocked
unfolding is_uninstalled
require_mutation_allowed b h =
    if is_uninstalled b h then some is_gone else blocked_by (get h.degraded b)

pub record BackendHealthStatus : Type 0 where
  pub backend_type : BackendType
  pub degraded : Bool
  pub reason : Option String
  pub uninstalled : Bool

abbrev pub status_of : BackendHealth → BackendType → BackendHealthStatus
status_of h b = record {
  backend_type = b;
  degraded = is_some (get h.degraded b);
  reason = get h.degraded b;
  uninstalled = is_uninstalled b h;
}

unfoldable pub statuses : BackendHealth → List BackendType → List BackendHealthStatus
statuses h [] = []
statuses h (b ∷ bs) = status_of h b ∷ statuses h bs

unfoldable pub snapshot : BackendHealth → List BackendHealthStatus
unfolding statuses
snapshot h = statuses h (xray ∷ awg ∷ hysteria2 ∷ socks5 ∷ mtproto ∷ [])
