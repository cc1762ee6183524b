-- ===== src/Relays/Health/SameLatch.antt =====
-- The relay's latch is the tunnel's (services/relay_health.py, warp/health.py).
use vpnbot.Prelude.{◌≡◌, Bool, true, false, any, Bool-cases, inl, inr, arith}
use vpnbot.Warp.Health.{
  Config, Monitor, Input, mark_down, mark_recovered, probe, probe_ok, probe_failed,
}
use vpnbot.Warp.Health.Latch.{is_down, is_recovered}
use vpnbot.Relays.Health.{Latch, Crossing, down, recovered, latch_step}

-- The part of the tunnel's monitor that a relay has too.
abbrev pub latch_of : Monitor → Latch
latch_of m = record {
  healthy = m.healthy;
  fail_since = m.fail_since;
  success_since = m.success_since;
}

abbrev pub is_down_crossing : Crossing → Bool
is_down_crossing down = true
is_down_crossing _ = false

abbrev pub is_recovered_crossing : Crossing → Bool
is_recovered_crossing recovered = true
is_recovered_crossing _ = false

-- With the same windows, a probe moves a relay's latch exactly as it moves the tunnel monitor's
-- latch, and fires "down" and "recovered" exactly where that one does.
pub latch_step-probe :
    (c : Config) (i : Input) (m : Monitor)
    → let stepped = latch_step c.fail_window c.recover_window i.now i.ok (latch_of m) in
      (stepped.0 ≡ latch_of (probe c i m).0)
      × (is_down_crossing stepped.1 ≡ any is_down (probe c i m).1)
      × (is_recovered_crossing stepped.1 ≡ any is_recovered (probe c i m).1)
unfolding latch_step probe probe_ok probe_failed mark_down mark_recovered
latch_step-probe c i m = elim (Bool-cases i.ok) [
  | inl e ↦ rw e (ground arith)
  | inr e ↦ rw e (ground arith)
]
