-- ===== src/Keys/Expiry/Reminders/Passes.antt =====
-- The reminders of a key over many passes (services/key_expiry.py).
use vpnbot.Prelude.{ℕ, Bool, List, [], ◌∷◌, Dict, nat_eq}
use vpnbot.Access.World.{User}
use vpnbot.Keys.Store.{Store}
use vpnbot.Keys.Expiry.{Message, notify_expiring_keys}

-- One pass: what stands in its inputs.
pub record Pass : Type 0 where
  pub has_bot : Bool
  pub users : Dict ℕ User
  pub delivers : ℕ → ℕ → Bool
  pub now : ℕ

-- Passes in order, with one setting of the thresholds.
unfoldable pub run_passes : List ℕ → List Pass → Store × List Message → Store × List Message
unfolding notify_expiring_keys
run_passes notify_days [] world = world
run_passes notify_days (pass ∷ passes) world =
    let p = notify_expiring_keys pass.has_bot notify_days pass.users pass.delivers pass.now world in
    run_passes notify_days passes (p.store, p.sent)
