-- ===== src/Warp/Health/Degraded.antt =====
-- The degraded detector (warp/health.py): what the sliding window holds, and when the alert is
-- raised.
use vpnbot.Prelude.{
  ℕ, suc, ap, ◌+◌, ◌*◌, ◌≤◌, ◌≡◌, ◌↔◌, refl, Bool, true, false, not, List, [], ◌∷◌, ◌++◌, All,
  Bool-cases, inl, inr, keep, length, any, ltb, arith,
}
use vpnbot.Warp.Health.{
  Event, degraded_at, Config, Monitor, Input, prune, failures, judge_degraded, evaluate_degraded,
}

-- Oldest first, and none after `now`.
abbrev pub IsOrdered : ℕ → List (ℕ × Bool) → Type 0
IsOrdered now [] = Unit
IsOrdered now (s ∷ samples) = All (λ k. s.0 ≤ k.0) samples × (s.0 ≤ now) × IsOrdered now samples

abbrev pub in_window : ℕ → ℕ → ℕ × Bool → Bool
in_window now window s = not (ltb (s.0 + window) now)

keep-in_window :
    (now window t : ℕ) (samples : List (ℕ × Bool))
    → ltb (t + window) now ≡ false
    → All (λ k. t ≤ k.0) samples
    → keep (in_window now window) samples ≡ samples
keep-in_window now window t [] h above = refl
keep-in_window now window t (s ∷ samples) h above =
    ground (arith, keep-in_window now window t samples h above.1)

-- With the samples in order, dropping the old ones from the front drops every old one.
prune-keep :
    (now window : ℕ) (samples : List (ℕ × Bool))
    → IsOrdered now samples
    → prune now window samples ≡ keep (in_window now window) samples
unfolding prune
prune-keep now window [] o = refl
prune-keep now window (s ∷ samples) o =
    ground (arith, prune-keep now window samples o.2, keep-in_window now window s.0 samples)

-- The probes that were lost.
abbrev pub lost_of : List (ℕ × Bool) → List (ℕ × Bool)
lost_of samples = keep (λ s. not s.1) samples

failures-lost_of : (samples : List (ℕ × Bool)) → failures samples ≡ length (lost_of samples)
unfolding failures
failures-lost_of [] = refl
failures-lost_of ((at, true) ∷ samples) = failures-lost_of samples
failures-lost_of ((at, false) ∷ samples) = ap suc (failures-lost_of samples)

abbrev pub is_raise : Event → Bool
is_raise (degraded_at lost total) = true
is_raise _ = false

judge_degraded-raise :
    (lost total : ℕ) (m : Monitor)
    → (any is_raise (judge_degraded lost total m).1 ≡ true)
      ↔ ((m.degraded ≡ false) × (m.healthy ≡ true) × (total ≤ 2 * lost))
unfolding judge_degraded
judge_degraded-raise lost total m = (λ h. ground arith, λ h. ground arith)

-- With the samples in order, the degraded alert is raised exactly if it is not raised yet, the
-- tunnel is latched up, the window holds enough probes, and at least half of those have failed.
pub degraded_raise_iff :
    (c : Config) (i : Input) (m : Monitor)
    → IsOrdered i.now (m.samples ++ (i.now, i.ok) ∷ [])
    → let recent = keep (in_window i.now c.degraded_window) (m.samples ++ (i.now, i.ok) ∷ []) in
      (any is_raise (evaluate_degraded c i m).1 ≡ true) ↔ (
        (c.degraded_min_samples ≤ length recent)
        × (m.degraded ≡ false)
        × (m.healthy ≡ true)
        × (length recent ≤ 2 * length (lost_of recent)))
unfolding evaluate_degraded
degraded_raise_iff c i m o =
    let samples = m.samples ++ (i.now, i.ok) ∷ [] in
    let recent = keep (in_window i.now c.degraded_window) samples in
    rw (prune-keep i.now c.degraded_window samples o)
      (elim (Bool-cases (ltb (length recent) c.degraded_min_samples)) [
        | inl few ↦ rw few (λ h. cc, λ h. absurd (ground arith))
        | inr many ↦
            let judged =
              judge_degraded-raise (failures recent) (length recent)
                (record m { samples = recent }) in
            rw (many, ← failures-lost_of recent)
              ((
                λ h. (ground arith, (judged.0 h).0, (judged.0 h).1, (judged.0 h).2),
                λ h. judged.1 (h.1, h.2, h.3),
              ))
      ])
