-- ===== src/Backends/Health/History.antt =====
-- A backend's state against the calls that led to it (services/backend_health.py).
use vpnbot.Prelude.{
  String, Bool, true, false, ◌||◌, List, [], ◌∷◌, ◌≡◌, ◌∙◌, sym, ap, refl, Option, none, some, Dict,
  get, put, remove, get-put_self, get-put_ne, get-remove_ne, Bool-cases, inl, inr, arith,
  if◌then◌else◌,
}
use vpnbot.Bot.Ordered.{IsKeyed, IsKeyed-remove, get-remove_self}
use vpnbot.Backends.Health.{
  BackendType, backend_eqb, backend_eqb_iff, backend_eq, BackendHealth, fresh_health,
  is_uninstalled, mark_degraded, mark_uninstalled, mark_healthy, record_skipped_revocation, is_gone,
  blocked_by, require_mutation_allowed,
}

pub data Call : Type 0 where
  degrade : BackendType → String → Call
  uninstall heal : BackendType → Call
  skip_revocation : Call

unfoldable pub perform : Call → BackendHealth → BackendHealth
unfolding mark_degraded mark_uninstalled mark_healthy
perform (degrade b reason) h = mark_degraded b reason h
perform (uninstall b) h = mark_uninstalled b h
perform (heal b) h = mark_healthy b h
perform skip_revocation h = record_skipped_revocation h

-- The last call of the list is the first one.
unfoldable pub after_calls : List Call → BackendHealth
unfolding perform
after_calls [] = fresh_health
after_calls (call ∷ calls) = perform call (after_calls calls)

-- The calls say it: a backend that was removed once is gone, and else its last report counts.
abbrev pub was_removed : BackendType → List Call → Bool
was_removed b [] = false
was_removed b (uninstall c ∷ calls) = backend_eqb b c || was_removed b calls
was_removed b (call ∷ calls) = was_removed b calls

abbrev pub last_report : BackendType → List Call → Option String
last_report b [] = none
last_report b (degrade c reason ∷ calls) =
    if backend_eqb b c then some reason else last_report b calls
last_report b (heal c ∷ calls) = if backend_eqb b c then none else last_report b calls
last_report b (call ∷ calls) = last_report b calls

is_uninstalled_lem :
    (b : BackendType) (calls : List Call)
    → is_uninstalled b (after_calls calls) ≡ was_removed b calls
unfolding after_calls is_uninstalled
is_uninstalled_lem b [] = refl
is_uninstalled_lem b (degrade c reason ∷ calls) = ground (arith, is_uninstalled_lem b calls)
is_uninstalled_lem b (uninstall c ∷ calls) =
    ground (arith, is_uninstalled_lem b calls, is_uninstalled_lem c calls, backend_eqb_iff b c)
is_uninstalled_lem b (heal c ∷ calls) = is_uninstalled_lem b calls
is_uninstalled_lem b (skip_revocation ∷ calls) = is_uninstalled_lem b calls

IsKeyed-put :
    (d : Dict BackendType String) (b : BackendType) (reason : String)
    → IsKeyed d
    → IsKeyed (put d b reason)
unfolding get put
IsKeyed-put [] b reason h = (refl, tt)
IsKeyed-put ((c, old) ∷ d) b reason h = elim (Bool-cases (backend_eqb c b)) [
  | inl e ↦ rw e h
  | inr e ↦ rw e (
    get-put_ne d b c reason (ground (arith, e, backend_eqb_iff c b, backend_eqb_iff b c)) ∙ h.0,
    IsKeyed-put d b reason h.1,
  )
]

degraded-IsKeyed : (calls : List Call) → IsKeyed (after_calls calls).degraded
unfolding after_calls
degraded-IsKeyed [] = tt
degraded-IsKeyed (degrade b reason ∷ calls) =
    elim (Bool-cases (is_uninstalled b (after_calls calls))) [
      | inl e ↦ rw e (degraded-IsKeyed calls)
      | inr e ↦ rw e (IsKeyed-put (after_calls calls).degraded b reason (degraded-IsKeyed calls))
    ]
degraded-IsKeyed (uninstall b ∷ calls) =
    IsKeyed-remove (after_calls calls).degraded b (degraded-IsKeyed calls)
degraded-IsKeyed (heal b ∷ calls) =
    IsKeyed-remove (after_calls calls).degraded b (degraded-IsKeyed calls)
degraded-IsKeyed (skip_revocation ∷ calls) = degraded-IsKeyed calls

-- Reading another backend, and reading a backend back.
get-put_backend :
    (d : Dict BackendType String) (c b : BackendType) (reason : String)
    → get (put d c reason) b ≡ (if backend_eqb b c then some reason else get d b)
get-put_backend d c b reason = elim (Bool-cases (backend_eqb b c)) [
  | inl e ↦
      let same : b ≡ c = (backend_eqb_iff b c).0 e in rw e (cc (same, get-put_self d c reason))
  | inr e ↦
      rw e (get-put_ne d c b reason (ground (arith, e, backend_eqb_iff c b, backend_eqb_iff b c)))
]

get-remove_backend :
    (d : Dict BackendType String) (c b : BackendType)
    → IsKeyed d
    → get (remove d c) b ≡ (if backend_eqb b c then none else get d b)
get-remove_backend d c b h = elim (Bool-cases (backend_eqb b c)) [
  | inl e ↦ let same : b ≡ c = (backend_eqb_iff b c).0 e in rw e (cc (same, get-remove_self d c h))
  | inr e ↦ rw e (get-remove_ne d c b (ground (arith, e, backend_eqb_iff c b, backend_eqb_iff b c)))
]

was_removed_ne :
    (b c : BackendType) (calls : List Call)
    → was_removed b calls ≡ false
    → was_removed c calls ≡ true
    → backend_eqb b c ≡ false
was_removed_ne b c calls h gone = elim (Bool-cases (backend_eqb b c)) [
  | inr e ↦ e
  | inl e ↦
      let clash : true ≡ false =
        sym gone ∙ (ap (λ x. was_removed x calls) (sym ((backend_eqb_iff b c).0 e)) ∙ h) in
      ground (arith, clash)
]

degraded-report :
    (b : BackendType) (calls : List Call)
    → was_removed b calls ≡ false
    → get (after_calls calls).degraded b ≡ last_report b calls
unfolding after_calls get
degraded-report b [] h = refl
degraded-report b (degrade c reason ∷ calls) h =
    let before = after_calls calls in
    elim (Bool-cases (is_uninstalled c before)) [
      | inr e ↦ rw e (
          get-put_backend before.degraded c b reason
          ∙ ap (λ o. if backend_eqb b c then some reason else o) (degraded-report b calls h))
      | inl e ↦
          let gone : was_removed c calls ≡ true = sym (is_uninstalled_lem c calls) ∙ e in
          let other : backend_eqb b c ≡ false = was_removed_ne b c calls h gone in
          rw (e, other) (degraded-report b calls h)
    ]
degraded-report b (uninstall c ∷ calls) h =
    get-remove_backend (after_calls calls).degraded c b (degraded-IsKeyed calls)
    ∙ ground (arith, h, degraded-report b calls)
degraded-report b (heal c ∷ calls) h =
    get-remove_backend (after_calls calls).degraded c b (degraded-IsKeyed calls)
    ∙ ap (λ o. if backend_eqb b c then none else o) (degraded-report b calls h)
degraded-report b (skip_revocation ∷ calls) h = degraded-report b calls h

-- After any calls: a backend that was ever removed is refused as gone; any other one is refused
-- with the reason of its last report, if that was of a failure, and otherwise allowed.
pub require_mutation_allowed-history :
    (b : BackendType) (calls : List Call)
    → require_mutation_allowed b (after_calls calls)
      ≡ (if was_removed b calls then some is_gone else blocked_by (last_report b calls))
unfolding require_mutation_allowed
require_mutation_allowed-history b calls = elim (Bool-cases (was_removed b calls)) [
  | inl e ↦ rw (is_uninstalled_lem b calls, e) refl
  | inr e ↦ rw (is_uninstalled_lem b calls, e, degraded-report b calls e) refl
]
