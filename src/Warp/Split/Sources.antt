-- ===== src/Warp/Split/Sources.antt =====
-- The rules for a new source: `validate_source_relations` (warp/split_merge.py).
use vpnbot.Prelude.{
  String, ◌≡◌, ◌≢◌, ◌⊎◌, ◌↔◌, Bool-cases, inl, inr, refl, not, ◌||◌, Option, none, some, Dict, get,
  str_eq, string_eq, eq_iff, sym, ◌∙◌, false≢true, if◌then◌else◌, arith,
}

-- The reasons of the `ValueError`s, in the order of the tests.
pub data SourceError : Type 0 where
  unknown_mode scope_of_add self_scope unknown_scope chained_scope : SourceError

-- `raise` or plain return.
pub data Verdict : Type 0 where
  accepted : Verdict
  rejected : SourceError → Verdict

unfoldable pub check_target : Option String → Verdict
check_target none = rejected unknown_scope
check_target (some mode) = if str_eq mode "subtract" then rejected chained_scope else accepted

unfoldable pub check_scope : String → Option String → Dict String String → Verdict
unfolding check_target get
check_scope slug none existing_modes = accepted
check_scope slug (some scope) existing_modes =
    if str_eq scope slug then rejected self_scope else check_target (get existing_modes scope)

unfoldable pub check_add : Option String → Verdict
check_add none = accepted
check_add (some scope) = rejected scope_of_add

unfoldable pub validate_source_relations :
    String → String → Option String → Dict String String → Verdict
unfolding check_scope check_add
validate_source_relations slug mode scope_slug existing_modes =
    if not (str_eq mode "add" || str_eq mode "subtract")
    then rejected unknown_mode
    else if str_eq mode "add"
    then check_add scope_slug
    else check_scope slug scope_slug existing_modes

-- A source may be stored: it adds and has no scope, or it subtracts, from the whole list or from
-- another source that is known and does not itself subtract.
abbrev MayScope : String → Option String → Dict String String → Type 0
MayScope slug none existing_modes = Unit
MayScope slug (some scope) existing_modes =
    (scope ≢ slug)
    × ((target_mode : String) × (get existing_modes scope ≡ some target_mode)
        × (target_mode ≢ "subtract"))

abbrev pub MayStore : String → String → Option String → Dict String String → Type 0
MayStore slug mode scope_slug existing_modes =
    ((mode ≡ "add") × (scope_slug ≡ none))
    ⊎ ((mode ≡ "subtract") × MayScope slug scope_slug existing_modes)

add_ne_subtract : ◌≢◌ {A = String} "add" "subtract"
add_ne_subtract = ground (arith, eq_iff "add" "subtract")

check_target_lem :
    (target : Option String)
    → (check_target target ≡ accepted)
      ↔ ((mode : String) × (target ≡ some mode) × (mode ≢ "subtract"))
unfolding check_target
check_target_lem none = (λ h. cc, λ h. cc (h.1))
check_target_lem (some mode) = (
  λ h. (mode, refl, λ e. ground (arith, eq_iff mode "subtract")),
  λ h. ground (arith, eq_iff mode "subtract", h.1, h.2),
)

check_scope_lem :
    (slug : String) (scope : Option String) (existing_modes : Dict String String)
    → (check_scope slug scope existing_modes ≡ accepted) ↔ MayScope slug scope existing_modes
unfolding check_scope
check_scope_lem slug none existing_modes = (λ h. tt, λ h. refl)
check_scope_lem slug (some scope) existing_modes = elim (Bool-cases (str_eq scope slug)) [
  | inl self ↦ (λ h. cc (rw self at h), λ h. absurd (h.0 ((eq_iff scope slug).0 self)))
  | inr other ↦ (
    λ h. (
      λ e. cc (other, (eq_iff scope slug).1 e),
      (check_target_lem (get existing_modes scope)).0 (rw other at h),
    ),
    λ h. rw other ((check_target_lem (get existing_modes scope)).1 h.1),
  )
]

check_add_lem : (scope : Option String) → (check_add scope ≡ accepted) ↔ (scope ≡ none)
unfolding check_add
check_add_lem none = (λ h. refl, λ h. refl)
check_add_lem (some scope) = (λ h. cc, λ h. cc)

-- A new source is accepted exactly if it may be stored; every other one is refused with an error.
pub validate_source_relations_lem :
    (slug mode : String) (scope_slug : Option String) (existing_modes : Dict String String)
    → (validate_source_relations slug mode scope_slug existing_modes ≡ accepted)
      ↔ MayStore slug mode scope_slug existing_modes
unfolding validate_source_relations
validate_source_relations_lem slug mode scope_slug existing_modes =
    elim (Bool-cases (str_eq mode "add")) [
      | inl adds ↦
          let is_add : mode ≡ "add" = (eq_iff mode "add").0 adds in
          rw adds (
            (
              λ h. inl (is_add, (check_add_lem scope_slug).0 h),
              λ m. elim m [
                | inl (e, n) ↦ (check_add_lem scope_slug).1 n
                | inr (e, n) ↦ absurd (add_ne_subtract (cc (e, is_add)))
              ],
            ))
      | inr not_add ↦ elim (Bool-cases (str_eq mode "subtract")) [
        | inl subtracts ↦
            rw (not_add, subtracts)
              ((
                λ h. inr (
                  (eq_iff mode "subtract").0 subtracts,
                  (check_scope_lem slug scope_slug existing_modes).0 h,
                ),
                λ m. elim m [
                  | inl (e, n) ↦ absurd (false≢true (sym not_add ∙ (eq_iff mode "add").1 e))
                  | inr (e, n) ↦ (check_scope_lem slug scope_slug existing_modes).1 n
                ],
              ))
        | inr neither ↦
            rw (not_add, neither)
              ((
                λ h. cc,
                λ m. elim m [
                  | inl (e, n) ↦ absurd (false≢true (sym not_add ∙ (eq_iff mode "add").1 e))
                  | inr (e, n) ↦ absurd (false≢true (sym neither ∙ (eq_iff mode "subtract").1 e))
                ],
              ))
      ]
    ]
