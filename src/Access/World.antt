-- ===== src/Access/World.antt =====
-- The state behind the user services: the two tables, the audit log, the sessions that were
-- cleared and the clock; and the actions on it.
--
-- A table with a primary key is a dict. A stored time is what `datetime.fromisoformat` makes of
-- its text. The database does not fail here beyond its constraints, so the best-effort audit
-- writes succeed too; audit details, texts of errors, and the columns `note` and `decision_note`,
-- which no operation here reads, are left out.
use vpnbot.Prelude.{
  ℕ, ◌+◌, String, Bool, true, false, List, ◌∷◌, Option, none, some, Dict, get, nat_eq, any, ◌==◌,
  if◌then◌else◌,
}

-- An aware time is its instant; a naive one is read as UTC where it is compared.
pub data Timestamp : Type 0 where
  aware : ℕ → Timestamp
  naive : ℕ → Timestamp
  unreadable : Timestamp

pub data UserRole : Type 0 where
  superadmin moderator approved_user pending_user blocked_user : UserRole

pub data AccessRequestStatus : Type 0 where
  pending approved rejected : AccessRequestStatus

pub record User : Type 0 where
  pub telegram_user_id : ℕ
  pub username : Option String
  pub first_name : Option String
  pub role : UserRole
  pub created_at : Timestamp
  pub updated_at : Timestamp
  pub blocked_at : Option Timestamp
  pub language : Option String
  pub expiry_notifications_enabled : Bool

pub record TelegramUserProfile : Type 0 where
  pub telegram_user_id : ℕ
  pub username : Option String
  pub first_name : Option String

pub record AccessRequest : Type 0 where
  pub id : ℕ
  pub telegram_user_id : ℕ
  pub username : Option String
  pub status : AccessRequestStatus
  pub requested_at : Timestamp
  pub decided_by : Option ℕ
  pub decided_at : Option Timestamp

pub record AuditEntry : Type 0 where
  pub actor_user_id : ℕ
  pub action : String
  pub entity_id : ℕ

-- `next_request` is the id that AUTOINCREMENT gives next.
pub record Db : Type 0 where
  pub users : Dict ℕ User
  pub requests : Dict ℕ AccessRequest
  pub next_request : ℕ
  pub audit : List AuditEntry

-- `cleared` lists the calls of the state clearer, the last one first; `clock` is the sequence of
-- the clock's answers and `reads` how many were taken.
pub record World : Type 0 where
  pub db : Db
  pub cleared : List ℕ
  pub clock : ℕ → ℕ
  pub reads : ℕ

pub data Error : Type 0 where
  access_denied not_found invalid_operation integrity_error runtime_error : Error
  concurrent_modification backend_failed : Error

pub data Result (A : Type 0) : Type 0 where
  ok : A → Result A
  err : Error → Result A

abbrev pub Action : Type 0 → Type 0
Action A = World → Result A × World

abbrev pub continue : {A B : Type 0} → Result A → (A → Action B) → Action B
continue (ok a) f w = f a w
continue (err e) f w = (err e, w)

infixl 5 ◌>>=◌ ◌>>◌
abbrev pub ◌>>=◌ : {A B : Type 0} → Action A → (A → Action B) → Action B
◌>>=◌ m f w = let (r, w') = m w in continue r f w'

abbrev pub ◌>>◌ : {A B : Type 0} → Action A → Action B → Action B
m >> k = m >>= λ _. k

module _ {A : Type 0} where
  abbrev pub pure : A → Action A
  pure a w = (ok a, w)

  abbrev pub raise : Error → Action A
  raise e w = (err e, w)

  abbrev pub or_raise : Option A → Error → Action A
  or_raise none e w = (err e, w)
  or_raise (some a) e w = (ok a, w)

  abbrev pub restored : Db → Result A × World → Result A × World
  restored db (ok a, w) = (ok a, w)
  restored db (err e, w) = (err e, record w { db = db })

  -- `async with db.transaction()`: an error rolls the database back, and nothing else. A nested
  -- transaction joins the outer one; rolling back at the inner one first comes to the same.
  abbrev pub transaction : Action A → Action A
  transaction m w = restored w.db (m w)

abbrev pub raise_if : Bool → Error → Action (Unit {0})
raise_if c e w = (if c then err e else ok tt, w)

abbrev pub gets : {A : Type 0} → (World → A) → Action A
gets f w = (ok (f w), w)

abbrev pub modify_db : (Db → Db) → Action (Unit {0})
modify_db f w = (ok tt, record w { db = f w.db })

-- `self.clock.now()`
abbrev pub now : Action Timestamp
now w = (ok (aware (w.clock w.reads)), record w { reads = w.reads + 1 })

-- `clear_user_state`: what the clearer raises is swallowed.
abbrev pub clear_user_state : ℕ → Action (Unit {0})
clear_user_state id w = (ok tt, record w { cleared = id ∷ w.cleared })

-- `audit.write`
abbrev pub write_audit : ℕ → String → ℕ → Action (Unit {0})
write_audit actor action entity = modify_db λ db. record db {
  audit = record { actor_user_id = actor; action = action; entity_id = entity } ∷ db.audit;
}

abbrev pub is_superadmin : UserRole → Bool
is_superadmin superadmin = true
is_superadmin _ = false

abbrev pub is_staff : UserRole → Bool
is_staff superadmin = true
is_staff moderator = true
is_staff _ = false

abbrev pub is_moderator : UserRole → Bool
is_moderator moderator = true
is_moderator _ = false

abbrev pub is_approved : UserRole → Bool
is_approved approved_user = true
is_approved _ = false

abbrev pub is_pending : UserRole → Bool
is_pending pending_user = true
is_pending _ = false

abbrev pub is_blocked_role : UserRole → Bool
is_blocked_role blocked_user = true
is_blocked_role _ = false

-- `telegram_user_id in settings.admin_ids`
abbrev pub is_listed : List ℕ → ℕ → Bool
is_listed ids id = any (λ a. a == id) ids

-- UserRepository.get_by_id
abbrev pub find_user : ℕ → World → Option User
find_user id w = get w.db.users id
