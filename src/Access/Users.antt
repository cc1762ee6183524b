-- ===== src/Access/Users.antt =====
-- `is_blocked_user` (models/access.py), the writes of UserRepository (repositories/users.py), and
-- the methods of UserService (services/users.py) but for blocking, which is in Access.Block, and the listings.
pub mod Protection
use vpnbot.Prelude.{
  ℕ, String, Bool, true, false, not, ◌&&◌, ◌||◌, List, [], ◌∷◌, Option, none, some, Dict, get, put,
  nat_eq, is_some, ltb, ◌==◌, str_eq, if◌then◌else◌,
}
use vpnbot.Access.World.{
  Timestamp, aware, naive, unreadable, UserRole, superadmin, moderator, approved_user, pending_user,
  blocked_user, User, TelegramUserProfile, World, Error, access_denied, not_found,
  invalid_operation, Action, ◌>>=◌, ◌>>◌, pure, raise, or_raise, transaction, raise_if, gets,
  modify_db, now, clear_user_state, write_audit, is_superadmin, is_staff, is_moderator, is_approved,
  is_pending, is_blocked_role, is_listed, find_user,
}

unfoldable pub is_blocked_user : User → Bool
is_blocked_user user =
    if is_superadmin user.role then false else is_blocked_role user.role || is_some user.blocked_at

abbrev pub store_user : User → Action (Unit {0})
store_user user = modify_db λ db. record db { users = put db.users user.telegram_user_id user }

abbrev pub upserted : TelegramUserProfile → UserRole → Timestamp → Option User → User
upserted profile role at none = record {
  telegram_user_id = profile.telegram_user_id;
  username = profile.username;
  first_name = profile.first_name;
  role = role;
  created_at = at;
  updated_at = at;
  blocked_at = none;
  language = none;
  expiry_notifications_enabled = true;
}
upserted profile role at (some user) = record user {
  telegram_user_id = profile.telegram_user_id;
  username = profile.username;
  first_name = profile.first_name;
  updated_at = at;
}

-- The row is new with this role, or it keeps its own.
unfoldable pub upsert_profile : TelegramUserProfile → UserRole → Timestamp → Action User
upsert_profile profile role at = do
  existing ← gets (find_user profile.telegram_user_id)
  store_user (upserted profile role at existing)
  pure (upserted profile role at existing)

-- UPDATE ... WHERE telegram_user_id = ?, with NotFound if no row was changed.
unfoldable pub update_user : ℕ → (User → User) → Action (Unit {0})
update_user id change = do
  found ← gets (find_user id)
  user ← or_raise found not_found
  modify_db λ db. record db { users = put db.users id (change user) }

-- UserRepository.set_role
unfoldable pub write_role : ℕ → UserRole → Timestamp → Option Timestamp → Action (Unit {0})
unfolding update_user
write_role id role at blocked_at =
    update_user id λ user. record user { role = role; updated_at = at; blocked_at = blocked_at }

unfoldable pub get_user : ℕ → Action User
get_user id = do found ← gets (find_user id); or_raise found not_found

abbrev pub role_for : List ℕ → TelegramUserProfile → Option User → UserRole
role_for admin_ids profile none =
    if is_listed admin_ids profile.telegram_user_id then superadmin else pending_user
role_for admin_ids profile (some existing) =
    if is_listed admin_ids profile.telegram_user_id then superadmin else existing.role

-- `create_admin_placeholders`: INSERT OR IGNORE, so a row that is there stays.
abbrev pub placeholder : ℕ → Timestamp → User
placeholder id at =
    upserted (record { telegram_user_id = id; username = none; first_name = none }) superadmin at
      none

unfoldable pub create_admin_placeholders : List ℕ → Timestamp → Dict ℕ User → Dict ℕ User
create_admin_placeholders [] at users = users
create_admin_placeholders (id ∷ ids) at users =
    create_admin_placeholders ids at
      (if is_some (get users id) then users else put users id (placeholder id at))

unfoldable pub bootstrap_admins : List ℕ → Action (Unit {0})
bootstrap_admins admin_ids = do
  at ← now
  modify_db λ db. record db { users = create_admin_placeholders admin_ids at db.users }

unfoldable pub ensure_user : List ℕ → TelegramUserProfile → Action User
unfolding upsert_profile write_role get_user
ensure_user admin_ids profile = do
  existing ← gets (find_user profile.telegram_user_id)
  at ← now
  user ← upsert_profile profile (role_for admin_ids profile existing) at
  if not (is_listed admin_ids profile.telegram_user_id && not (is_superadmin user.role))
      then pure user
      else do
        promoted_at ← now
        write_role profile.telegram_user_id superadmin promoted_at none
        get_user profile.telegram_user_id

unfoldable pub require_superadmin : ℕ → Action User
unfolding get_user
require_superadmin actor = do
  user ← get_user actor
  raise_if (not (is_superadmin user.role)) access_denied
  pure user

unfoldable pub require_moderator_or_admin : ℕ → Action User
unfolding get_user
require_moderator_or_admin actor = do
  user ← get_user actor
  raise_if (not (is_staff user.role)) access_denied
  pure user

unfoldable pub require_approved_or_admin : ℕ → Action User
unfolding get_user is_blocked_user
require_approved_or_admin actor = do
  user ← get_user actor
  raise_if (not (is_staff user.role) && is_blocked_user user) access_denied
  raise_if (not (is_staff user.role) && not (is_approved user.role)) access_denied
  pure user

unfoldable pub can_manage_owner : ℕ → ℕ → Action Bool
unfolding get_user
can_manage_owner actor owner = do
  user ← get_user actor
  pure (is_superadmin user.role || actor == owner)

abbrev is_supported : Option String → Bool
is_supported none = true
is_supported (some language) = str_eq language "ru" || str_eq language "en"

unfoldable pub set_language : ℕ → Option String → Action User
unfolding require_approved_or_admin update_user get_user
set_language actor language = do
  require_approved_or_admin actor
  raise_if (not (is_supported language)) invalid_operation
  at ← now
  update_user actor (λ user. record user { language = language; updated_at = at })
  get_user actor

unfoldable pub set_expiry_notifications : ℕ → Bool → Action User
unfolding require_approved_or_admin update_user get_user
set_expiry_notifications actor enabled = do
  require_approved_or_admin actor
  at ← now
  update_user actor
      (λ user. record user { expiry_notifications_enabled = enabled; updated_at = at })
  get_user actor

unfoldable pub set_role : List ℕ → ℕ → ℕ → UserRole → Action (Unit {0})
unfolding require_superadmin get_user write_role is_blocked_user
set_role admin_ids actor target role = do
  require_superadmin actor
  raise_if (is_blocked_role role) invalid_operation
  raise_if (is_listed admin_ids target && not (is_superadmin role)) invalid_operation
  current ← get_user target
  raise_if (is_superadmin current.role && not (is_superadmin role)) invalid_operation
  transaction do
    at ← now
    write_role target role at none
    write_audit actor
        (if is_approved role && is_blocked_user current
          then "user_unblocked"
          else "user_role_changed")
        target
  if is_approved role || is_pending role then clear_user_state target else pure tt

-- The instant, with a naive time read as UTC.
abbrev pub instant : Timestamp → Option ℕ
instant (aware n) = some n
instant (naive n) = some n
instant unreadable = none

abbrev later : Option ℕ → Option ℕ → Bool
later (some requested) (some blocked) = ltb blocked requested
later _ _ = false

-- `_request_is_after_block`
unfoldable pub request_is_after_block : Option Timestamp → Timestamp → Bool
request_is_after_block none requested_at = false
request_is_after_block (some blocked_at) requested_at =
    later (instant requested_at) (instant blocked_at)

unfoldable pub approve_access_request_user :
    List ℕ → ℕ → ℕ → Timestamp → Action (User × Bool × Bool)
unfolding require_moderator_or_admin get_user write_role is_blocked_user request_is_after_block
approve_access_request_user admin_ids actor target requested_at = do
  require_moderator_or_admin actor
  current ← get_user target
  if is_listed admin_ids target || is_superadmin current.role
      then pure (current, false, false)
      else do
        let repeat_after_block = is_blocked_user current
        raise_if
            (repeat_after_block && not (request_is_after_block current.blocked_at requested_at))
            invalid_operation
        if is_approved current.role && not repeat_after_block || is_moderator current.role
            then pure (current, false, false)
            else do
              raise_if
                  (not (
                    is_pending current.role
                    || is_approved current.role
                    || is_blocked_role current.role))
                  invalid_operation
              at ← now
              write_role target approved_user at none
              clear_user_state target
              user ← get_user target
              pure (user, true, repeat_after_block)

abbrev decline : Option User → Action (Option User × Bool)
decline none = pure (none, false)
decline (some user) =
    if is_staff user.role || is_approved user.role || is_blocked_user user
    then pure (some user, false)
    else if not (is_pending user.role)
    then raise invalid_operation
    else pure (some user, false)

unfoldable pub reject_access_request_user : ℕ → ℕ → Action (Option User × Bool)
unfolding require_moderator_or_admin is_blocked_user
reject_access_request_user actor target = do
  require_moderator_or_admin actor
  found ← gets (find_user target)
  decline found

unfoldable pub unblock_user : List ℕ → ℕ → ℕ → Action User
unfolding require_moderator_or_admin get_user write_role
unblock_user admin_ids actor target = do
  require_moderator_or_admin actor
  raise_if (is_listed admin_ids target) invalid_operation
  user ← get_user target
  raise_if (is_superadmin user.role) invalid_operation
  transaction do
    at ← now
    write_role target approved_user at none
    write_audit actor "user_unblocked" target
  clear_user_state target
  get_user target
