-- ===== src/Access/Users/Protection.antt =====
-- No operation on users takes a superadmin's role away (services/users.py).
use vpnbot.Prelude.{
  ℕ, String, ◌≡◌, Bool, true, false, List, [], ◌∷◌, Option, none, some, Dict, get, put, nat_eq,
  is_some, get-put, arith, if◌then◌else◌,
}
use vpnbot.Access.World.{
  Timestamp, aware, UserRole, superadmin, User, TelegramUserProfile, World, is_superadmin,
  find_user,
}
use vpnbot.Access.Users.{
  placeholder, create_admin_placeholders, bootstrap_admins, ensure_user, set_role,
  approve_access_request_user, reject_access_request_user, unblock_user, set_language,
  set_expiry_notifications,
}

abbrev pub is_super : Option User → Bool
is_super none = false
is_super (some user) = is_superadmin user.role

create_admin_placeholders-protects :
    (id : ℕ) (admin_ids : List ℕ) (at : Timestamp) (users : Dict ℕ User)
    → is_super (get users id) ≡ true
    → is_super (get (create_admin_placeholders admin_ids at users) id) ≡ true
unfolding create_admin_placeholders
create_admin_placeholders-protects id [] at users h = h
create_admin_placeholders-protects id (admin ∷ admins) at users h =
    create_admin_placeholders-protects id admins at
      (if is_some (get users admin) then users else put users admin (placeholder admin at))
      (ground (arith, h, get-put users admin id (placeholder admin at)))

pub bootstrap_admins-protects :
    (id : ℕ) (admin_ids : List ℕ) (w : World)
    → is_super (find_user id w) ≡ true
    → is_super (find_user id (bootstrap_admins admin_ids w).1) ≡ true
unfolding bootstrap_admins
bootstrap_admins-protects id admin_ids w h =
    create_admin_placeholders-protects id admin_ids (aware (w.clock w.reads)) w.db.users h

module _ (id : ℕ) (admin_ids : List ℕ) (actor target : ℕ) (w : World)
    (held : is_super (find_user id w) ≡ true) where
  pub set_role-protects :
      (role : UserRole) → is_super (find_user id (set_role admin_ids actor target role w).1) ≡ true
  unfolding set_role
  set_role-protects superadmin = grind (arith, get-put)
  set_role-protects _ = grind (arith, get-put)

  pub unblock_user-protects :
      is_super (find_user id (unblock_user admin_ids actor target w).1) ≡ true
  unfolding unblock_user
  unblock_user-protects = grind (arith, get-put)

  pub approve-protects :
      (at : Timestamp)
      → is_super (find_user id (approve_access_request_user admin_ids actor target at w).1) ≡ true
  unfolding approve_access_request_user
  approve-protects at = grind (arith, get-put)

  pub reject-protects : is_super (find_user id (reject_access_request_user actor target w).1) ≡ true
  unfolding reject_access_request_user
  reject-protects = ground arith

  pub set_language-protects :
      (language : Option String) → is_super (find_user id (set_language actor language w).1) ≡ true
  unfolding set_language
  set_language-protects language = grind (arith, get-put)

  pub set_expiry_notifications-protects :
      (enabled : Bool) → is_super (find_user id (set_expiry_notifications actor enabled w).1) ≡ true
  unfolding set_expiry_notifications
  set_expiry_notifications-protects enabled = grind (arith, get-put)

  pub ensure_user-protects :
      (profile : TelegramUserProfile)
      → is_super (find_user id (ensure_user admin_ids profile w).1) ≡ true
  unfolding ensure_user
  ensure_user-protects profile = grind (arith, get-put)
