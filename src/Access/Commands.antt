-- ===== src/Access/Commands.antt =====
-- The operations of the two services as commands, and what holds after any sequence of them.
use vpnbot.Prelude.{
  ℕ, String, ◌≡◌, refl, sym, ap, ◌∙◌, Option-cases, inl, inr, Bool, true, false, List, [], ◌∷◌,
  Option, none, some, get-put, arith,
}
use vpnbot.Access.World.{
  UserRole, User, TelegramUserProfile, World, Result, ok, err, Error, not_found, access_denied,
  is_staff, find_user,
}
use vpnbot.Access.Users.{
  bootstrap_admins, set_role, unblock_user, set_language, set_expiry_notifications,
}
use vpnbot.Access.Users.Protection.{
  is_super, bootstrap_admins-protects, set_role-protects, unblock_user-protects, approve-protects,
  reject-protects, set_language-protects, set_expiry_notifications-protects, ensure_user-protects,
}
use vpnbot.Access.Revoke.{KeyOperationError, Backend, Run}
use vpnbot.Access.Block.{
  BlockUserResult, begin_block, end_block, fresh_run, revoke_keys, revoke_proxies, finish,
  after_keys, after_begin, block_user,
}
use mathlib.Core.Option.{some-injective}
use vpnbot.Access.Requests.{create_or_get_request, approve, reject}

pub data Command : Type 0 where
  bootstrap : Command
  start : TelegramUserProfile → Command
  set_role_to : ℕ → ℕ → UserRole → Command
  -- with what the revocations of `block_user` come back with: keys, proxies and errors
  block : ℕ → ℕ → List ℕ → List ℕ → List KeyOperationError → Command
  unblock : ℕ → ℕ → Command
  approve_request : ℕ → ℕ → Command
  reject_request : ℕ → ℕ → Command
  choose_language : ℕ → Option String → Command
  choose_notifications : ℕ → Bool → Command

-- What `block_user` does after its first part, the revocations being another system's.
abbrev pub after_begun :
    ℕ → ℕ → List ℕ → List ℕ → List KeyOperationError → Result (Unit {0}) × World → World
after_begun actor target keys proxies errors (err e, w) = w
after_begun actor target keys proxies errors (ok _, w) =
    (end_block actor target keys proxies errors w).1

-- The world after a command; a command that raises leaves what it has written.
unfoldable pub perform : List ℕ → Command → World → World
perform admin_ids bootstrap w = (bootstrap_admins admin_ids w).1
perform admin_ids (start profile) w = (create_or_get_request admin_ids profile w).1
perform admin_ids (set_role_to actor target role) w = (set_role admin_ids actor target role w).1
perform admin_ids (block actor target keys proxies errors) w =
    after_begun actor target keys proxies errors (begin_block admin_ids actor target w)
perform admin_ids (unblock actor target) w = (unblock_user admin_ids actor target w).1
perform admin_ids (approve_request actor id) w = (approve admin_ids actor id w).1
perform admin_ids (reject_request actor id) w = (reject actor id w).1
perform admin_ids (choose_language actor language) w = (set_language actor language w).1
perform admin_ids (choose_notifications actor enabled) w =
    (set_expiry_notifications actor enabled w).1

unfoldable pub perform_all : List ℕ → List Command → World → World
unfolding perform
perform_all admin_ids [] w = w
perform_all admin_ids (command ∷ commands) w =
    perform_all admin_ids commands (perform admin_ids command w)

module _ (id : ℕ) (admin_ids : List ℕ) (w : World) (held : is_super (find_user id w) ≡ true) where
  create_or_get_request-protects :
      (profile : TelegramUserProfile)
      → is_super (find_user id (create_or_get_request admin_ids profile w).1) ≡ true
  unfolding create_or_get_request
  create_or_get_request-protects profile =
      ground (arith, ensure_user-protects id admin_ids 0 0 w held profile)

  approve_request-protects :
      (actor request : ℕ) → is_super (find_user id (approve admin_ids actor request w).1) ≡ true
  unfolding approve
  approve_request-protects actor request = grind (arith, approve-protects id admin_ids)

  reject_request-protects :
      (actor request : ℕ) → is_super (find_user id (reject actor request w).1) ≡ true
  unfolding reject
  reject_request-protects actor request = grind (arith, reject-protects id admin_ids)

  begin_block-protects :
      (actor target : ℕ) → is_super (find_user id (begin_block admin_ids actor target w).1) ≡ true
  unfolding begin_block
  begin_block-protects actor target = grind (arith, get-put)

end_block-users :
    (actor target : ℕ) (keys proxies : List ℕ) (errors : List KeyOperationError) (w : World)
    → (end_block actor target keys proxies errors w).1.db.users ≡ w.db.users
unfolding end_block
end_block-users actor target keys proxies errors w = ground arith

after_begun-protects :
    (id actor target : ℕ) (keys proxies : List ℕ) (errors : List KeyOperationError)
    (begun : Result (Unit {0}) × World)
    → is_super (find_user id begun.1) ≡ true
    → is_super (find_user id (after_begun actor target keys proxies errors begun)) ≡ true
after_begun-protects id actor target keys proxies errors (err e, w) h = h
after_begun-protects id actor target keys proxies errors (ok _, w) h =
    rw (end_block-users actor target keys proxies errors w) h

perform-protects :
    (id : ℕ) (admin_ids : List ℕ) (command : Command) (w : World)
    → is_super (find_user id w) ≡ true
    → is_super (find_user id (perform admin_ids command w)) ≡ true
unfolding perform
perform-protects id ids bootstrap w h = bootstrap_admins-protects id ids w h
perform-protects id ids (start profile) w h = create_or_get_request-protects id ids w h profile
perform-protects id ids (set_role_to actor target role) w h =
    set_role-protects id ids actor target w h role
perform-protects id ids (block actor target keys proxies errors) w h =
    after_begun-protects id actor target keys proxies errors (begin_block ids actor target w)
      (begin_block-protects id ids w h actor target)
perform-protects id ids (unblock actor target) w h = unblock_user-protects id ids actor target w h
perform-protects id ids (approve_request actor request) w h =
    approve_request-protects id ids w h actor request
perform-protects id ids (reject_request actor request) w h =
    reject_request-protects id ids w h actor request
perform-protects id ids (choose_language actor language) w h =
    set_language-protects id ids actor 0 w h language
perform-protects id ids (choose_notifications actor enabled) w h =
    set_expiry_notifications-protects id ids actor 0 w h enabled

-- Whoever is a superadmin stays one, whatever commands of the two services anybody gives, blocks
-- included, and whatever their revocations come back with.
pub perform_all-protects :
    (id : ℕ) (admin_ids : List ℕ) (commands : List Command) (w : World)
    → is_super (find_user id w) ≡ true
    → is_super (find_user id (perform_all admin_ids commands w)) ≡ true
unfolding perform_all
perform_all-protects id ids [] w h = h
perform_all-protects id ids (command ∷ commands) w h =
    perform_all-protects id ids commands (perform ids command w)
      (perform-protects id ids command w h)

-- The actor of a command that is for moderators and superadmins.
abbrev pub staff_actor : Command → Option ℕ
staff_actor (set_role_to actor target role) = some actor
staff_actor (block actor target keys proxies errors) = some actor
staff_actor (unblock actor target) = some actor
staff_actor (approve_request actor id) = some actor
staff_actor (reject_request actor id) = some actor
staff_actor _ = none

abbrev pub is_staff_user : Option User → Bool
is_staff_user none = false
is_staff_user (some user) = is_staff user.role

begin_block-unauthorised :
    (admin_ids : List ℕ) (actor target : ℕ) (w : World)
    → is_staff_user (find_user actor w) ≡ false
    → (e : Error) × (begin_block admin_ids actor target w ≡ (err e, w))
unfolding begin_block
begin_block-unauthorised ids actor target w h = elim (Option-cases (find_user actor w)) [
  | inl unknown ↦ (not_found, ground (arith, unknown))
  | inr (user, known) ↦
      let low : is_staff user.role ≡ false = sym (ap is_staff_user known) ∙ h in
      (access_denied, ground (arith, known, low))
]

-- A staff command of anybody else, known to the bot or not, changes nothing at all.
pub perform-unauthorised :
    (admin_ids : List ℕ) (command : Command) (actor : ℕ) (w : World)
    → staff_actor command ≡ some actor
    → is_staff_user (find_user actor w) ≡ false
    → perform admin_ids command w ≡ w
unfolding perform set_role unblock_user approve reject
perform-unauthorised ids bootstrap actor w e h = cc
perform-unauthorised ids (start profile) actor w e h = cc
perform-unauthorised ids (set_role_to a target role) actor w e h = ground arith
perform-unauthorised ids (block a target keys proxies errors) actor w e h =
    rw (begin_block-unauthorised ids a target w (rw (some-injective _ _ e) h)).1 refl
perform-unauthorised ids (unblock a target) actor w e h = ground arith
perform-unauthorised ids (approve_request a id) actor w e h = ground arith
perform-unauthorised ids (reject_request a id) actor w e h = ground arith
perform-unauthorised ids (choose_language a language) actor w e h = cc
perform-unauthorised ids (choose_notifications a enabled) actor w e h = cc

module _ {S : Type 0} (ids : List ℕ) (actor target : ℕ) where
  -- A call that ends does to the bot's tables what the command does, with the answers of some
  -- revocations.
  abbrev Performs : Result (Unit {0}) × World → Option (Result BlockUserResult × World × S) → Type 0
  Performs begun none = Unit
  Performs begun (some (answer, w, s)) =
      (keys : List ℕ) × (proxies : List ℕ) × (errors : List KeyOperationError) × (w
        ≡ after_begun actor target keys proxies errors begun)

  finish-Performs :
      (keys : List ℕ) (w : World) (run : Option (Run S))
      → Performs (ok tt, w) (finish actor target keys w run)
  unfolding finish
  finish-Performs keys w none = tt
  finish-Performs keys w (some run) = (keys, run.revoked, run.errors, refl)

  after_keys-Performs :
      (proxies : Option (Backend S)) (fuel : ℕ) (w : World) (run : Option (Run S))
      → Performs (ok tt, w) (after_keys proxies fuel actor target w run)
  unfolding after_keys
  after_keys-Performs proxies fuel w none = tt
  after_keys-Performs proxies fuel w (some run) =
      finish-Performs run.revoked w (revoke_proxies proxies fuel run)

  after_begin-Performs :
      (keys proxies : Option (Backend S)) (fuel : ℕ) (revoke : Bool) (s : S)
      (begun : Result (Unit {0}) × World)
      → Performs begun (after_begin keys proxies fuel actor target revoke s begun)
  unfolding after_begin
  after_begin-Performs keys proxies fuel revoke s (err e, w) = ([], [], [], refl)
  after_begin-Performs keys proxies fuel true s (ok _, w) =
      after_keys-Performs proxies fuel w (revoke_keys keys fuel s)
  after_begin-Performs keys proxies fuel false s (ok _, w) =
      finish-Performs [] w (some (fresh_run s []))

  -- What a call of `block_user` that ends leaves of the bot's tables is what the command leaves.
  block_user-perform :
      (keys proxies : Option (Backend S)) (fuel : ℕ) (revoke : Bool) (w : World) (s : S)
      → Performs
          (begin_block ids actor target w)
          (block_user ids keys proxies fuel actor target revoke w s)
  unfolding block_user
  block_user-perform keys proxies fuel revoke w s =
      after_begin-Performs keys proxies fuel revoke s (begin_block ids actor target w)
