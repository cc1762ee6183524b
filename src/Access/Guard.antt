-- ===== src/Access/Guard.antt =====
-- Blocking a user closes the access and ends (services/users.py).
use vpnbot.Prelude.{
  ℕ, ◌<◌, ◌≡◌, refl, Bool, true, false, ◌&&◌, List, [], Option, none, some, get-put, nat_eq, length,
  All, arith,
}
use vpnbot.Access.World.{
  aware, blocked_user, User, World, access_denied, Result, ok, err, is_superadmin, is_moderator,
  is_staff, is_listed, find_user,
}
use vpnbot.Access.Users.{is_blocked_user, require_approved_or_admin}
use vpnbot.Access.Revoke.{Backend, Run, mem}
use vpnbot.Access.Revoke.Complete.{left-length, revoke_all-Complete}
use vpnbot.Access.Block.{
  BlockUserResult, begin_block, end_block, fresh_run, revoke_keys, revoke_proxies, finish,
  after_keys, after_begin, block_user,
}

-- Every id that a wired backend ever lists is among `ids`, and the fuel is larger than their number.
abbrev pub Bounded : {S : Type 0} → Option (Backend S) → List ℕ → Type 0
Bounded none ids = Unit
Bounded {S} (some backend) ids = (s : S) → All (λ t. mem t.id ids ≡ true) (backend.listing s)

-- The user is in the bot's table as blocked, and passes for a blocked user.
abbrev pub IsBlocked : {S : Type 0} → ℕ → Option (Result BlockUserResult × World × S) → Type 0
IsBlocked {S} target result =
    (answer : BlockUserResult) × (w : World) × (s : S) × (result ≡ some (ok answer, w, s))
    × (find_user target w ≡ some answer.user)
    × (is_blocked_user answer.user ≡ true)
    × ((require_approved_or_admin target w).0 ≡ err access_denied)

module _ {S : Type 0} (ids : List ℕ) (fuel : ℕ) (enough : length ids < fuel) where
  revoke_keys-ends :
      (keys : Option (Backend S)) (s : S)
      → Bounded keys ids
      → (run : Run S) × (revoke_keys keys fuel s ≡ some run)
  unfolding revoke_keys
  revoke_keys-ends none s h = (_, refl)
  revoke_keys-ends (some keys) s h =
      let (run, e, _) =
        revoke_all-Complete keys ids h fuel (fresh_run s []) (λ i f. ground arith) omega
          (arith, left-length (fresh_run s []) ids) in
      (run, e)

  revoke_proxies-ends :
      (proxies : Option (Backend S)) (before : Run S)
      → Bounded proxies ids
      → (run : Run S) × (revoke_proxies proxies fuel before ≡ some run)
  unfolding revoke_proxies
  revoke_proxies-ends none before h = (_, refl)
  revoke_proxies-ends (some proxies) before h =
      let start = fresh_run before.state before.errors in
      let (run, e, _) =
        revoke_all-Complete proxies ids h fuel start (λ i f. ground arith) omega
          (arith, left-length start ids) in
      (run, e)

abbrev blocked : User → World → User
blocked target w = record target {
  role = blocked_user;
  updated_at = aware (w.clock w.reads);
  blocked_at = some (aware (w.clock w.reads));
}

module _ (admin_ids : List ℕ) (actor_id target_id : ℕ) (actor target : User) (w : World) where
  begin_block-blocks :
      find_user actor_id w ≡ some actor
      → is_staff actor.role ≡ true
      → is_listed admin_ids target_id ≡ false
      → find_user target_id w ≡ some target
      → is_superadmin target.role ≡ false
      → (is_moderator actor.role && is_moderator target.role) ≡ false
      → ((begin_block admin_ids actor_id target_id w).0 ≡ ok tt)
        × (find_user target_id (begin_block admin_ids actor_id target_id w).1
            ≡ some (blocked target w))
  unfolding begin_block
  begin_block-blocks found staff listed known plain peers = grind (arith, get-put)

module _ {S : Type 0} (actor_id target_id : ℕ) (user : User) (w : World)
    (known : find_user target_id w ≡ some user) (role : user.role ≡ blocked_user) where
  finish-blocks :
      (keys : List ℕ) (run : Run S)
      → IsBlocked target_id (finish actor_id target_id keys w (some run))
  unfolding finish end_block is_blocked_user require_approved_or_admin
  finish-blocks keys run = (
    record {
      user = user;
      revoked_key_ids = keys;
      errors = run.errors;
      revoked_proxy_ids = run.revoked;
    },
    (end_block actor_id target_id keys run.revoked run.errors w).1,
    run.state,
    ground arith,
    ground arith,
    ground arith,
    ground arith,
  )

  after_begin-blocks :
      (ids : List ℕ) (fuel : ℕ)
      → length ids < fuel
      → (keys proxies : Option (Backend S)) → Bounded keys ids
      → Bounded proxies ids
      → (revoke : Bool) (s : S)
      → IsBlocked target_id (after_begin keys proxies fuel actor_id target_id revoke s (ok tt, w))
  unfolding after_begin after_keys
  after_begin-blocks ids fuel enough keys proxies hk hp false s = finish-blocks [] (fresh_run s [])
  after_begin-blocks ids fuel enough keys proxies hk hp true s =
      let (run, e) = revoke_keys-ends ids fuel enough keys s hk in
      let (run', e') = revoke_proxies-ends ids fuel enough proxies run hp in
      rw (e, e') (finish-blocks run.revoked run')

module _ {S : Type 0} (admin_ids : List ℕ) (actor_id target_id : ℕ) (actor target : User)
    (w : World) where
  -- A moderator or superadmin may block a known user who is neither in ADMIN_IDS nor a superadmin,
  -- nor a moderator where the actor is one. Then the call ends, if the fuel is larger than the
  -- number of the ids that the wired backends list; it returns, whatever the backends fail at;
  -- the user is stored as blocked, and is refused with AccessDenied from there on.
  pub block_user-blocks :
      find_user actor_id w ≡ some actor
      → is_staff actor.role ≡ true
      → is_listed admin_ids target_id ≡ false
      → find_user target_id w ≡ some target
      → is_superadmin target.role ≡ false
      → (is_moderator actor.role && is_moderator target.role) ≡ false
      → (ids : List ℕ) (fuel : ℕ) → length ids < fuel
      → (keys proxies : Option (Backend S)) → Bounded keys ids
      → Bounded proxies ids
      → (revoke : Bool) (s : S)
      → IsBlocked target_id (block_user admin_ids keys proxies fuel actor_id target_id revoke w s)
  unfolding block_user
  block_user-blocks found staff listed known plain peers ids fuel enough keys proxies hk hp revoke
        s =
      let (done, stored) =
        begin_block-blocks admin_ids actor_id target_id actor target w found staff listed known
          plain peers in
      let w' = (begin_block admin_ids actor_id target_id w).1 in
      let e : begin_block admin_ids actor_id target_id w ≡ (ok tt, w') = cc done in
      rw e (
        after_begin-blocks actor_id target_id (blocked target w) w' stored refl ids fuel enough keys
          proxies hk hp revoke s)
