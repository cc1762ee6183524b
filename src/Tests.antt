-- ===== src/Tests.antt =====
-- Runs of the theorems at concrete inputs.
use vpnbot.Prelude.{ℕ, ◌≡◌, refl, true, List, [], ◌∷◌, none, some, nat_eq, ◌==◌, get, arith}
use vpnbot.Access.World.{
  aware, UserRole, superadmin, moderator, approved_user, pending_user, User, AccessRequest,
  approved, World, find_user,
}
use vpnbot.Access.Users.Protection.{is_super}
use vpnbot.Access.Requests.Decide.{IsDecided}
use vpnbot.Access.Commands.{
  bootstrap, block, Command, set_role_to, unblock, approve_request, reject_request, perform,
  perform_all, perform_all-protects, perform-unauthorised,
}
use vpnbot.Access.Finality.{perform_all-IsDecided}
use vpnbot.Access.Revoke.{xray, awg, Backend, revoke_all}
use vpnbot.Access.Revoke.Complete.{Complete, revoke_all-Complete}
use vpnbot.Access.Block.{fresh_run, block_user}
use vpnbot.Access.Guard.{IsBlocked, block_user-blocks}

abbrev account : ℕ → UserRole → User
account id role = record {
  telegram_user_id = id;
  username = none;
  first_name = none;
  role = role;
  created_at = aware 1;
  updated_at = aware 1;
  blocked_at = none;
  language = none;
  expiry_notifications_enabled = true;
}

abbrev settled_request : AccessRequest
settled_request = record {
  id = 1;
  telegram_user_id = 3;
  username = none;
  status = approved;
  requested_at = aware 1;
  decided_by = some 1;
  decided_at = some (aware 2);
}

-- A superadmin, a moderator and two users.
abbrev world : World
world = record {
  db = record {
    users =
        (1, account 1 superadmin)
        ∷ (2, account 2 moderator)
        ∷ (3, account 3 approved_user)
        ∷ (4, account 4 pending_user)
        ∷ [];
    requests = (1, settled_request) ∷ [];
    next_request = 2;
    audit = [];
  };
  cleared = [];
  clock = λ n. n;
  reads = 5;
}

abbrev commands : List Command
commands =
    bootstrap
    ∷ block 2 1 [] [] []
    ∷ unblock 2 1
    ∷ set_role_to 1 1 pending_user
    ∷ approve_request 2 1
    ∷ reject_request 1 1
    ∷ []

perform_all-protects_example : is_super (find_user 1 (perform_all [] commands world)) ≡ true
unfolding get
perform_all-protects_example = perform_all-protects 1 [] commands world refl

perform-unauthorised_example : perform [] (block 3 1 [] [] []) world ≡ world
unfolding get
perform-unauthorised_example = perform-unauthorised [] (block 3 1 [] [] []) 3 world refl refl

perform_all-IsDecided_example : IsDecided 1 settled_request (perform_all [] commands world).db
unfolding get
perform_all-IsDecided_example =
    perform_all-IsDecided 1 settled_request [] commands world
      (record { stored = refl; known = omega arith; settled = refl })

-- Two keys; revoking takes the first one off, and the other one raises.
abbrev two_keys : Backend (List ℕ)
two_keys = record {
  listing = λ s. record { id = 7; key_type = xray } ∷ record { id = 8; key_type = awg } ∷ [];
  revoker = λ t. some (λ id s. (id == 7, s));
}

abbrev two_ids : List ℕ
two_ids = 7 ∷ 8 ∷ []

revoke_all-Complete_example :
    Complete two_keys two_ids (λ s. (refl, (refl, tt))) (revoke_all two_keys 3 (fresh_run [] []))
revoke_all-Complete_example =
    revoke_all-Complete two_keys two_ids (λ s. (refl, (refl, tt))) 3 (fresh_run [] [])
      (λ i h. ground arith) omega arith

block_user-blocks_example : IsBlocked 3 (block_user [] (some two_keys) none 3 2 3 true world [])
unfolding get
block_user-blocks_example =
    block_user-blocks [] 2 3 (account 2 moderator) (account 3 approved_user) world refl refl refl
      refl refl refl two_ids 3 omega arith (some two_keys) none (λ s. (refl, (refl, tt))) tt true []
