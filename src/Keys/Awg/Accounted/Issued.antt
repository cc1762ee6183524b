-- ===== src/Keys/Awg/Accounted/Issued.antt =====
-- Issuing a key keeps every access accounted for, whatever fails (services/awg.py).
use vpnbot.Prelude.{
  ℕ, zero, suc, ◌≡◌, refl, ◌∙◌, String, Bool, true, false, not, List, [], ◌∷◌, none, some, put,
  get-put_self, get-put_ne, nat_eq, take, All, str_eq, ◌==◌, arith, if◌then◌else◌,
}
use std.Path.{subst}
use mathlib.Core.Option.{some-injective}
use vpnbot.Access.World.{World}
use vpnbot.Backends.Health
use vpnbot.Backends.Health.{require_mutation_allowed, mark_degraded}
use vpnbot.Keys.Store.{VpnKey, pending_apply, Store, next_id, any_key, set_first, create_pending}
use vpnbot.Keys.Lifecycle.Numbers.{highest-get}
use vpnbot.Keys.Awg.{Server, Refusal, Step, ◌>>=◌, ◌>>◌, refuse_if, Texts, first_text}
use vpnbot.Keys.Awg.Permission.{ensure_can_create, passes}
use vpnbot.Keys.Awg.Issuing.{
  Issue, has_public_key, has_label, first_new, fresh, ensure_issue, drafted, issue_key,
  generate_key, create_locked, create_awg_key,
}
use vpnbot.Keys.Awg.Accounted.{IsAccounted}
use vpnbot.Keys.Awg.Accounted.Kept.{IsKept, refuse_if-IsAccounted, or_refuse-IsKept}
use vpnbot.Keys.Awg.Accounted.Managed.{allowed-IsAccounted}
use vpnbot.Keys.Awg.Accounted.Applied.{IsRead, apply_key-IsAccounted}

-- What was generated is not empty, and reads as itself out of the row that it is written to.
abbrev pub IsReadable : Texts → Issue → Type 0
IsReadable t run =
    All
      (λ text.
        (str_eq text "" ≡ false)
        × (t.strip (first_text (t.payload_key (run.payload_of text)) text) ≡ text))
      run.public_keys

module _ (t : Texts) (run : Issue) where
  -- The new row is put where no row is.
  insert-IsAccounted :
      (row : VpnKey) (sequence : List ℕ) (s : Server)
      → IsAccounted t s
      → IsAccounted t (record s {
        store = record s.store {
          keys = put s.store.keys (next_id s.store) row;
          sequence = sequence;
        };
      })
  insert-IsAccounted row sequence s h public_key access =
      let (filled, (j, other, found, holder)) = h public_key access in
      let apart : (next_id s.store == j) ≡ false =
        ground (arith, highest-get s.store.keys j other found) in
      (filled, (j, other, get-put_ne s.store.keys (next_id s.store) j row apart ∙ found, holder))

  issue_key-IsAccounted :
      (client_ip public_key label : String) (s : Server)
      → IsRead t run public_key
      → IsAccounted t s
      → IsAccounted t (issue_key run client_ip public_key label s).1
  unfolding issue_key create_pending IsRead
  issue_key-IsAccounted client_ip public_key label s read h =
      let id = next_id s.store in
      let row : VpnKey = record (drafted run client_ip public_key label) {
        relay = none;
        id = id;
        status = pending_apply;
      } in
      let sequence = set_first id s.store.sequence in
      apply_key-IsAccounted t run client_ip public_key id
        (record s {
          store = record s.store { keys = put s.store.keys id row; sequence = sequence };
        })
        read (row, get-put_self s.store.keys id row, refl, read.1, refl)
        (insert-IsAccounted row sequence s h)

  first_new-IsRead :
      (n : ℕ) (store : Store) (texts : List String) (text : String)
      → All (IsRead t run) texts
      → first_new has_public_key store (take n texts) ≡ some text
      → IsRead t run text
  first_new-IsRead zero store texts text h e = ground (arith, e)
  first_new-IsRead (suc n) store [] text h e = ground (arith, e)
  first_new-IsRead (suc n) store (x ∷ texts) text h e =
      chosen (λ e'. first_new-IsRead n store texts text h.1 e')
        (any_key (has_public_key x) store.keys) e
    where
      chosen :
          (first_new has_public_key store (take n texts) ≡ some text → IsRead t run text)
          → (taken : Bool)
          → (if taken then first_new has_public_key store (take n texts) else some x) ≡ some text
          → IsRead t run text
      chosen rest true e' = rest e'
      chosen rest false e' = subst (IsRead t run) (some-injective _ _ e') h.0

  generate_key-IsKept : IsReadable t run → IsKept t (generate_key run)
  unfolding generate_key IsRead
  generate_key-IsKept readable s h =
      or_refuse-IsKept t run.free_ip Refusal.no_address
        (λ client_ip. fresh has_public_key (take 3 run.public_keys) >>= (λ public_key.
          fresh has_label (take 5 run.labels)
          >>= (λ label. issue_key run client_ip public_key label)))
        s
        (λ client_ip found_ip.
          or_refuse-IsKept t (first_new has_public_key s.store (take 3 run.public_keys))
            Refusal.not_unique
            (λ public_key.
              fresh has_label (take 5 run.labels)
              >>= (λ label. issue_key run client_ip public_key label))
            s
            (λ public_key found_key.
              or_refuse-IsKept t (first_new has_label s.store (take 5 run.labels))
                Refusal.not_unique (λ label. issue_key run client_ip public_key label) s
                (λ label found_label.
                  issue_key-IsAccounted client_ip public_key label s
                    (first_new-IsRead 3 s.store run.public_keys public_key readable found_key) h)
                h)
            h)
        h

  ensure_issue-IsAccounted :
      (w : World) (k : Step VpnKey) (s : Server)
      → IsAccounted t (k s).1
      → IsAccounted t s
      → IsAccounted t ((ensure_issue run w >> k) s).1
  ensure_issue-IsAccounted w k s kept h =
      refuse_if-IsAccounted t
        (not (passes (ensure_can_create run.actor run.owner run.allow_pending_owner w)))
        Refusal.access_denied k s (λ _. kept) h

  create_locked-IsKept : IsReadable t run → IsKept t (create_locked run)
  create_locked-IsKept readable s h =
      ensure_issue-IsAccounted run.locked_world
        (refuse_if (not run.server_ready) Refusal.not_ready >> generate_key run) s
        (refuse_if-IsAccounted t (not run.server_ready) Refusal.not_ready (generate_key run) s
          (λ _. generate_key-IsKept readable s h) h)
        h

  pub create_awg_key-IsKept : IsReadable t run → IsKept t (create_awg_key run)
  unfolding create_awg_key
  create_awg_key-IsKept readable s h =
      let checked = ensure_issue run run.first_world >> create_locked run in
      let configured = refuse_if (not run.settings_ready) Refusal.not_ready >> checked in
      allowed-IsAccounted t (require_mutation_allowed Health.awg s.health)
        (refuse_if (not run.enabled) Refusal.protocol_unavailable >> configured) s
        (refuse_if-IsAccounted t (not run.enabled) Refusal.protocol_unavailable configured s
          (λ _.
            refuse_if-IsAccounted t (not run.settings_ready) Refusal.not_ready checked s
              (λ _.
                ensure_issue-IsAccounted run.first_world (create_locked run) s
                  (create_locked-IsKept readable s h) h)
              h)
          h)
        h
