-- ===== src/Keys/Awg/Accounted/Applied.antt =====
-- Adding the peer and activating the row keep every access accounted for, whatever fails
-- (services/awg.py).
use vpnbot.Prelude.{
  ℕ, ◌≡◌, refl, sym, ap, ◌∙◌, String, Bool, true, false, not, [], some, get, nat_eq, str_eq, eq_iff,
  arith, Bool-cases, inl, inr,
}
use std.Path.{subst}
use mathlib.Core.Option.{some-injective}
use vpnbot.Keys.Store.{VpnKey, apply_failed, activated, mark_active, set_status}
use vpnbot.Keys.Awg.{
  Peer, Server, Refusal, Reply, given, refused, Step, continue, ◌>>◌, or_handle, handled, refuse_if,
  add_peer, remove_peer, may_exist, Texts, text_of_key, first_text, stored_key,
}
use vpnbot.Keys.Awg.Permission.{ensure_can_create, passes}
use vpnbot.Keys.Awg.Service.{set_key_status, lookup, write}
use vpnbot.Keys.Awg.Issuing.{Issue, ensure_issue, compensated, compensate, apply_key}
use vpnbot.Keys.Awg.Accounted.{IsAccounted, HasRow}
use vpnbot.Keys.Awg.Accounted.Withdrawn.{
  IsWithdrawn, remove_peer-IsWithdrawn, add_peer-access, add_peer-store,
}
use vpnbot.Keys.Awg.Accounted.Kept.{
  IsKept, continue-IsKept, lookup-IsKept, handled-IsKept, fewer-IsAccounted, set_key_status-IsKept,
  mark_active-IsAccounted,
}

module _ (t : Texts) (run : Issue) where
  compensated-IsAccounted :
      (id : ℕ) (public_key : String) (s : Server) (r : Reply (Unit {0}) × Server)
      → IsWithdrawn public_key s r
      → IsAccounted t s
      → IsAccounted t (compensated run.correction_fails run.now id r).1
  compensated-IsAccounted id public_key s (refused e, after) (fewer, same) h =
      fewer-IsAccounted t s after fewer same h
  compensated-IsAccounted id public_key s (given a, after) (fewer, same, gone) h =
      written run.correction_fails
    where
      written :
          (fails : Bool)
          → IsAccounted t (write fails (set_status id apply_failed run.now []) after).1
      written true = fewer-IsAccounted t s after fewer same h
      written false =
          set_key_status-IsKept t id apply_failed run.now refl after
            (fewer-IsAccounted t s after fewer same h)

  compensate-IsKept : (id : ℕ) (public_key : String) → IsKept t (compensate run id public_key)
  unfolding compensate
  compensate-IsKept id public_key s h =
      compensated-IsAccounted id public_key s (remove_peer run.compensation id public_key s)
        (remove_peer-IsWithdrawn run.compensation id public_key s) h

  -- The row of the key that is being issued.
  abbrev pub IsIssued : ℕ → String → Server → Type 0
  IsIssued id public_key s =
      (row : VpnKey) × (get s.store.keys id ≡ some row)
      × (may_exist row ≡ true)
      × (stored_key t row ≡ public_key)
      × (row.public_key ≡ some public_key)

  -- Nothing has changed but that the public key may have access now.
  abbrev IsAdded : Server → Reply (Unit {0}) × Server → Type 0
  IsAdded s r = IsAccounted t r.1 × (r.1.store ≡ s.store)

  add_peer-IsAdded :
      (id : ℕ) (peer : Peer) (s : Server)
      → str_eq peer.public_key "" ≡ false
      → IsIssued id peer.public_key s
      → IsAccounted t s
      → IsAdded s (add_peer run.add peer s)
  add_peer-IsAdded id peer s filled (row, found, may, named, known) h = (
    λ public_key access. elim (Bool-cases (str_eq peer.public_key public_key)) [
      | inl e ↦
          let same : peer.public_key ≡ public_key = (eq_iff peer.public_key public_key).0 e in
          (
            ap (λ x. str_eq x "") (sym same) ∙ filled,
            subst (λ store. HasRow t store.keys public_key) (sym (add_peer-store run.add peer s))
                (
                  id,
                  row,
                  found,
                  ground (arith, may, (eq_iff (stored_key t row) public_key).1 (named ∙ same)),
                ),
          )
      | inr e ↦
          let known_before =
            h public_key ground (arith, e, add_peer-access run.add peer s public_key access) in
          (
            known_before.0,
            subst (λ store. HasRow t store.keys public_key) (sym (add_peer-store run.add peer s))
                known_before.1,
          )
    ],
    add_peer-store run.add peer s,
  )

  ensure_issue-IsAdded :
      (id : ℕ) (peer : Peer) (s : Server)
      → str_eq peer.public_key "" ≡ false
      → IsIssued id peer.public_key s
      → IsAccounted t s
      → IsAdded s ((ensure_issue run run.apply_world >> add_peer run.add peer) s)
  ensure_issue-IsAdded id peer s filled issued h =
      tested (
        not
          (passes (ensure_can_create run.actor run.owner run.allow_pending_owner run.apply_world)))
    where
      tested :
          (c : Bool) → IsAdded s ((refuse_if c Refusal.access_denied >> add_peer run.add peer) s)
      tested true = (h, refl)
      tested false = add_peer-IsAdded id peer s filled issued h

  unfoldable pub IsRead : String → Type 0
  IsRead text =
      (str_eq text "" ≡ false)
      × (t.strip (first_text (t.payload_key (run.payload_of text)) text) ≡ text)

  activated-stored_key :
      (public_key public_payload : String) (row other : VpnKey)
      → t.strip (first_text (t.payload_key (run.payload_of public_key)) public_key) ≡ public_key
      → stored_key t row ≡ public_key
      → row.public_key ≡ some public_key
      → row ≡ other
      → stored_key t
          (activated run.now (some (run.payload_of public_key)) (some public_payload) other)
        ≡ stored_key t other
  activated-stored_key public_key public_payload row other read named known e =
      subst
        (λ x.
          stored_key t
            (activated run.now (some (run.payload_of public_key)) (some public_payload) x)
          ≡ stored_key t x)
        e
        (ap (λ x. t.strip (first_text (t.payload_key (run.payload_of public_key)) (text_of_key x)))
            known
          ∙ read
          ∙ sym named)

  activate-IsAccounted :
      (id : ℕ) (public_key public_payload : String) (before s : Server)
      → t.strip (first_text (t.payload_key (run.payload_of public_key)) public_key) ≡ public_key
      → IsIssued id public_key before
      → s.store ≡ before.store
      → (fails : Bool) → IsAccounted t s
      → IsAccounted t
          (write fails
            (mark_active id run.now (some (run.payload_of public_key)) (some public_payload))
            s).1
  activate-IsAccounted id public_key public_payload before s read issued same true h = h
  activate-IsAccounted id public_key public_payload before s read (row, found, may, named, known)
        same false h =
      mark_active-IsAccounted t id run.now (some (run.payload_of public_key)) (some public_payload)
        s
        (λ other e.
          let there : get before.store.keys id ≡ some other =
            ap (λ store. get store.keys id) (sym same) ∙ e in
          activated-stored_key public_key public_payload row other read named known
            (some-injective _ _ (sym found ∙ there)))
        h

  after_added :
      (id : ℕ) (public_key : String) (before : Server) (r : Reply (Unit {0}) × Server)
      (next : Step VpnKey)
      → IsAdded before r
      → ((after : Server)
          → IsAccounted t after
          → after.store ≡ before.store
          → IsAccounted t (next after).1)
      → IsAccounted t
          (continue
            (handled (set_key_status id apply_failed run.now) r).0
            (λ _. next)
            (handled (set_key_status id apply_failed run.now) r).1).1
  after_added id public_key before (given a, after) next (h, same) then_ = then_ after h same
  after_added id public_key before (refused e, after) next (h, same) then_ =
      set_key_status-IsKept t id apply_failed run.now refl after h

  pub apply_key-IsAccounted :
      (client_ip public_key : String) (id : ℕ) (s : Server)
      → IsRead public_key
      → IsIssued id public_key s
      → IsAccounted t s
      → IsAccounted t (apply_key run client_ip public_key id s).1
  unfolding apply_key IsRead
  apply_key-IsAccounted client_ip public_key id s read issued h =
      let peer : Peer = record {
        key_id = some id;
        public_key = public_key;
        client_ip = client_ip;
      } in
      let activation = write run.activation_fails (
        mark_active id run.now (some (run.payload_of public_key))
          (some (run.public_payload_of public_key))) in
      after_added id public_key s ((ensure_issue run run.apply_world >> add_peer run.add peer) s)
        (or_handle activation (compensate run id public_key) >> lookup id)
        (ensure_issue-IsAdded id peer s read.0 issued h)
        (λ after h' same.
          let r = activation after in
          let last = handled (compensate run id public_key) r in
          continue-IsKept t last.0 (λ _. lookup id) last.1 (λ _. lookup-IsKept t id)
            (handled-IsKept t (compensate run id public_key) r.0 r.1
              (compensate-IsKept id public_key)
              (activate-IsAccounted id public_key (run.public_payload_of public_key) s after read.1
                issued same run.activation_fails h')))
