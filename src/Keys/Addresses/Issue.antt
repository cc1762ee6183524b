-- ===== src/Keys/Addresses/Issue.antt =====
-- An allocated address in a new row: `next_free_ip` (adapters/ip_allocator.py) and then
-- `create_pending` (repositories/vpn_keys.py), as services/awg.py calls them under its lock.
use vpnbot.Prelude.{
  ℕ, ◌+◌, ◌≤◌, ◌≡◌, refl, sym, ◌∙◌, String, Bool, false, List, [], ◌∷◌, Option, none, some, Dict,
  get, put, nat_eq, any, keep, length, ◌==◌, ==_iff, arith, Bool-cases, Option-cases, inl, inr,
  if◌then◌else◌,
}
use vpnbot.Keys.Store.{
  VpnKey, Store, pending_apply, next_id, insert_key, relay_enabled, create_pending,
}
use vpnbot.Keys.Lifecycle.Numbers.{highest-get}
use vpnbot.Keys.Expiry.{rows}
use vpnbot.Keys.Addresses.{Address, AnyNetwork, allocated, IpAllocator, PeerIps, next_free_ip}
use vpnbot.Keys.Addresses.Taken.{reads_as, holds}
use vpnbot.Keys.Addresses.Free.{next_free_ip-free}

keep-put_new :
    (test : VpnKey → Bool) (d : Dict ℕ VpnKey) (id : ℕ) (key : VpnKey)
    → get d id ≡ none
    → length (keep test (rows (put d id key)))
      ≡ length (keep test (rows d)) + (if test key then 1 else 0)
unfolding get put
keep-put_new test [] id key h = ground arith
keep-put_new test ((j, row) ∷ d) id key h = elim (Bool-cases (j == id)) [
  | inl e ↦ let clash : some row ≡ none = sym (rw e refl) ∙ h in ground (arith, clash)
  | inr e ↦
      let rest = keep-put_new test d id key (sym (rw e refl) ∙ h) in
      rw e (elim (Bool-cases (test row)) [
        | inl t ↦ simp t (omega (arith, rest))
        | inr t ↦ simp t rest
      ])
]

keep-none :
    (test : VpnKey → Bool) (keys : List VpnKey)
    → any test keys ≡ false
    → length (keep test keys) ≡ 0
keep-none test [] h = refl
keep-none test (key ∷ keys) h = ground (arith, keep-none test keys)

next_id-new : (s : Store) → get s.keys (next_id s) ≡ none
next_id-new s = elim (Option-cases (get s.keys (next_id s))) [
  | inl e ↦ e
  | inr (key, e) ↦ let low = highest-get s.keys (next_id s) key e in ground (arith, low)
]

module _ (address_of : String → Option Address) (network_of : String → Option AnyNetwork)
    (before_slash strip : String → String) where
  -- No address is held by two rows.
  abbrev pub AreSeparate : Store → Type 0
  AreSeparate s =
      (m : ℕ) → length (keep (holds address_of network_of before_slash strip m) (rows s.keys)) ≤ 1

  insert-AreSeparate :
      (s : Store) (n m : ℕ) (text : String) (key : VpnKey)
      → AreSeparate s
      → any (holds address_of network_of before_slash strip n) (rows s.keys) ≡ false
      → reads_as address_of network_of before_slash strip m text ≡ (n == m)
      → length (
          keep
            (holds address_of network_of before_slash strip m)
            (rows (insert_key (record key { client_ip = some text }) s).1.keys))
        ≤ 1
  insert-AreSeparate s n m text key h free reads =
      let id = next_id s in
      let row = record key { id = id; status = pending_apply; client_ip = some text } in
      let held = holds address_of network_of before_slash strip in
      let grown = keep-put_new (held m) s.keys id row (next_id-new s) in
      elim (Bool-cases (n == m)) [
        | inl e ↦
            let none_held : length (keep (held m) (rows s.keys)) ≡ 0 =
              rw (← (==_iff n m).0 e) (keep-none (held n) (rows s.keys) free) in
            rw grown (ground (arith, none_held))
        | inr e ↦
            let apart : held m row ≡ false = ground (arith, reads, e) in
            rw (grown, apart) (omega (arith, h m))
      ]

  -- If every address is held by one row at most, it stays so when an address that was just
  -- allocated is inserted as a client's, whichever way the insert ends. A row holds its address
  -- while it is that of an AWG key in any status but revoked, deleted or failed; the text of the
  -- allocated address reads as that address alone.
  pub create_pending-AreSeparate :
      (allocator : IpAllocator) (peers : PeerIps) (s : Store) (n : ℕ) (text : String)
      (well_formed : String → Bool) (key : VpnKey) (relay : Option String)
      → AreSeparate s
      → next_free_ip address_of network_of before_slash strip allocator peers s ≡ allocated n
      → ((m : ℕ) → reads_as address_of network_of before_slash strip m text ≡ (n == m))
      → AreSeparate (create_pending well_formed (record key { client_ip = some text }) relay s).1
  unfolding create_pending
  create_pending-AreSeparate allocator peers s n text well_formed key none h free reads m =
      let (low, high, server, rows_free, peers_free) =
        next_free_ip-free address_of network_of before_slash strip allocator peers s n free in
      insert-AreSeparate s n m text (record key { relay = none }) h rows_free (reads m)
  create_pending-AreSeparate allocator peers s n text well_formed key (some relay) h free reads m =
      let (low, high, server, rows_free, peers_free) =
        next_free_ip-free address_of network_of before_slash strip allocator peers s n free in
      let inserted =
        insert-AreSeparate s n m text (record key { relay = some relay }) h rows_free (reads m) in
      elim (Bool-cases (well_formed relay)) [
        | inr e ↦ rw e (h m)
        | inl e ↦ elim (Bool-cases (relay_enabled relay s.relays)) [
          | inr e' ↦ rw (e, e') (h m)
          | inl e' ↦ rw (e, e') inserted
        ]
      ]
