-- ===== src/Warp/Guards.antt =====
-- What may not be routed through the tunnel (warp/split_manager.py): the guarded networks and the
-- check of a whole list.
--
-- What `ip_network` makes of a text, and what the host and the tunnel report, are inputs.
use vpnbot.Prelude.{
  ℕ, ◌≤◌, ◌≡◌, ◌⊎◌, refl, sym, ap, ◌∙◌, String, Bool, true, false, not, ◌&&◌, ◌||◌, Option-cases,
  List, [], ◌∷◌, ◌++◌, Option, none, some, Eq, length, any, all, ltb, ◌==◌, arith, if◌then◌else◌,
  inl, inr,
}
use vpnbot.Warp.Split.Net.{Net, covers, covered, overlaps}
use vpnbot.Warp.Split.Exclude.{overlaps_of_covers}
use vpnbot.Warp.Feeds.{Guard, passes, over_cap, refuses, Feed, Run, apply_computed}
use vpnbot.Warp.Feeds.Unattended.{apply_computed-IsWritten}

-- A text of a list, stripped.
pub data Entry : Type 0 where
  blank invalid other_version : Entry
  network : Net → Entry

-- The networks that the host is in; a single address is a network of its own.
pub record Host : Type 0 where
  pub awg_network : Net
  pub wan : Option Net
  pub gateway : Option Net
  pub endpoint : Option Net

pub record Limits : Type 0 where
  pub max_prefixes : ℕ
  pub min_prefixlen : ℕ

-- 127.0.0.0/8, 169.254.0.0/16, 224.0.0.0/4 and 172.16.0.0/12
abbrev pub static_guards : List Net
static_guards =
    (false ∷ true ∷ true ∷ true ∷ true ∷ true ∷ true ∷ true ∷ [])
    ∷ (true ∷ false ∷ true ∷ false ∷ true ∷ false ∷ false ∷ true ∷ true ∷ true ∷ true ∷ true ∷ true
        ∷ true ∷ true ∷ false ∷ [])
    ∷ (true ∷ true ∷ true ∷ false ∷ [])
    ∷ (true ∷ false ∷ true ∷ false ∷ true ∷ true ∷ false ∷ false ∷ false ∷ false ∷ false ∷ true
        ∷ [])
    ∷ []

abbrev pub or_no_guard : Option Net → List Net
or_no_guard none = []
or_no_guard (some net) = net ∷ []

unfoldable pub build_guards : Host → List Net
build_guards host =
    static_guards
    ++ (host.awg_network
        ∷ (or_no_guard host.wan ++ (or_no_guard host.gateway ++ or_no_guard host.endpoint)))

-- `refresh_endpoint`: a probe that finds nothing leaves the endpoint that was found last.
abbrev pub refresh_endpoint : Option Net → Host → Host
refresh_endpoint none host = host
refresh_endpoint (some found) host = record host { endpoint = some found }

abbrev pub check_entry : Limits → List Net → Entry → Bool
check_entry limits guards blank = true
check_entry limits guards (network net) =
    not (length net == 0)
    && (not (ltb (length net) limits.min_prefixlen) && not (any (overlaps net) guards))
check_entry limits guards _ = false

-- The host after probes, the first one first.
unfoldable pub refresh_all : List (Option Net) → Host → Host
refresh_all [] host = host
refresh_all (probe ∷ probes) host = refresh_all probes (refresh_endpoint probe host)

-- The specification: the endpoint of the last probe that found one.
abbrev pub last_found : List (Option Net) → Option Net
last_found [] = none
last_found (probe ∷ probes) = elim (last_found probes) [ none ↦ probe | some net ↦ some net ]

-- The specification: an address that may not go through the tunnel. It is in 127.0.0.0/8, in
-- 169.254.0.0/16, in 224.0.0.0/4 or in 172.16.0.0/12, a client's, in the server's network, the
-- gateway or the endpoint.
pub data IsGuarded (host : Host) (found : Option Net) : List Bool → Type 0 where
  at_loopback :
      (a : List Bool)
      → IsGuarded host found (false ∷ true ∷ true ∷ true ∷ true ∷ true ∷ true ∷ true ∷ a)
  at_link_local :
      (a : List Bool)
      → IsGuarded host found (
          true ∷ false ∷ true ∷ false ∷ true ∷ false ∷ false ∷ true ∷ true ∷ true ∷ true ∷ true
          ∷ true ∷ true ∷ true ∷ false ∷ a)
  at_multicast : (a : List Bool) → IsGuarded host found (true ∷ true ∷ true ∷ false ∷ a)
  at_private :
      (a : List Bool)
      → IsGuarded host found (
          true ∷ false ∷ true ∷ false ∷ true ∷ true ∷ false ∷ false ∷ false ∷ false ∷ false ∷ true
          ∷ a)
  at_client : (a : List Bool) → covers host.awg_network a ≡ true → IsGuarded host found a
  at_server :
      (net : Net) (a : List Bool)
      → host.wan ≡ some net
      → covers net a ≡ true
      → IsGuarded host found a
  at_gateway :
      (net : Net) (a : List Bool)
      → host.gateway ≡ some net
      → covers net a ≡ true
      → IsGuarded host found a
  at_endpoint :
      (net : Net) (a : List Bool) → found ≡ some net → covers net a ≡ true → IsGuarded host found a

refresh_all-last_found :
    (probes : List (Option Net)) (host : Host)
    → (refresh_all probes host).endpoint
      ≡ elim (last_found probes) [ none ↦ host.endpoint | some net ↦ some net ]
unfolding refresh_all
refresh_all-last_found [] host = refl
refresh_all-last_found (probe ∷ probes) host = elim (Option-cases (last_found probes)) [
  | inr (net, e) ↦ rw e (refresh_all-last_found probes (refresh_endpoint probe host) ∙ rw e refl)
  | inl e ↦ elim (Option-cases probe) [
    | inl missed ↦ rw (e, missed) (refresh_all-last_found probes host ∙ rw e refl)
    | inr (net, hit) ↦
        rw (e, hit)
          (refresh_all-last_found probes (record host { endpoint = some net }) ∙ rw e refl)
  ]
]

refresh_all-rest :
    (probes : List (Option Net)) (host : Host)
    → ((refresh_all probes host).awg_network ≡ host.awg_network)
      × ((refresh_all probes host).wan ≡ host.wan)
      × ((refresh_all probes host).gateway ≡ host.gateway)
unfolding refresh_all
refresh_all-rest [] host = (refl, refl, refl)
refresh_all-rest (none ∷ probes) host = refresh_all-rest probes host
refresh_all-rest (some net ∷ probes) host =
    refresh_all-rest probes (record host { endpoint = some net })

covered-++ :
    (nets more : List Net) (a : List Bool)
    → covered (nets ++ more) a ≡ (covered nets a || covered more a)
covered-++ [] more a = refl
covered-++ (net ∷ nets) more a = ground (arith, covered-++ nets more a)

covered-known :
    (known : Option Net) (net : Net) (a : List Bool)
    → known ≡ some net
    → covers net a ≡ true
    → covered (or_no_guard known) a ≡ true
covered-known known net a e h = rw e (ground (arith, h))

covered-build_guards :
    (host : Host) (a : List Bool)
    → covered (build_guards host) a ≡ (
        covered static_guards a
        || (covers host.awg_network a
            || (covered (or_no_guard host.wan) a
                || (covered (or_no_guard host.gateway) a
                    || covered (or_no_guard host.endpoint) a))))
unfolding build_guards
covered-build_guards host a =
    rw
      (
        covered-++ static_guards
            (host.awg_network
              ∷ (or_no_guard host.wan ++ (or_no_guard host.gateway ++ or_no_guard host.endpoint)))
            a,
        covered-++ (or_no_guard host.wan) (or_no_guard host.gateway ++ or_no_guard host.endpoint) a,
        covered-++ (or_no_guard host.gateway) (or_no_guard host.endpoint) a,
      )
      refl

loopback-guarded :
    (a : List Bool)
    → covered static_guards (false ∷ true ∷ true ∷ true ∷ true ∷ true ∷ true ∷ true ∷ a) ≡ true
unfolding covers
loopback-guarded a = refl

link_local-guarded :
    (a : List Bool)
    → covered static_guards (
        true ∷ false ∷ true ∷ false ∷ true ∷ false ∷ false ∷ true ∷ true ∷ true ∷ true ∷ true ∷ true
        ∷ true ∷ true ∷ false ∷ a)
      ≡ true
unfolding covers
link_local-guarded a = refl

multicast-guarded : (a : List Bool) → covered static_guards (true ∷ true ∷ true ∷ false ∷ a) ≡ true
unfolding covers
multicast-guarded a = refl

private-guarded :
    (a : List Bool)
    → covered static_guards (
        true ∷ false ∷ true ∷ false ∷ true ∷ true ∷ false ∷ false ∷ false ∷ false ∷ false ∷ true
        ∷ a)
      ≡ true
unfolding covers
private-guarded a = refl

static-guarded :
    (host : Host) (a : List Bool)
    → covered static_guards a ≡ true
    → covered (build_guards host) a ≡ true
static-guarded host a h = covered-build_guards host a ∙ rw h refl

IsGuarded-build_guards :
    (host : Host) (a : List Bool)
    → IsGuarded host host.endpoint a
    → covered (build_guards host) a ≡ true
IsGuarded-build_guards host _ (at_loopback a) = static-guarded host _ (loopback-guarded a)
IsGuarded-build_guards host _ (at_link_local a) = static-guarded host _ (link_local-guarded a)
IsGuarded-build_guards host _ (at_multicast a) = static-guarded host _ (multicast-guarded a)
IsGuarded-build_guards host _ (at_private a) = static-guarded host _ (private-guarded a)
IsGuarded-build_guards host _ (at_client a h) = ground (arith, h, covered-build_guards host a)
IsGuarded-build_guards host _ (at_server net a e h) =
    ground (arith, covered-known host.wan net a e h, covered-build_guards host a)
IsGuarded-build_guards host _ (at_gateway net a e h) =
    ground (arith, covered-known host.gateway net a e h, covered-build_guards host a)
IsGuarded-build_guards host _ (at_endpoint net a e h) =
    ground (arith, covered-known host.endpoint net a e h, covered-build_guards host a)

-- What is guarded after the probes is so by the refreshed host.
IsGuarded-refresh_all :
    (probes : List (Option Net)) (host : Host) (a : List Bool)
    → host.endpoint ≡ none
    → IsGuarded host (last_found probes) a
    → IsGuarded (refresh_all probes host) (refresh_all probes host).endpoint a
IsGuarded-refresh_all probes host _ fresh (at_loopback a) = at_loopback a
IsGuarded-refresh_all probes host _ fresh (at_link_local a) = at_link_local a
IsGuarded-refresh_all probes host _ fresh (at_multicast a) = at_multicast a
IsGuarded-refresh_all probes host _ fresh (at_private a) = at_private a
IsGuarded-refresh_all probes host _ fresh (at_client a h) =
    at_client a (rw (refresh_all-rest probes host).0 h)
IsGuarded-refresh_all probes host _ fresh (at_server net a e h) =
    at_server net a ((refresh_all-rest probes host).1 ∙ e) h
IsGuarded-refresh_all probes host _ fresh (at_gateway net a e h) =
    at_gateway net a ((refresh_all-rest probes host).2 ∙ e) h
IsGuarded-refresh_all probes host _ fresh (at_endpoint net a e h) =
    at_endpoint net a (refresh_all-last_found probes host ∙ rw e refl) h

judged :
    (too_long valid : Bool)
    → (if too_long then over_cap else (if valid then passes else refuses)) ≡ passes
    → (too_long ≡ false) × (valid ≡ true)
judged true valid h = ground (arith, h)
judged false true h = (refl, refl)
judged false false h = ground (arith, h)

module _ (entry_of : String → Entry) where
  -- `check_candidate`, with the endpoint that was read at its start.
  unfoldable pub check_candidate : Limits → Host → List String → Guard
  unfolding build_guards overlaps
  check_candidate limits host texts =
      if ltb limits.max_prefixes (length texts)
      then over_cap
      else (if all (λ text. check_entry limits (build_guards host) (entry_of text)) texts
          then passes
          else refuses)

  abbrev pub cons_entry : Entry → List Net → List Net
  cons_entry (network net) nets = net ∷ nets
  cons_entry _ nets = nets

  -- The networks that a list routes.
  abbrev pub routed_networks : List String → List Net
  routed_networks [] = []
  routed_networks (text ∷ texts) = cons_entry (entry_of text) (routed_networks texts)

  disjoint :
      (guards : List Net) (net : Net) (a : List Bool)
      → any (overlaps net) guards ≡ false
      → covered guards a ≡ true
      → covers net a ≡ false
  disjoint [] net a h k = ground (arith, k)
  disjoint (guard ∷ guards) net a h k =
      ground (arith, h, k, overlaps_of_covers net guard a, disjoint guards net a)

  check_entry-clear :
      (limits : Limits) (guards : List Net) (entry : Entry) (nets : List Net) (a : List Bool)
      → check_entry limits guards entry ≡ true
      → covered guards a ≡ true
      → covered nets a ≡ false
      → covered (cons_entry entry nets) a ≡ false
  check_entry-clear limits guards blank nets a h k n = n
  check_entry-clear limits guards invalid nets a h k n = n
  check_entry-clear limits guards other_version nets a h k n = n
  check_entry-clear limits guards (network net) nets a h k n =
      let apart : any (overlaps net) guards ≡ false = ground (arith, h) in
      ground (arith, n, disjoint guards net a apart k)

  check_entries-clear :
      (limits : Limits) (guards : List Net) (texts : List String) (a : List Bool)
      → all (λ text. check_entry limits guards (entry_of text)) texts ≡ true
      → covered guards a ≡ true
      → covered (routed_networks texts) a ≡ false
  check_entries-clear limits guards [] a h k = refl
  check_entries-clear limits guards (text ∷ texts) a h k =
      check_entry-clear limits guards (entry_of text) (routed_networks texts) a ground (arith, h) k
        (check_entries-clear limits guards texts a ground (arith, h) k)

  -- A list that is not too long and routes no guarded address.
  abbrev pub IsClear : Limits → Host → Option Net → List String → Type 0
  IsClear limits host found texts =
      (length texts ≤ limits.max_prefixes)
      × ((a : List Bool) → IsGuarded host found a → covered (routed_networks texts) a ≡ false)

  check_candidate-IsClear :
      (limits : Limits) (host : Host) (texts : List String)
      → check_candidate limits host texts ≡ passes
      → IsClear limits host host.endpoint texts
  unfolding check_candidate
  check_candidate-IsClear limits host texts h =
      let both =
        judged (ltb limits.max_prefixes (length texts))
          (all (λ text. check_entry limits (build_guards host) (entry_of text)) texts) h in
      (
        ground (arith, both.0),
        λ a guarded.
            check_entries-clear limits (build_guards host) texts a both.1
              (IsGuarded-build_guards host a guarded),
      )

  -- An apply under the manager's lock, with its own check, after any probes of the endpoint since
  -- the start of the process, leaves the list as it was, or as one that is not too long and routes
  -- no guarded address: none of the four fixed ranges, of the clients, of the server's network or
  -- of the gateway, as far as they are known, and none of the endpoint that the last probe with an
  -- answer found, if one did.
  pub apply_computed-IsClear :
      {H : Type 0} ⦃e : Eq H⦄ (limits : Limits) (host : Host) (probes : List (Option Net))
      (run : Run) (computed : Option (List String)) (s : Feed H)
      → host.endpoint ≡ none
      → run.guard ≡ check_candidate limits (refresh_all probes host)
      → ((apply_computed run computed s).1.list ≡ s.list)
        ⊎ IsClear limits host (last_found probes) (apply_computed run computed s).1.list
  apply_computed-IsClear limits host probes run computed s fresh guarded =
      elim (apply_computed-IsWritten run computed s) [
        | inl same ↦ inl same
        | inr (found, valid) ↦
            let clear =
              check_candidate-IsClear limits (refresh_all probes host)
                (apply_computed run computed s).1.list
                (ap (λ guard. guard (apply_computed run computed s).1.list) (sym guarded)
                  ∙ valid) in
            inr (clear.0, λ a kept. clear.1 a (IsGuarded-refresh_all probes host a fresh kept))
      ]
