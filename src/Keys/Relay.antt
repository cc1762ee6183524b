-- ===== src/Keys/Relay.antt =====
-- The relay catalogue that links are built from (services/relay.py).
--
-- A host is `none` where the source has an empty text. A network is its text.
use vpnbot.Prelude.{
  ℕ, ◌+◌, ◌<◌, ◌≤◌, ◌≡◌, refl, sym, ◌∙◌, String, Bool, true, false, ◌&&◌, List, [], ◌∷◌, ◌++◌,
  Option, none, some, any, find, keep, is_some, leb, str_eq, length, ◌==◌, arith, if◌then◌else◌,
  Bool-cases, Option-cases, inl, inr, eq_iff,
}
use vpnbot.Keys.Store.{Outcome, returned, raised, relay_unavailable}

pub record RelayRow : Type 0 where
  pub id : ℕ
  pub name : String
  pub label : String
  pub host : Option String
  pub enabled : Bool
  pub in_subscriptions : Bool
  pub source_ips : List String

abbrev pub RelaySnapshot : Type 0
RelaySnapshot = List RelayRow

unfoldable pub insert_relay : RelayRow → RelaySnapshot → RelaySnapshot
insert_relay relay [] = relay ∷ []
insert_relay relay (other ∷ relays) =
    let rest = insert_relay relay relays in
    if leb relay.id other.id then relay ∷ other ∷ relays else other ∷ rest

-- RelaySnapshot.of
unfoldable pub snapshot_of : List RelayRow → RelaySnapshot
unfolding insert_relay
snapshot_of [] = []
snapshot_of (relay ∷ relays) = insert_relay relay (snapshot_of relays)

abbrev pub find_relay : RelaySnapshot → String → Option RelayRow
find_relay relays name = find (λ r. str_eq r.name name) relays

abbrev pub relay_by_id : RelaySnapshot → ℕ → Option RelayRow
relay_by_id relays id = find (λ r. r.id == id) relays

abbrev pub enabled_relays : RelaySnapshot → List RelayRow
enabled_relays relays = keep (λ r. r.enabled) relays

abbrev pub for_subscriptions : RelaySnapshot → List RelayRow
for_subscriptions relays = keep (λ r. r.enabled && r.in_subscriptions) relays

-- The loop of `group_of`, with the index of the first row.
unfoldable pub group_from : ℕ → RelaySnapshot → String → ℕ
group_from index [] name = index
group_from index (known ∷ relays) name =
    let later = group_from (index + 1) relays name in
    if str_eq known.name name then index else later

unfoldable pub group_of : RelaySnapshot → Option String → ℕ
unfolding group_from
group_of relays none = 0
group_of relays (some name) = group_from 1 relays name

abbrev add_networks : List String → List String → List String
add_networks networks [] = networks
add_networks networks (network ∷ more) =
    add_networks
      (if any (λ n. str_eq n network) networks then networks else networks ++ network ∷ []) more

abbrev networks_from : List String → RelaySnapshot → List String
networks_from networks [] = networks
networks_from networks (relay ∷ relays) =
    networks_from (add_networks networks relay.source_ips) relays

unfoldable pub source_networks : RelaySnapshot → List String
source_networks relays = networks_from [] relays

abbrev available : Option RelayRow → Bool
available none = false
available (some known) = known.enabled && is_some known.host

unfoldable pub relay_available : RelaySnapshot → String → Bool
relay_available relays name = available (find_relay relays name)

abbrev host_or_raise : Bool → Option String → Outcome String
host_or_raise true (some host) = returned host
host_or_raise _ _ = raised relay_unavailable

abbrev host_of : Option RelayRow → Outcome String
host_of none = raised relay_unavailable
host_of (some known) = host_or_raise known.enabled known.host

unfoldable pub relay_link_host : RelaySnapshot → Option String → String → Outcome String
relay_link_host relays none direct_host = returned direct_host
relay_link_host relays (some name) direct_host = host_of (find_relay relays name)

abbrev label_of : Option RelayRow → Outcome String
label_of none = raised relay_unavailable
label_of (some known) = returned known.label

unfoldable pub relay_marker : RelaySnapshot → String → Outcome String
relay_marker relays name = label_of (find_relay relays name)

-- An empty name means a direct key.
unfoldable pub require_relay_for_issue : RelaySnapshot → Option String → Outcome (Option String)
unfolding relay_available
require_relay_for_issue relays none = returned none
require_relay_for_issue relays (some name) =
    if str_eq name ""
    then returned none
    else if relay_available relays name
    then returned (some name)
    else raised relay_unavailable

find-member :
    (relays : RelaySnapshot) (name : String) (known : RelayRow)
    → find_relay relays name ≡ some known
    → known.name ≡ name
find-member [] name known e = ground arith
find-member (relay ∷ relays) name known e = elim (Bool-cases (str_eq relay.name name)) [
  | inl same ↦ let n : relay.name ≡ name = (eq_iff relay.name name).0 same in ground (arith, n)
  | inr other ↦ find-member relays name known ground arith
]

-- What a link of this relay's keys has to point at, whatever the direct host is.
abbrev pub PointsAt : RelaySnapshot → String → String → Type 0
PointsAt relays name direct_host =
    (known : RelayRow) × (host : String) × (find_relay relays name ≡ some known)
    × (known.name ≡ name)
    × (known.enabled ≡ true)
    × (known.host ≡ some host)
    × (relay_link_host relays (some name) direct_host ≡ returned host)

-- A name other than the empty one that `require_relay_for_issue` lets through has a link from the
-- same snapshot: the host of the enabled relay of that name, and never the direct host in its
-- place.
pub require_relay_for_issue-PointsAt :
    (relays : RelaySnapshot) (name direct_host : String)
    → str_eq name "" ≡ false
    → require_relay_for_issue relays (some name) ≡ returned (some name)
    → PointsAt relays name direct_host
unfolding require_relay_for_issue relay_link_host
require_relay_for_issue-PointsAt relays name direct_host full passed =
    elim (Option-cases (find_relay relays name)) [
      | inl e ↦ ground (arith, e)
      | inr (known, e) ↦ elim (Option-cases known.host) [
        | inl e' ↦ ground (arith, e, e')
        | inr (host, e') ↦
            let on : known.enabled ≡ true = ground (arith, e, e') in
            (known, host, e, find-member relays name known e, on, e', rw (e, on, e') refl)
      ]
    ]

group_from-bounds :
    (index : ℕ) (relays : RelaySnapshot) (name : String)
    → (index ≤ group_from index relays name)
      × (group_from index relays name ≤ index + length relays)
unfolding group_from
group_from-bounds index [] name = ground arith
group_from-bounds index (relay ∷ relays) name =
    ground (arith, group_from-bounds (index + 1) relays name)

group_from-injective :
    (index : ℕ) (relays : RelaySnapshot) (a b : String)
    → group_from index relays a < index + length relays
    → group_from index relays a ≡ group_from index relays b
    → a ≡ b
unfolding group_from
group_from-injective index [] a b known e = ground arith
group_from-injective index (relay ∷ relays) a b known e = elim (Bool-cases (str_eq relay.name a)) [
  | inl here ↦ elim (Bool-cases (str_eq relay.name b)) [
    | inl here' ↦ sym ((eq_iff relay.name a).0 here) ∙ (eq_iff relay.name b).0 here'
    | inr there' ↦ ground (arith, group_from-bounds (index + 1) relays b)
  ]
  | inr there ↦ elim (Bool-cases (str_eq relay.name b)) [
    | inl here' ↦ ground (arith, group_from-bounds (index + 1) relays a)
    | inr there' ↦ group_from-injective (index + 1) relays a b ground arith ground arith
  ]
]

-- Two relay names whose keys sort into the same group of a subscription are the same name, unless
-- the group is the last one, of the relays that the snapshot does not know.
pub group_of-injective :
    (relays : RelaySnapshot) (a b : String)
    → group_of relays (some a) ≤ length relays
    → group_of relays (some a) ≡ group_of relays (some b)
    → a ≡ b
unfolding group_of
group_of-injective relays a b known e = group_from-injective 1 relays a b omega (arith, known) e
