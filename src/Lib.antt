-- ===== src/Lib.antt =====
-- vpnbot: a Telegram bot that manages access to VPN servers. This library models the parts of it
-- that decide who has access, which keys exist, and which traffic takes the tunnel.
--
-- Warp is warp/. Warp.Split models split_merge.py: a network is the list of its leading bits, so
-- that membership, overlap, `collapse_addresses` and `address_exclude` are functions on bit lists;
-- `merge_split_list` runs over the operator's list, the sources and the exclusions as the code
-- does. The functions of Python's `ipaddress` are modelled by what their documentation says. The
-- fixed point in `collapse_addresses` has fuel for twice the number of networks, plus one: each
-- step takes a network off the work list, and each that puts one back takes one out of the dict.
-- Warp.Split.Analysis is split_analysis.py, which decides what must be approved by hand.
-- Warp.Feeds is services/warp_split_feeds.py over the apply of split_manager.py: the unattended
-- cycle, the queue of approvals and the baselines, with the merge, the guards and the helper's
-- answer as inputs of a run; a helper that fails may leave the new list behind. Warp.Guards is what
-- the manager lets no list touch, and Warp.Manual how ranges are taken out of the hand-typed
-- prefixes. Warp.Health models `WarpHealthMonitor` of health.py: a round takes the clock, the
-- probe's answer, the kill switch and the rule check as inputs and gives the new state and the
-- callbacks in order.
--
-- Access is the users and the access requests: services/users.py and services/access_approval.py
-- over repositories/users.py and repositories/access_requests.py. Access.World has the tables, the
-- clock and the actions, with errors as values and a transaction that rolls back. Access.Users and
-- Access.Requests have the operations, Access.Commands puts them in sequences, where a block
-- carries what its revocations came back with. Access.Revoke is the loop that revokes keys and
-- proxy accesses, on fuel, and Access.Block is `block_user` over it; the repository's listing and
-- the backends' revokers are parameters there. Fuel above the number of ids that can be listed is
-- enough.
--
-- Keys is repositories/vpn_keys.py with the deletion of a relay (repositories/relays.py):
-- Keys.Store has the tables and the statements, Keys.Lifecycle what sequences of them keep. The
-- regular expression for relay names is a parameter. Keys.Relay is services/relay.py, the
-- snapshot of the relays and what links are built from. Keys.Expiry is services/key_expiry.py:
-- Keys.Expiry.Reminders is about its reminders and the marks on the rows, Keys.Expiry.Sweeps
-- about the revocation of what has expired, and Keys.Expiry.Column about the text in which the
-- marks of the reminders are kept. Keys.Addresses is adapters/ip_allocator.py, over
-- addresses as numbers; the parsers of Python's `ipaddress` are parameters there.
-- Keys.Awg is services/awg.py over the peers of adapters/awg_config.py: Keys.Awg.Service has the
-- calls, Keys.Awg.Startup what a restart does with one key, Keys.Awg.Accounted what sequences of
-- them keep, and Keys.Awg.Outcomes what one call leaves. What the adapter's calls end in, and what
-- they could not roll back, are inputs.
--
-- Relays.Health is services/relay_health.py: the up and down latch of a relay, and the supervisor
-- that keeps one latch per enabled relay. A pass takes what each probe answered and the clocks.
--
-- Trial is services/trial_access.py over repositories/trial_requests.py, on the users and the clock
-- of Access.World. Trial.Desk has the operations; the services that issue and revoke keys are a
-- record of two functions over a state of their own, so an approval's failures are theirs.
--
-- Traffic is services/traffic_stats.py over repositories/traffic_stats.py: Traffic.Tables has
-- the statements, Traffic.Refresh folds what the backends answered into the totals and the
-- hourly history of a batch of keys. Traffic.Hourly compares the two tables, and Traffic.Truth
-- compares a total with the bytes that really moved.
--
-- Bot.RateLimit is bot/rate_limit.py, and Bot.Ordered the `OrderedDict` that it keeps its
-- windows in.
--
-- Backends.Health is services/backend_health.py, the register of the backends that may not be
-- changed.
--
-- Locks order the calls of one user, so an operation is one step here. Not modelled: the services
-- of the other backends, the drift that a restart looks for on the AWG server, the feed parsers,
-- listings and searches, and the texts of messages; and what is no logic of its own: Telegram
-- handlers and keyboards, translations, server adapters, the database's migrations, and deployment
-- scripts.
--
-- The runs at concrete inputs stand in Tests (access), WarpTests (warp and keys), KeyTests (the AWG
-- keys) and ServiceTests (the rest).
pub mod Prelude
pub mod Warp
pub mod Access
pub mod Keys
pub mod Bot
pub mod Backends
pub mod Traffic
pub mod Trial
pub mod Relays
pub mod Tests
pub mod WarpTests
pub mod ServiceTests
pub mod KeyTests
