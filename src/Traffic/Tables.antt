-- ===== src/Traffic/Tables.antt =====
-- The two tables of the traffic counters and their statements (repositories/traffic_stats.py), and
-- the arithmetic of a total (services/traffic_stats.py).
--
-- A time is a number of seconds. The counters that a backend answers may be negative. The texts of
-- the reasons are left to their causes.
use vpnbot.Prelude.{
  ℕ, ◌+◌, ◌-◌, ◌/◌, String, Bool, true, false, ◌&&◌, ◌||◌, List, [], ◌∷◌, Option, none, some, Dict,
  get, put, nat_eq, string_eq, ltb, ◌==◌, max, if◌then◌else◌,
}
use vpnbot.Keys.Store.{VpnKeyType, awg, xray, hysteria2}

-- Integers, as a backend prints them.
pub data ℤ : Type 0 where
  pos : ℕ → ℤ
  negsuc : ℕ → ℤ

-- `max(n, 0)`
abbrev pub clamp : ℤ → ℕ
clamp (pos n) = n
clamp (negsuc n) = 0

pub data Reason : Type 0 where
  load_failed no_public_key peer_missing no_label : Reason

pub record TrafficStats : Type 0 where
  pub downloaded_bytes : ℕ
  pub uploaded_bytes : ℕ
  pub last_raw_downloaded_bytes : Option ℕ
  pub last_raw_uploaded_bytes : Option ℕ
  pub last_success_at : Option ℕ
  pub last_attempt_at : ℕ
  pub available : Bool
  pub unavailable_reason : Option Reason
  pub source : String

-- A row of traffic_hourly.
pub record Bucket : Type 0 where
  pub hour_utc : ℕ
  pub key_id : ℕ
  pub protocol : VpnKeyType
  pub downloaded_bytes : ℕ
  pub uploaded_bytes : ℕ

pub record Tables : Type 0 where
  pub stats : Dict ℕ TrafficStats
  pub hourly : List Bucket

abbrev pub type_eq : VpnKeyType → VpnKeyType → Bool
type_eq xray xray = true
type_eq awg awg = true
type_eq hysteria2 hysteria2 = true
type_eq _ _ = false

-- `_next_total`, after the clamp
unfoldable pub next_total : ℕ → Option ℕ → ℕ → ℕ
next_total previous_total none current = max previous_total current
next_total previous_total (some previous_raw) current =
    if ltb current previous_raw
    then previous_total + current
    else previous_total + (current - previous_raw)

unfoldable pub next_total_for_direction : ℕ → Option ℕ → Option ℤ → ℕ × Option ℕ
unfolding next_total
next_total_for_direction previous_total previous_raw none = (previous_total, previous_raw)
next_total_for_direction previous_total previous_raw (some current_raw) =
    (next_total previous_total previous_raw (clamp current_raw), some (clamp current_raw))

abbrev pub hour_of : ℕ → ℕ
hour_of now = now / 3600

abbrev pub same_bucket : Bucket → Bucket → Bool
same_bucket a b =
    (a.hour_utc == b.hour_utc) && (a.key_id == b.key_id) && type_eq a.protocol b.protocol

-- INSERT ... ON CONFLICT(hour_utc, key_id, protocol) DO UPDATE
unfoldable pub add_bucket : Bucket → List Bucket → List Bucket
add_bucket bucket [] = bucket ∷ []
add_bucket bucket (other ∷ hourly) =
    let rest = add_bucket bucket hourly in
    if same_bucket bucket other
    then record other {
      downloaded_bytes = other.downloaded_bytes + bucket.downloaded_bytes;
      uploaded_bytes = other.uploaded_bytes + bucket.uploaded_bytes;
    }
      ∷ hourly
    else other ∷ rest

-- TrafficStatsRepository.upsert_success, with the hourly delta
unfoldable pub upsert_success : ℕ → TrafficStats → Bucket → Tables → Tables
unfolding add_bucket
upsert_success id stats bucket t =
    let written = put t.stats id stats in
    if ltb 0 bucket.downloaded_bytes || ltb 0 bucket.uploaded_bytes
    then record { stats = written; hourly = add_bucket bucket t.hourly }
    else record t { stats = written }

abbrev pub fresh_stats : Bool → Option Reason → ℕ → String → TrafficStats
fresh_stats available reason now source = record {
  downloaded_bytes = 0;
  uploaded_bytes = 0;
  last_raw_downloaded_bytes = none;
  last_raw_uploaded_bytes = none;
  last_success_at = none;
  last_attempt_at = now;
  available = available;
  unavailable_reason = reason;
  source = source;
}

abbrev pub touched_stats : ℕ → String → Option TrafficStats → TrafficStats
touched_stats now source none = fresh_stats true none now source
touched_stats now source (some stats) = record stats { last_attempt_at = now }

unfoldable pub touch_attempt : ℕ → ℕ → String → Tables → Tables
touch_attempt id now source t = record t {
  stats = put t.stats id (touched_stats now source (get t.stats id));
}

abbrev pub unavailable_stats : Reason → ℕ → String → Option TrafficStats → TrafficStats
unavailable_stats reason now source none = fresh_stats false (some reason) now source
unavailable_stats reason now source (some stats) = record stats {
  last_attempt_at = now;
  available = false;
  unavailable_reason = some reason;
  source = source;
}

unfoldable pub upsert_unavailable : ℕ → Reason → ℕ → String → Tables → Tables
upsert_unavailable id reason now source t = record t {
  stats = put t.stats id (unavailable_stats reason now source (get t.stats id));
}
