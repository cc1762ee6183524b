-- ===== src/Traffic/Refresh.antt =====
-- One refresh of a batch of keys (services/traffic_stats.py) over the two tables.
--
-- The batch stands under the refresh lock, so nothing comes between. Whether a backend could not be
-- asked is a flag. A key or label that is missing or empty is `none`.
use Prim.Native.String.{◌++◌ as append}
use vpnbot.Prelude.{
  ℕ, ◌-◌, String, Bool, true, ◌||◌, List, [], ◌∷◌, Option, none, some, Dict, get, nat_eq, string_eq,
  is_some, if◌then◌else◌,
}
use vpnbot.Keys.Store.{VpnKey, VpnKeyType, awg, xray, hysteria2}
use vpnbot.Traffic.Tables.{
  ℤ, TrafficStats, Bucket, Tables, next_total_for_direction, hour_of, upsert_success, touch_attempt,
  upsert_unavailable, load_failed, no_public_key, peer_missing, no_label,
}

abbrev pub downloaded_before : Option TrafficStats → ℕ
downloaded_before none = 0
downloaded_before (some stats) = stats.downloaded_bytes

abbrev pub uploaded_before : Option TrafficStats → ℕ
uploaded_before none = 0
uploaded_before (some stats) = stats.uploaded_bytes

abbrev pub raw_downloaded_before : Option TrafficStats → Option ℕ
raw_downloaded_before none = none
raw_downloaded_before (some stats) = stats.last_raw_downloaded_bytes

abbrev pub raw_uploaded_before : Option TrafficStats → Option ℕ
raw_uploaded_before none = none
raw_uploaded_before (some stats) = stats.last_raw_uploaded_bytes

abbrev pub next_down : Option TrafficStats → Option ℤ → ℕ × Option ℕ
next_down previous raw =
    next_total_for_direction (downloaded_before previous) (raw_downloaded_before previous) raw

abbrev pub next_up : Option TrafficStats → Option ℤ → ℕ × Option ℕ
next_up previous raw =
    next_total_for_direction (uploaded_before previous) (raw_uploaded_before previous) raw

abbrev pub success_row : Option TrafficStats → Option ℤ → Option ℤ → String → ℕ → TrafficStats
success_row previous raw_downloaded raw_uploaded source now = record {
  downloaded_bytes = (next_down previous raw_downloaded).0;
  uploaded_bytes = (next_up previous raw_uploaded).0;
  last_raw_downloaded_bytes = (next_down previous raw_downloaded).1;
  last_raw_uploaded_bytes = (next_up previous raw_uploaded).1;
  last_success_at = some now;
  last_attempt_at = now;
  available = true;
  unavailable_reason = none;
  source = source;
}

-- HourlyTrafficDelta: what the poll adds to the totals
abbrev pub success_bucket : VpnKey → Option TrafficStats → Option ℤ → Option ℤ → ℕ → Bucket
success_bucket key previous raw_downloaded raw_uploaded now = record {
  hour_utc = hour_of now;
  key_id = key.id;
  protocol = key.key_type;
  downloaded_bytes = (next_down previous raw_downloaded).0 - downloaded_before previous;
  uploaded_bytes = (next_up previous raw_uploaded).0 - uploaded_before previous;
}

unfoldable pub store_success :
    VpnKey → Option TrafficStats → Option ℤ → Option ℤ → String → ℕ → Tables → Tables
unfolding upsert_success
store_success key previous raw_downloaded raw_uploaded source now t =
    upsert_success key.id (success_row previous raw_downloaded raw_uploaded source now)
      (success_bucket key previous raw_downloaded raw_uploaded now) t

-- What the three backends answered, and which of them could not be asked.
pub record Answers : Type 0 where
  pub transfers : Dict String (ℤ × ℤ)
  pub awg_failed : Bool
  pub xray_stats : Dict String ℤ
  pub xray_failed : Bool
  pub hysteria_stats : Dict String (ℤ × ℤ)
  pub hysteria_failed : Bool

abbrev pub awg_source : String
awg_source = "awg/wg transfer"

abbrev pub xray_source : String
xray_source = "xray statsquery"

abbrev pub hysteria_source : String
hysteria_source = "hysteria2 trafficStats"

-- A pair is (received, sent), as the peer's server counts.
unfoldable pub store_transfer : VpnKey → Option TrafficStats → ℕ → Option (ℤ × ℤ) → Tables → Tables
unfolding upsert_unavailable store_success
store_transfer key previous now none t = upsert_unavailable key.id peer_missing now awg_source t
store_transfer key previous now (some (received, sent)) t =
    store_success key previous (some sent) (some received) awg_source now t

unfoldable pub refresh_awg_peer :
    VpnKey → Option TrafficStats → Answers → ℕ → Option String → Tables → Tables
unfolding upsert_unavailable store_transfer
refresh_awg_peer key previous answers now none t =
    upsert_unavailable key.id no_public_key now awg_source t
refresh_awg_peer key previous answers now (some public_key) t =
    store_transfer key previous now (get answers.transfers public_key) t

unfoldable pub refresh_awg_key : VpnKey → Option TrafficStats → Answers → ℕ → Tables → Tables
unfolding upsert_unavailable refresh_awg_peer
refresh_awg_key key previous answers now t =
    if answers.awg_failed
    then upsert_unavailable key.id load_failed now awg_source t
    else refresh_awg_peer key previous answers now key.public_key t

abbrev pub counter_name : String → String → String
counter_name label direction = append (append (append "user>>>" label) ">>>traffic>>>") direction

unfoldable pub refresh_xray_label :
    VpnKey → Option TrafficStats → Answers → ℕ → Option String → Tables → Tables
unfolding upsert_unavailable touch_attempt store_success
refresh_xray_label key previous answers now none t =
    upsert_unavailable key.id no_label now xray_source t
refresh_xray_label key previous answers now (some label) t =
    let down = get answers.xray_stats (counter_name label "downlink") in
    let up = get answers.xray_stats (counter_name label "uplink") in
    if is_some down || is_some up
    then store_success key previous down up xray_source now t
    else touch_attempt key.id now xray_source t

unfoldable pub refresh_xray_key : VpnKey → Option TrafficStats → Answers → ℕ → Tables → Tables
unfolding upsert_unavailable refresh_xray_label
refresh_xray_key key previous answers now t =
    if answers.xray_failed
    then upsert_unavailable key.id load_failed now xray_source t
    else refresh_xray_label key previous answers now key.email_label t

-- A pair is (uploaded, downloaded).
unfoldable pub store_session : VpnKey → Option TrafficStats → ℕ → Option (ℤ × ℤ) → Tables → Tables
unfolding touch_attempt store_success
store_session key previous now none t = touch_attempt key.id now hysteria_source t
store_session key previous now (some (uploaded, downloaded)) t =
    store_success key previous (some downloaded) (some uploaded) hysteria_source now t

unfoldable pub refresh_hysteria_label :
    VpnKey → Option TrafficStats → Answers → ℕ → Option String → Tables → Tables
unfolding upsert_unavailable store_session
refresh_hysteria_label key previous answers now none t =
    upsert_unavailable key.id no_label now hysteria_source t
refresh_hysteria_label key previous answers now (some label) t =
    store_session key previous now (get answers.hysteria_stats label) t

unfoldable pub refresh_hysteria_key : VpnKey → Option TrafficStats → Answers → ℕ → Tables → Tables
unfolding upsert_unavailable refresh_hysteria_label
refresh_hysteria_key key previous answers now t =
    if answers.hysteria_failed
    then upsert_unavailable key.id load_failed now hysteria_source t
    else refresh_hysteria_label key previous answers now key.email_label t

unfoldable pub refresh_key :
    VpnKeyType → VpnKey → Option TrafficStats → Answers → ℕ → Tables → Tables
unfolding refresh_awg_key refresh_xray_key refresh_hysteria_key
refresh_key awg key previous answers now t = refresh_awg_key key previous answers now t
refresh_key xray key previous answers now t = refresh_xray_key key previous answers now t
refresh_key hysteria2 key previous answers now t = refresh_hysteria_key key previous answers now t

-- The loop of `refresh_views`, with the rows that were read before it.
unfoldable pub refresh_from : Dict ℕ TrafficStats → Answers → ℕ → List VpnKey → Tables → Tables
unfolding refresh_key
refresh_from current answers now [] t = t
refresh_from current answers now (key ∷ keys) t =
    refresh_from current answers now keys
      (refresh_key key.key_type key (get current key.id) answers now t)

unfoldable pub refresh_views : Answers → ℕ → List VpnKey → Tables → Tables
unfolding refresh_from
refresh_views answers now keys t = refresh_from t.stats answers now keys t
