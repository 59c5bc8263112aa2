-- ===== src/Tracker.antt =====
-- The tracker of src/tracker/tracker.h and tracker.c: its state, the tests for what it should do
-- next, and what a message that failed or succeeded changes. The children model the three requests
-- and `tracker_run`.
mod Tests
pub mod Example
pub mod Exchange
pub mod Connect
pub mod Announce
pub mod Scrape
pub mod Run
use uvg_torrent_c.Prelude.{
  ℕ, ◌+◌, ◌*◌, ◌^◌, Bool, true, false, ◌&&◌, ◌||◌, Option, none, some, ltb, ◌==◌, if◌then◌else◌,
  CString,
}
use uvg_torrent_c.Prelude.Words.{slt64}

pub data TrackerStatus : Type 0 where
  tracker_idle tracker_connecting tracker_connected tracker_announcing tracker_scraping :
      TrackerStatus

-- The deadlines are `int64_t`, as 64 bits. `socket` is 0 where there is none.
pub record Tracker : Type 0 where
  pub public_ip : CString
  pub url : CString
  pub host : CString
  pub port : ℕ
  pub connection_id : ℕ
  pub announce_deadline : ℕ
  pub scrape_deadline : ℕ
  pub seeders : ℕ
  pub leechers : ℕ
  pub socket : ℕ
  pub status : TrackerStatus
  pub message_attempts : ℕ
  pub running : ℕ

-- What `yuarel_parse` finds in a URL.
pub record Yuarel : Type 0 where
  pub host : CString
  pub port : ℕ

unfoldable pub with_host : CString → CString → Option Yuarel → Option Tracker
with_host url public_ip none = none
with_host url public_ip (some yurl) = some (record {
  public_ip = public_ip;
  url = url;
  host = yurl.host;
  port = yurl.port;
  connection_id = 0;
  announce_deadline = 0;
  scrape_deadline = 0;
  seeders = 0;
  leechers = 0;
  socket = 0;
  status = tracker_idle;
  message_attempts = 0;
  running = 0;
})

unfoldable pub with_url : (CString → Option Yuarel) → CString → Option CString → Option Tracker
with_url yuarel_parse public_ip none = none
with_url yuarel_parse public_ip (some url) = with_host url public_ip (yuarel_parse url)

-- `unescape` is `curl_easy_unescape`, and memory is given for every copy.
unfoldable pub tracker_new :
    (unescape : CString → Option CString) (yuarel_parse : CString → Option Yuarel)
    → CString
    → CString
    → Option Tracker
tracker_new unescape yuarel_parse url public_ip = with_url yuarel_parse public_ip (unescape url)

abbrev pub is_idle : TrackerStatus → Bool
is_idle tracker_idle = true
is_idle tracker_connecting = false
is_idle tracker_connected = false
is_idle tracker_announcing = false
is_idle tracker_scraping = false

abbrev pub is_connected : TrackerStatus → Bool
is_connected tracker_connected = true
is_connected tracker_idle = false
is_connected tracker_connecting = false
is_connected tracker_announcing = false
is_connected tracker_scraping = false

unfoldable pub tracker_should_announce : ℕ → Tracker → Bool
tracker_should_announce now tr =
    is_idle tr.status && slt64 tr.announce_deadline now && ltb tr.message_attempts 5

unfoldable pub tracker_should_scrape : ℕ → Tracker → Bool
tracker_should_scrape now tr =
    is_idle tr.status && slt64 tr.scrape_deadline now && ltb tr.message_attempts 5

-- The clock is read twice.
unfoldable pub tracker_should_run : ℕ → ℕ → Tracker → Bool
tracker_should_run now later tr =
    (tracker_should_announce now tr || tracker_should_scrape later tr) && (tr.running == 0)

unfoldable pub tracker_disconnect : Tracker → Tracker
tracker_disconnect tr = if tr.socket == 0 then tr else record tr { socket = 0 }

-- The product is exact, and fits an `int`, for less than 26 attempts.
unfoldable pub tracker_get_timeout : Tracker → ℕ
tracker_get_timeout tr = 60 * 2 ^ tr.message_attempts

unfoldable pub tracker_message_failed : Tracker → Tracker
tracker_message_failed tr =
    let tr' = tracker_disconnect (record tr { message_attempts = tr.message_attempts + 1 }) in
    record tr' { status = tracker_idle }

unfoldable pub tracker_message_succeded : Tracker → Tracker
tracker_message_succeded tr = record tr { message_attempts = 0 }
