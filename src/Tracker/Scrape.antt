-- ===== src/Tracker/Scrape.antt =====
-- `tracker_scrape` of src/tracker/tracker.c.
pub mod Outcome
use uvg_torrent_c.Prelude.{
  ℕ, ◌*◌, Bool, List, [], ◌∷◌, ◌++◌, Option, none, some, ltb, ◌==◌, if◌then◌else◌, drop, length,
}
use uvg_torrent_c.Prelude.Words.{to_int, add64}
use uvg_torrent_c.NetUtils.{ntohl, htonl, u32_bytes, u32_of_bytes}
use uvg_torrent_c.NetUtils.Wide.{htonll, u64_bytes}
use uvg_torrent_c.Queue.{Status, exit_success, exit_failure}
use uvg_torrent_c.Tracker.{
  Tracker, tracker_idle, tracker_scraping, is_connected, tracker_get_timeout,
  tracker_message_failed, tracker_message_succeded,
}
use uvg_torrent_c.Tracker.Exchange.{
  Round, Answer, waiting, message_failure, cancelled, reply, exchange,
}

-- What the system answers, and the hash that is asked for. Memory for the request is given.
pub record Scraping : Type 0 where
  pub info_hash : List ℕ
  pub random : ℕ
  pub rounds : List Round
  pub now : ℕ

-- `struct TRACKER_UDP_SCRAPE_SEND` with one hash.
unfoldable pub scrape_send : List ℕ → ℕ → ℕ → List ℕ
scrape_send info_hash connection_id transaction_id =
    u64_bytes (htonll connection_id)
    ++ (u32_bytes (htonl 2) ++ (u32_bytes (htonl transaction_id) ++ info_hash))

-- The loop of `tracker_scrape`, for a reply not shorter than `struct TRACKER_UDP_SCRAPE_RECEIVE`.
unfoldable pub scrape_answer : Scraping → Tracker → Answer
scrape_answer s tr =
    exchange (length (scrape_send s.info_hash tr.connection_id (to_int s.random))) 65507
      (λ n. ltb n 8) s.rounds (tracker_get_timeout tr)

-- What follows the loop. A reply to another request is not a failure.
unfoldable pub scrape_receive : Scraping → List ℕ → Tracker → Status × Tracker
scrape_receive s buffer tr =
    let action = ntohl (u32_of_bytes buffer) in
    let transaction = ntohl (u32_of_bytes (drop 4 buffer)) in
    let seeders = ntohl (u32_of_bytes (drop 8 buffer)) in
    let leechers = ntohl (u32_of_bytes (drop 16 buffer)) in
    let unchanged : Status × Tracker = (exit_success, tr) in
    let scraped = record tr {
      scrape_deadline = add64 s.now (15 * 60 * 1000);
      seeders = seeders;
      leechers = leechers;
    } in
    if action == 2
    then (if transaction == to_int s.random
        then (exit_success, record (tracker_message_succeded scraped) { status = tracker_idle })
        else unchanged)
    else unchanged

unfoldable pub after_scrape_loop : Answer → Scraping → Tracker → Option (Status × Tracker)
after_scrape_loop waiting s tr = none
after_scrape_loop message_failure s tr = some (exit_failure, tracker_message_failed tr)
after_scrape_loop cancelled s tr = some (exit_failure, tr)
after_scrape_loop (reply buffer) s tr = some (scrape_receive s buffer tr)

-- The result is `none` where the rounds are over before the call returns.
unfoldable pub tracker_scrape : Scraping → Tracker → Option (Status × Tracker)
tracker_scrape s tr =
    let tr' = record tr { status = tracker_scraping } in
    if is_connected tr.status
    then after_scrape_loop (scrape_answer s tr') s tr'
    else some (exit_failure, tr)
