-- ===== src/Tracker/Scrape/Outcome.antt =====
-- How `tracker_scrape` of src/tracker/tracker.c can end, whatever comes.
use uvg_torrent_c.Prelude.{ℕ, suc, ◌≡◌, refl, ◌⊎◌, inl, inr, List, arith, ◌==◌, drop}
use uvg_torrent_c.Prelude.Words.{to_int}
use uvg_torrent_c.NetUtils.{ntohl, u32_of_bytes}
use uvg_torrent_c.Queue.{Status, exit_success, exit_failure}
use uvg_torrent_c.Tracker.{
  Tracker, tracker_idle, tracker_connected, tracker_scraping, tracker_disconnect,
  tracker_message_failed, tracker_message_succeded,
}
use uvg_torrent_c.Tracker.Exchange.{Answer, waiting, message_failure, cancelled, reply}
use uvg_torrent_c.Tracker.Connect.Outcome.{Each, both_tests}
use uvg_torrent_c.Tracker.Scrape.{Scraping, scrape_receive, after_scrape_loop, tracker_scrape}

abbrev pub ScrapeOutcome : Tracker → Status × Tracker → Type 0
ScrapeOutcome tr (status, tr') =
    ((tr'.status ≡ tracker_idle) × (tr'.message_attempts ≡ 0) × (status ≡ exit_success))
    ⊎ ((tr'.status ≡ tracker_idle)
        × (tr'.message_attempts ≡ suc tr.message_attempts)
        × (status ≡ exit_failure))
    ⊎ ((tr'.status ≡ tracker_scraping) × (tr'.message_attempts ≡ tr.message_attempts))

module _ (tr tr' : Tracker) (s : tr'.status ≡ tracker_scraping)
    (a : tr'.message_attempts ≡ tr.message_attempts) where
  failed_outcome : ScrapeOutcome tr (exit_failure, tracker_message_failed tr')
  unfolding tracker_message_failed tracker_disconnect
  failed_outcome = ground arith

  receive_outcome :
      (scraping : Scraping) (buffer : List ℕ)
      → ScrapeOutcome tr (scrape_receive scraping buffer tr')
  unfolding scrape_receive tracker_message_succeded
  receive_outcome scraping buffer =
      both_tests (ScrapeOutcome tr) (ntohl (u32_of_bytes buffer) == 2)
        (ntohl (u32_of_bytes (drop 4 buffer)) == to_int scraping.random) (inl (refl, refl, refl))
        (inr (inr (s, a)))

  loop_outcome :
      (answer : Answer) (scraping : Scraping)
      → Each (ScrapeOutcome tr) (after_scrape_loop answer scraping tr')
  unfolding after_scrape_loop
  loop_outcome waiting scraping = tt
  loop_outcome message_failure scraping = failed_outcome
  loop_outcome cancelled scraping = inr (inr (s, a))
  loop_outcome (reply buffer) scraping = receive_outcome scraping buffer

-- `tracker_scrape` of a connected tracker succeeds idle with no failed attempt, or fails with one
-- attempt more, or ends while it is scraping.
pub scrape_outcome :
    (scraping : Scraping) (tr : Tracker)
    → tr.status ≡ tracker_connected
    → Each (ScrapeOutcome tr) (tracker_scrape scraping tr)
unfolding tracker_scrape
scrape_outcome scraping tr connected =
    rw connected (loop_outcome tr (record tr { status = tracker_scraping }) refl refl _ scraping)
