-- ===== src/Tracker/Run.antt =====
-- `tracker_run` of src/tracker/tracker.c: the job that a tracker is, from the cancel flag to the end.
mod Tests
pub mod Returns
pub mod Settled
pub mod Ends
pub mod Histories
use uvg_torrent_c.Prelude.{ℕ, Bool, true, false, Option, none, some, if◌then◌else◌}
use uvg_torrent_c.Queue.Heap.{Nodes}
use uvg_torrent_c.Queue.{Queue, Status, exit_success, exit_failure}
use uvg_torrent_c.Tracker.{
  Tracker, tracker_disconnect, tracker_should_announce, tracker_should_scrape,
}
use uvg_torrent_c.Tracker.Connect.{Connecting, tracker_connect}
use uvg_torrent_c.Tracker.Announce.{FoundPeer, Announcing, tracker_announce}
use uvg_torrent_c.Tracker.Scrape.{Scraping, tracker_scrape}

-- What the system answers during one run: the cancel flag where `tracker_run` reads it, the clock of
-- the two tests, and the answers to the calls, each for the case that it is made.
pub record Running : Type 0 where
  pub is_cancelled : Bool
  pub announce_clock : ℕ
  pub announce_connecting : Connecting
  pub announcing : Announcing
  pub is_cancelled_later : Bool
  pub scrape_clock : ℕ
  pub scrape_connecting : Connecting
  pub scraping : Scraping

abbrev pub RunResult : Type 0
RunResult = Option (Status × Tracker × Queue × Nodes FoundPeer)

-- `tracker_disconnect(tr); tr->running = 0; return EXIT_SUCCESS;`
abbrev pub finish : Tracker → Tracker
finish tr = record (tracker_disconnect tr) { running = 0 }

unfoldable pub after_announce : RunResult → RunResult
after_announce none = none
after_announce (some (status, tr, q, h)) = some (exit_success, finish tr, q, h)

unfoldable pub after_scrape : Option (Status × Tracker) → Queue → Nodes FoundPeer → RunResult
after_scrape none q h = none
after_scrape (some (status, tr)) q h = some (exit_success, finish tr, q, h)

unfoldable pub after_scrape_connect :
    Option (Status × Tracker) → Running → Queue → Nodes FoundPeer → RunResult
after_scrape_connect none r q h = none
after_scrape_connect (some (exit_success, tr)) r q h =
    after_scrape (tracker_scrape r.scraping tr) q h
after_scrape_connect (some (exit_failure, tr)) r q h =
    some (exit_failure, record tr { running = 0 }, q, h)

-- From the second test of the cancel flag on.
unfoldable pub scrape_part : Running → Tracker → Queue → Nodes FoundPeer → RunResult
scrape_part r tr q h =
    if r.is_cancelled_later
    then some (exit_failure, tr, q, h)
    else if tracker_should_scrape r.scrape_clock tr
    then after_scrape_connect (tracker_connect r.scrape_connecting tr) r q h
    else some (exit_failure, record tr { running = 0 }, q, h)

unfoldable pub after_announce_connect :
    Option (Status × Tracker) → Running → Queue → Nodes FoundPeer → RunResult
after_announce_connect none r q h = none
after_announce_connect (some (exit_success, tr)) r q h =
    after_announce (tracker_announce r.announcing tr q h)
after_announce_connect (some (exit_failure, tr)) r q h = scrape_part r tr q h

-- The result is `none` where a call in it does not return.
unfoldable pub tracker_run : Running → Tracker → Queue → Nodes FoundPeer → RunResult
tracker_run r tr q h =
    if r.is_cancelled
    then some (exit_failure, tr, q, h)
    else if tracker_should_announce r.announce_clock tr
    then after_announce_connect (tracker_connect r.announce_connecting tr) r q h
    else scrape_part r tr q h
