-- ===== src/Tracker/Run/Tests.antt =====
-- The laws of the runs of src/tracker/tracker.c at concrete trackers.
use uvg_torrent_c.Prelude.{
  ℕ, zero, suc, ◌≡◌, refl, inr, false, List, [], ◌∷◌, none, some, arith, replicate,
  length-replicate,
}
use uvg_torrent_c.Queue.Heap.{Nodes}
use uvg_torrent_c.Queue.{Queue, Status, queue_new}
use uvg_torrent_c.Tracker.{Tracker, tracker_idle, tracker_should_run}
use uvg_torrent_c.Tracker.Exchange.{Round}
use uvg_torrent_c.Tracker.Exchange.Rounds.{quiet_round, Lasts}
use uvg_torrent_c.Tracker.Connect.{Connecting}
use uvg_torrent_c.Tracker.Announce.{FoundPeer}
use uvg_torrent_c.Tracker.Announce.Arrival.{answering_round}
use uvg_torrent_c.Tracker.Scrape.{Scraping}
use uvg_torrent_c.Tracker.Run.{Running, tracker_run}
use uvg_torrent_c.Tracker.Run.Returns.{IsPatient}
use uvg_torrent_c.Tracker.Run.Settled.{Settles}
use uvg_torrent_c.Tracker.Run.Ends.{IsServed, run_lem}
use uvg_torrent_c.Tracker.Run.Histories.{started, stuck_forever}
use uvg_torrent_c.Tracker.Example.{
  tracker_with, malloc_seven-IsMalloc, announcing, empty_heap, empty-Represents,
}

-- A network on which nothing answers.
abbrev quiet : List Round
quiet = replicate 384 (quiet_round 0)

quiet-Lasts : (n : ℕ) → Lasts (replicate n (quiet_round 0))
quiet-Lasts zero = tt
quiet-Lasts (suc n) = (omega arith, quiet-Lasts n)

quiet-IsPatient : IsPatient quiet
quiet-IsPatient = (quiet-Lasts 384, omega (arith, length-replicate 384 (quiet_round 0)))

abbrev unresolved : Connecting
unresolved = record { addresses = none; random = 1; rounds = quiet }

abbrev quiet_running : Running
quiet_running = record {
  is_cancelled = false;
  announce_clock = 1000;
  announce_connecting = unresolved;
  announcing = record announcing { rounds = quiet };
  is_cancelled_later = false;
  scrape_clock = 1000;
  scrape_connecting = unresolved;
  scraping = record { info_hash = []; random = 5; rounds = quiet; now = 1000 };
}

quiet-IsServed : IsServed quiet_running
quiet-IsServed = record {
  lawful = malloc_seven-IsMalloc;
  connects = quiet-IsPatient;
  announces = quiet-IsPatient;
  connects_again = quiet-IsPatient;
  scrapes = quiet-IsPatient;
}

run_lem_example :
    (x : Status × Tracker × Queue × Nodes FoundPeer) × (tracker_run quiet_running
        (tracker_with tracker_idle 2)
        queue_new
        empty_heap
      ≡ some x)
    × Settles quiet_running x
run_lem_example =
    run_lem quiet_running quiet-IsServed queue_new empty_heap [] empty-Represents
      (tracker_with tracker_idle 2) (refl, omega arith, λ p. cc p)

stuck_forever_example :
    (tracker_with tracker_idle 5 ≡ tracker_with tracker_idle 5)
    × ((now later : ℕ) → tracker_should_run now later (tracker_with tracker_idle 5) ≡ false)
stuck_forever_example = stuck_forever (inr (omega arith)) started

-- Eight bytes with the action of an error.
abbrev stray_bytes : List ℕ
stray_bytes = 0 ∷ 0 ∷ 0 ∷ 3 ∷ 0 ∷ 0 ∷ 0 ∷ 5 ∷ []

abbrev stray_scraping : Scraping
stray_scraping = record {
  info_hash = replicate 20 3;
  random = 5;
  rounds = answering_round 36 stray_bytes ∷ [];
  now = 1000;
}
