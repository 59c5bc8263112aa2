-- ===== src/Tracker/Run/Ends.antt =====
-- A run of src/tracker/tracker.c returns, and in which state.
use uvg_torrent_c.Prelude.{
  suc, ◌≤◌, ◌≡◌, ◌≢◌, refl, inl, inr, Bool-cases, Option, none, some, arith,
}
use uvg_torrent_c.Queue.Heap.{Nodes}
use uvg_torrent_c.Queue.{Queue, Status, exit_success, exit_failure}
use uvg_torrent_c.Queue.Laws.{Cells, Represents}
use uvg_torrent_c.Tracker.{Tracker, tracker_should_announce, tracker_should_scrape}
use uvg_torrent_c.Tracker.Connect.{tracker_connect}
use uvg_torrent_c.Tracker.Connect.Outcome.{Each, ConnectOutcome, connect_outcome}
use uvg_torrent_c.Tracker.Announce.{FoundPeer, tracker_announce}
use uvg_torrent_c.Tracker.Announce.Peers.{IsMalloc}
use uvg_torrent_c.Tracker.Scrape.{tracker_scrape}
use uvg_torrent_c.Tracker.Run.{
  Running, RunResult, after_announce, after_scrape, after_scrape_connect, scrape_part,
  after_announce_connect, tracker_run,
}
use uvg_torrent_c.Tracker.Run.Returns.{IsPatient, connect_returns, announce_returns, scrape_returns}
use uvg_torrent_c.Tracker.Run.Settled.{
  IsAtRest, Settles, run-Settles, should_announce_few, failed-IsAtRest,
}

-- Memory and time for every call that the run may make.
pub record IsServed (r : Running) : Type 0 where
  pub lawful : IsMalloc r.announcing.malloc
  pub connects : IsPatient r.announce_connecting.rounds
  pub announces : IsPatient r.announcing.rounds
  pub connects_again : IsPatient r.scrape_connecting.rounds
  pub scrapes : IsPatient r.scraping.rounds

after_announce_returns : (result : RunResult) → result ≢ none → after_announce result ≢ none
unfolding after_announce
after_announce_returns none h = absurd (h refl)
after_announce_returns (some (status, tr, q, h')) h = λ p. cc p

after_scrape_returns :
    (result : Option (Status × Tracker)) (q : Queue) (h : Nodes FoundPeer)
    → result ≢ none
    → after_scrape result q h ≢ none
unfolding after_scrape
after_scrape_returns none q h r = absurd (r refl)
after_scrape_returns (some (status, tr)) q h r = λ p. cc p

module _ (r : Running) (served : IsServed r) (q : Queue) (h : Nodes FoundPeer)
    (ns : Cells FoundPeer) (holds : Represents q h ns) where
  scrape_connect_returns :
      (tr : Tracker) (result : Option (Status × Tracker))
      → result ≢ none
      → Each (ConnectOutcome tr) result
      → after_scrape_connect result r q h ≢ none
  unfolding after_scrape_connect
  scrape_connect_returns tr none n o = absurd (n refl)
  scrape_connect_returns tr (some (exit_success, tr')) n (s, a, same) =
      after_scrape_returns (tracker_scrape r.scraping tr') q h
        (scrape_returns r.scraping tr' (omega (arith, a)) served.scrapes)
  scrape_connect_returns tr (some (exit_failure, tr')) n o = λ p. cc p

  scrape_part_returns : (tr : Tracker) → IsAtRest tr → scrape_part r tr q h ≢ none
  unfolding scrape_part
  scrape_part_returns tr rest =
      let scrapes =
        scrape_connect_returns tr (tracker_connect r.scrape_connecting tr)
          (connect_returns r.scrape_connecting tr rest.1 served.connects_again)
          (connect_outcome r.scrape_connecting tr) in
      elim (Bool-cases r.is_cancelled_later) [
        | inl c ↦ rw c (λ p. cc p)
        | inr c ↦ elim (Bool-cases (tracker_should_scrape r.scrape_clock tr)) [
          | inl e ↦ simp (c, e) scrapes
          | inr e ↦ simp (c, e) (λ p. cc p)
        ]
      ]

  announce_connect_returns :
      (tr : Tracker) (result : Option (Status × Tracker))
      → suc tr.message_attempts ≤ 5
      → result ≢ none
      → Each (ConnectOutcome tr) result
      → after_announce_connect result r q h ≢ none
  unfolding after_announce_connect
  announce_connect_returns tr none few n o = absurd (n refl)
  announce_connect_returns tr (some (exit_success, tr')) few n (s, a, same) =
      after_announce_returns (tracker_announce r.announcing tr' q h) (
        announce_returns r.announcing served.lawful q h ns holds tr' (omega (arith, a))
          served.announces)
  announce_connect_returns tr (some (exit_failure, tr')) few n o =
      scrape_part_returns tr' (failed-IsAtRest r tr tr' few o)

  run_returns : (tr : Tracker) → IsAtRest tr → tracker_run r tr q h ≢ none
  unfolding tracker_run
  run_returns tr rest = elim (Bool-cases r.is_cancelled) [
    | inl c ↦ simp c (λ p. cc p)
    | inr c ↦ elim (Bool-cases (tracker_should_announce r.announce_clock tr)) [
      | inl e ↦
          simp (c, e)
            (announce_connect_returns tr (tracker_connect r.announce_connecting tr)
              (should_announce_few r.announce_clock tr e).1
              (connect_returns r.announce_connecting tr rest.1 served.connects)
              (connect_outcome r.announce_connecting tr))
      | inr e ↦ simp (c, e) (scrape_part_returns tr rest)
    ]
  ]

  there :
      (result : RunResult)
      → result ≢ none
      → Each (Settles r) result
      → (x : Status × Tracker × Queue × Nodes FoundPeer) × (result ≡ some x) × Settles r x
  there none n o = absurd (n refl)
  there (some x) n o = (x, refl, o)

  -- A run of a tracker at rest returns, if every read may take its five seconds and the peer queue
  -- is in order, and leaves the tracker at rest: the socket is closed, there are at most five failed
  -- attempts, and it is not connected. `running` is 0 again unless the cancel flag was seen.
  pub run_lem :
      (tr : Tracker)
      → IsAtRest tr
      → (x : Status × Tracker × Queue × Nodes FoundPeer) × (tracker_run r tr q h ≡ some x)
        × Settles r x
  run_lem tr rest = there (tracker_run r tr q h) (run_returns tr rest) (run-Settles r tr q h rest)
