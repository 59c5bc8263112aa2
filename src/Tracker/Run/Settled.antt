-- ===== src/Tracker/Run/Settled.antt =====
-- What `tracker_run` of src/tracker/tracker.c leaves behind.
use uvg_torrent_c.Prelude.{
  ℕ, suc, ◌≤◌, ◌≡◌, ◌≢◌, refl, ◌⊎◌, inl, inr, true, Bool-cases, Option, none, some, arith,
}
use uvg_torrent_c.Queue.Heap.{Nodes}
use uvg_torrent_c.Queue.{Queue, Status, exit_success, exit_failure}
use uvg_torrent_c.Tracker.{
  Tracker, tracker_idle, tracker_connected, tracker_disconnect, tracker_should_announce,
  tracker_should_scrape,
}
use uvg_torrent_c.Tracker.Connect.{tracker_connect}
use uvg_torrent_c.Tracker.Connect.Outcome.{Each, ConnectOutcome, connect_outcome}
use uvg_torrent_c.Tracker.Announce.{FoundPeer, tracker_announce}
use uvg_torrent_c.Tracker.Announce.Outcome.{AnnounceOutcome, announce_outcome}
use uvg_torrent_c.Tracker.Scrape.{tracker_scrape}
use uvg_torrent_c.Tracker.Scrape.Outcome.{ScrapeOutcome, scrape_outcome}
use uvg_torrent_c.Tracker.Run.{
  Running, RunResult, finish, after_announce, after_scrape, after_scrape_connect, scrape_part,
  after_announce_connect, tracker_run,
}

Each-map {ℓ κ μ} :
    {A : Type ℓ} {P : A → Type κ} {Q : A → Type μ}
    → ((a : A) → P a → Q a)
    → (o : Option A) → Each P o
    → Each Q o
Each-map f none p = tt
Each-map f (some a) p = f a p

-- Between two runs.
abbrev pub IsAtRest : Tracker → Type 0
IsAtRest tr = (tr.socket ≡ 0) × (tr.message_attempts ≤ 5) × (tr.status ≢ tracker_connected)

abbrev Calm : Tracker → Type 0
Calm tr = (tr.message_attempts ≤ 5) × (tr.status ≢ tracker_connected)

-- `running` is reset, unless the cancel flag was seen.
abbrev pub Settles : Running → Status × Tracker × Queue × Nodes FoundPeer → Type 0
Settles r (status, tr, q, h) =
    IsAtRest tr × ((tr.running ≡ 0) ⊎ (r.is_cancelled ≡ true) ⊎ (r.is_cancelled_later ≡ true))

finish-IsAtRest : (tr : Tracker) → Calm tr → IsAtRest (finish tr) × ((finish tr).running ≡ 0)
unfolding tracker_disconnect
finish-IsAtRest tr calm = ground (arith, calm.0, calm.1)

pub should_announce_few :
    (now : ℕ) (tr : Tracker)
    → tracker_should_announce now tr ≡ true
    → (tr.status ≡ tracker_idle) × (suc tr.message_attempts ≤ 5)
unfolding tracker_should_announce
should_announce_few now tr h = ground arith

pub should_scrape_few :
    (now : ℕ) (tr : Tracker)
    → tracker_should_scrape now tr ≡ true
    → (tr.status ≡ tracker_idle) × (suc tr.message_attempts ≤ 5)
unfolding tracker_should_scrape
should_scrape_few now tr h = ground arith

announce-Calm :
    (tr : Tracker)
    → tr.message_attempts ≡ 0
    → (x : Status × Tracker × Queue × Nodes FoundPeer) → AnnounceOutcome tr x
    → Calm x.1
announce-Calm tr a (exit_success, tr', q, h) (s, b) = (omega (arith, b), λ p. cc (s, p))
announce-Calm tr a (exit_failure, tr', q, h) (inl (s, b)) = (omega (arith, a, b), λ p. cc (s, p))
announce-Calm tr a (exit_failure, tr', q, h) (inr (s, b)) = (omega (arith, a, b), λ p. cc (s, p))

scrape-Calm :
    (tr : Tracker)
    → tr.message_attempts ≡ 0
    → (x : Status × Tracker) → ScrapeOutcome tr x
    → Calm x.1
scrape-Calm tr a (status, tr') (inl (s, b, e)) = (omega (arith, b), λ p. cc (s, p))
scrape-Calm tr a (status, tr') (inr (inl (s, b, e))) = (omega (arith, a, b), λ p. cc (s, p))
scrape-Calm tr a (status, tr') (inr (inr (s, b))) = (omega (arith, a, b), λ p. cc (s, p))

module _ (r : Running) where
  after_announce-Settles :
      (result : RunResult) → Each (λ x. Calm x.1) result → Each (Settles r) (after_announce result)
  unfolding after_announce
  after_announce-Settles none calm = tt
  after_announce-Settles (some (status, tr, q, h)) calm =
      let (rest, stopped) = finish-IsAtRest tr calm in (rest, inl stopped)

  after_scrape-Settles :
      (result : Option (Status × Tracker)) (q : Queue) (h : Nodes FoundPeer)
      → Each (λ x. Calm x.1) result
      → Each (Settles r) (after_scrape result q h)
  unfolding after_scrape
  after_scrape-Settles none q h calm = tt
  after_scrape-Settles (some (status, tr)) q h calm =
      let (rest, stopped) = finish-IsAtRest tr calm in (rest, inl stopped)

  pub failed-IsAtRest :
      (tr tr' : Tracker)
      → suc tr.message_attempts ≤ 5
      → ConnectOutcome tr (exit_failure, tr')
      → IsAtRest tr'
  failed-IsAtRest tr tr' few (closed, same, inl (s, a)) =
      (closed, omega (arith, few, a), λ p. cc (s, p))
  failed-IsAtRest tr tr' few (closed, same, inr (s, a)) =
      (closed, omega (arith, few, a), λ p. cc (s, p))

  scrape_connect-Settles :
      (tr : Tracker) (result : Option (Status × Tracker)) (q : Queue) (h : Nodes FoundPeer)
      → suc tr.message_attempts ≤ 5
      → Each (ConnectOutcome tr) result
      → Each (Settles r) (after_scrape_connect result r q h)
  unfolding after_scrape_connect
  scrape_connect-Settles tr none q h few o = tt
  scrape_connect-Settles tr (some (exit_success, tr')) q h few (s, a, same) =
      after_scrape-Settles (tracker_scrape r.scraping tr') q h (
        Each-map (scrape-Calm tr' a) (tracker_scrape r.scraping tr')
          (scrape_outcome r.scraping tr' s))
  scrape_connect-Settles tr (some (exit_failure, tr')) q h few o =
      (failed-IsAtRest tr tr' few o, inl refl)

  scrape_part-Settles :
      (tr : Tracker) (q : Queue) (h : Nodes FoundPeer)
      → IsAtRest tr
      → Each (Settles r) (scrape_part r tr q h)
  unfolding scrape_part
  scrape_part-Settles tr q h rest = elim (Bool-cases r.is_cancelled_later) [
    | inl c ↦ simp c (rest, inr (inr refl))
    | inr c ↦ elim (Bool-cases (tracker_should_scrape r.scrape_clock tr)) [
      | inl e ↦
          let few = should_scrape_few r.scrape_clock tr e in
          simp (c, e)
            (scrape_connect-Settles tr (tracker_connect r.scrape_connecting tr) q h few.1
              (connect_outcome r.scrape_connecting tr))
      | inr e ↦ simp (c, e) (rest, inl refl)
    ]
  ]

  announce_connect-Settles :
      (tr : Tracker) (result : Option (Status × Tracker)) (q : Queue) (h : Nodes FoundPeer)
      → suc tr.message_attempts ≤ 5
      → Each (ConnectOutcome tr) result
      → Each (Settles r) (after_announce_connect result r q h)
  unfolding after_announce_connect
  announce_connect-Settles tr none q h few o = tt
  announce_connect-Settles tr (some (exit_success, tr')) q h few (s, a, same) =
      after_announce-Settles (tracker_announce r.announcing tr' q h) (
        Each-map (announce-Calm tr' a) (tracker_announce r.announcing tr' q h)
          (announce_outcome r.announcing tr' q h s))
  announce_connect-Settles tr (some (exit_failure, tr')) q h few o =
      scrape_part-Settles tr' q h (failed-IsAtRest tr tr' few o)

  pub run-Settles :
      (tr : Tracker) (q : Queue) (h : Nodes FoundPeer)
      → IsAtRest tr
      → Each (Settles r) (tracker_run r tr q h)
  unfolding tracker_run
  run-Settles tr q h rest = elim (Bool-cases r.is_cancelled) [
    | inl c ↦ simp c (rest, inr (inl refl))
    | inr c ↦ elim (Bool-cases (tracker_should_announce r.announce_clock tr)) [
      | inl e ↦
          let few = should_announce_few r.announce_clock tr e in
          simp (c, e)
            (announce_connect-Settles tr (tracker_connect r.announce_connecting tr) q h few.1
              (connect_outcome r.announce_connecting tr))
      | inr e ↦ simp (c, e) (scrape_part-Settles tr q h rest)
    ]
  ]
