-- ===== src/Tracker/Run/Histories.antt =====
-- All that can happen to a tracker of src/tracker/tracker.c: `torrent_run_trackers` of
-- src/torrent/torrent.c marks it as running where `tracker_should_run` says so, and the job that it
-- adds is a run.
use uvg_torrent_c.Prelude.{
  ℕ, ◌≤◌, ◌≡◌, ◌≢◌, refl, ◌⊎◌, inl, inr, Bool, true, false, ◌&&◌, none, some, arith, if◌then◌else◌,
  ◌==◌, List, drop,
}
use mathlib.Core.Path.{subst}
use uvg_torrent_c.Prelude.Words.{to_int}
use uvg_torrent_c.NetUtils.{ntohl, u32_of_bytes}
use uvg_torrent_c.Queue.Heap.{Nodes}
use uvg_torrent_c.Queue.{Queue, Status, exit_success, exit_failure}
use uvg_torrent_c.Tracker.{
  Tracker, TrackerStatus, tracker_idle, tracker_connecting, tracker_connected, tracker_announcing,
  tracker_scraping, is_idle, is_connected, tracker_disconnect, tracker_should_announce,
  tracker_should_scrape, tracker_should_run,
}
use uvg_torrent_c.Tracker.Exchange.{reply}
use uvg_torrent_c.Tracker.Connect.{with_addresses, tracker_connect}
use uvg_torrent_c.Tracker.Announce.{FoundPeer}
use uvg_torrent_c.Tracker.Connect.Outcome.{Each}
use uvg_torrent_c.Tracker.Scrape.{
  Scraping, scrape_answer, scrape_receive, after_scrape_loop, tracker_scrape,
}
use uvg_torrent_c.Tracker.Run.{
  Running, finish, after_scrape, after_announce_connect, scrape_part, tracker_run,
}
use uvg_torrent_c.Tracker.Run.Settled.{IsAtRest, Settles, run-Settles}

-- The trackers that runs can make of a tracker.
pub data Reach (first : Tracker) : Tracker → Type 0 where
  started : Reach first first
  ran :
      {tr : Tracker} (now later : ℕ) (r : Running) (q : Queue) (h : Nodes FoundPeer)
      (status : Status) (tr' : Tracker) (q' : Queue) (h' : Nodes FoundPeer)
      → Reach first tr
      → tracker_should_run now later tr ≡ true
      → tracker_run r (record tr { running = 1 }) q h ≡ some (status, tr', q', h')
      → Reach first tr'

-- A tracker that is not idle, or has failed five times.
abbrev pub IsStuck : Tracker → Type 0
IsStuck tr = (tr.status ≢ tracker_idle) ⊎ (5 ≤ tr.message_attempts)

-- Whatever runs there have been, the socket is closed, there are at most five failed attempts, and
-- the tracker is not connected.
pub Reach-IsAtRest : {first tr : Tracker} → IsAtRest first → Reach first tr → IsAtRest tr
Reach-IsAtRest rest started = rest
Reach-IsAtRest rest (ran {tr} now later r q h status tr' q' h' reach on e) =
    let before = Reach-IsAtRest rest reach in
    let settled = run-Settles r (record tr { running = 1 }) q h before in
    (subst (Each (Settles r)) e settled).0

not_idle : (s : TrackerStatus) → s ≢ tracker_idle → is_idle s ≡ false
not_idle tracker_idle h = absurd (h refl)
not_idle tracker_connecting h = refl
not_idle tracker_connected h = refl
not_idle tracker_announcing h = refl
not_idle tracker_scraping h = refl

pub stuck_should_run :
    (tr : Tracker) (now later : ℕ) → IsStuck tr → tracker_should_run now later tr ≡ false
unfolding tracker_should_run tracker_should_announce tracker_should_scrape
stuck_should_run tr now later (inl h) = let busy = not_idle tr.status h in ground (arith, busy)
stuck_should_run tr now later (inr h) = ground (arith, h)

-- A tracker that has failed five times, or was left in another status than idle, never runs again:
-- it should not run at any time, and no history changes it.
pub stuck_forever :
    {first tr : Tracker}
    → IsStuck first
    → Reach first tr
    → (tr ≡ first) × ((now later : ℕ) → tracker_should_run now later tr ≡ false)
stuck_forever stuck started = (refl, λ now later. stuck_should_run _ now later stuck)
stuck_forever stuck (ran now later r q h status tr' q' h' reach on e) =
    let (same, never) = stuck_forever stuck reach in absurd (cc (never now later, on))

-- `getaddrinfo` fails in the connect of an announce.
module _ (r : Running) (tr : Tracker) (q : Queue) (h : Nodes FoundPeer) where
  abbrev pub connecting : Tracker
  connecting = tracker_disconnect (record tr { status = tracker_connecting })

  lookup_fails :
      r.announce_connecting.addresses ≡ none
      → tracker_connect r.announce_connecting tr ≡ some (exit_failure, connecting)
  unfolding tracker_connect with_addresses
  lookup_fails e = rw e refl

  busy_should_scrape : (now : ℕ) → tracker_should_scrape now connecting ≡ false
  unfolding tracker_should_scrape tracker_disconnect
  busy_should_scrape now = ground arith

  connecting-IsStuck : IsStuck (record connecting { running = 0 })
  unfolding tracker_disconnect
  connecting-IsStuck = inl (ground arith)

  -- If the name of the host cannot be resolved when a tracker is to be announced, and nothing is
  -- cancelled, then the run fails with the status connecting, with no attempt counted, and no run
  -- ever follows.
  pub lookup_failure_wedges :
      r.is_cancelled ≡ false
      → r.is_cancelled_later ≡ false
      → tracker_should_announce r.announce_clock tr ≡ true
      → r.announce_connecting.addresses ≡ none
      → (tr' : Tracker) × (tracker_run r tr q h ≡ some (exit_failure, tr', q, h))
        × (tr'.status ≡ tracker_connecting)
        × (tr'.message_attempts ≡ tr.message_attempts)
        × ((last : Tracker) → Reach tr' last → last ≡ tr')
  unfolding tracker_run after_announce_connect scrape_part tracker_disconnect
  lookup_failure_wedges c d on e = (
    record connecting { running = 0 },
    simp (c, on, lookup_fails e, d, busy_should_scrape r.scrape_clock) refl,
    ground arith,
    ground arith,
    λ last reach. (stuck_forever connecting-IsStuck reach).0,
  )

other_branch {ℓ} :
    {A : Type ℓ} (b c : Bool) (x y : A)
    → (b && c) ≡ false
    → (if b then (if c then x else y) else y) ≡ y
other_branch true true x y e = cc e
other_branch true false x y e = refl
other_branch false c x y e = refl

-- A reply to a scrape that carries another action or transaction.
module _ (s : Scraping) (tr : Tracker) (q : Queue) (h : Nodes FoundPeer) (buffer : List ℕ) where
  abbrev pub scraping : Tracker
  scraping = finish (record tr { status = tracker_scraping })

  abbrev asking : Tracker
  asking = record tr { status = tracker_scraping }

  stray_receive :
      ((ntohl (u32_of_bytes buffer) == 2)
          && (ntohl (u32_of_bytes (drop 4 buffer)) == to_int s.random))
        ≡ false
      → scrape_receive s buffer asking ≡ (exit_success, asking)
  unfolding scrape_receive
  stray_receive e =
      other_branch (ntohl (u32_of_bytes buffer) == 2)
        (ntohl (u32_of_bytes (drop 4 buffer)) == to_int s.random) _ _ e

  stray_scrape :
      tr.status ≡ tracker_connected
      → scrape_answer s asking ≡ reply buffer
      → scrape_receive s buffer asking ≡ (exit_success, asking)
      → tracker_scrape s tr ≡ some (exit_success, asking)
  unfolding tracker_scrape after_scrape_loop
  stray_scrape connected comes strays =
      let on : is_connected tr.status ≡ true = rw connected refl in rw (on, comes, strays) refl

  scraping-IsStuck : IsStuck scraping
  unfolding tracker_disconnect
  scraping-IsStuck = inl (ground arith)

  -- If the reply to a scrape has not the action and the transaction of the request, then the scrape
  -- succeeds, and leaves a tracker that never runs again.
  pub stray_reply_wedges :
      tr.status ≡ tracker_connected
      → scrape_answer s (record tr { status = tracker_scraping }) ≡ reply buffer
      → ((ntohl (u32_of_bytes buffer) == 2)
          && (ntohl (u32_of_bytes (drop 4 buffer)) == to_int s.random))
        ≡ false
      → (after_scrape (tracker_scrape s tr) q h ≡ some (exit_success, scraping, q, h))
        × ((last : Tracker) → Reach scraping last → last ≡ scraping)
  unfolding after_scrape
  stray_reply_wedges connected comes stray = (
    rw (stray_scrape connected comes (stray_receive stray)) refl,
    λ last reach. (stuck_forever scraping-IsStuck reach).0,
  )
