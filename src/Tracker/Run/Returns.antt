-- ===== src/Tracker/Run/Returns.antt =====
-- Every call of src/tracker/tracker.c returns: the loops over rounds by their timeout, the loop over
-- the peers by the length of the reply, and the queue without a fault.
use uvg_torrent_c.Prelude.{
  ℕ, zero, suc, ◌^◌, ◌≤◌, ◌≢◌, refl, Bool, true, false, Bool-cases, List, [], ◌∷◌, Option, none,
  some, Option-cases, inl, inr, ltb, not, arith, ◌==◌, if◌then◌else◌, drop, length, length-drop,
}
use native.Mathlib.Nat.{pow-le-pow_right}
use uvg_torrent_c.Prelude.Words.{to_int}
use uvg_torrent_c.NetUtils.{ntohl, u32_of_bytes}
use uvg_torrent_c.Queue.Heap.{Nodes}
use uvg_torrent_c.Queue.{Queue, exit_success, exit_failure, queue_push}
use uvg_torrent_c.Queue.Laws.{Cells, Represents, queue_push_lem}
use uvg_torrent_c.Tracker.{
  Tracker, tracker_connecting, tracker_announcing, tracker_scraping, is_connected,
}
use uvg_torrent_c.Tracker.Exchange.{Round, Answer, waiting, message_failure, cancelled, reply}
use uvg_torrent_c.Tracker.Exchange.Rounds.{Lasts}
use uvg_torrent_c.Tracker.Exchange.Timeout.{round_limit, exchange_ends}
use uvg_torrent_c.Tracker.Connect.{
  Address, Connecting, try_addresses, connect_send, connect_answer, after_connect_loop,
  with_addresses, tracker_connect,
}
use uvg_torrent_c.Tracker.Connect.Outcome.{try_addresses-IsTried}
use uvg_torrent_c.Tracker.Announce.{
  FoundPeer, Announcing, announce_send, announce_answer, Pushed, read_peer, after_push, push_peers,
  after_peers, announce_receive, after_announce_loop, tracker_announce,
}
use uvg_torrent_c.Tracker.Announce.Peers.{IsMalloc}
use uvg_torrent_c.Tracker.Scrape.{
  Scraping, scrape_send, scrape_answer, after_scrape_loop, tracker_scrape,
}

-- Rounds for the longest timeout, 60 * 2 ^ 5 seconds.
abbrev pub IsPatient : List Round → Type 0
IsPatient rounds = Lasts rounds × (384 ≤ length rounds)

limit_bound : (tr : Tracker) → tr.message_attempts ≤ 5 → round_limit tr ≤ 384
limit_bound tr h =
    let high : 2 ^ tr.message_attempts ≤ 2 ^ 5 = pow-le-pow_right (omega arith) h in
    omega (arith, high)

-- A result that is not `none` in either of two tests.
both_return {ℓ} :
    {A : Type ℓ} (b c : Bool) {x y : Option A}
    → x ≢ none
    → y ≢ none
    → (if b then (if c then x else y) else y) ≢ none
both_return true true px py = px
both_return true false px py = py
both_return false c px py = py

-- `tracker_connect`
connect_loop_returns :
    (answer : Answer) (tid : ℕ) (tr : Tracker)
    → answer ≢ waiting
    → after_connect_loop answer tid tr ≢ none
unfolding after_connect_loop
connect_loop_returns waiting tid tr h = absurd (h refl)
connect_loop_returns message_failure tid tr h = λ p. cc p
connect_loop_returns cancelled tid tr h = λ p. cc p
connect_loop_returns (reply buffer) tid tr h = λ p. cc p

addresses_return :
    (addresses : Option (List Address)) (c : Connecting) (tr : Tracker)
    → tr.message_attempts ≤ 5
    → IsPatient c.rounds
    → with_addresses addresses c tr ≢ none
unfolding with_addresses connect_answer
addresses_return none c tr few patient = λ p. cc p
addresses_return (some addresses) c tr few patient =
    let tried = (try_addresses addresses tr).1 in
    let few' : tried.message_attempts ≤ 5 =
      omega (arith, few, (try_addresses-IsTried addresses tr).1) in
    let tid = to_int c.random in
    elim (Bool-cases (try_addresses addresses tr).0) [
      | inl e ↦ rw e (
          connect_loop_returns (connect_answer c.rounds tid tried) tid tried (
            exchange_ends (length (connect_send tid)) 16 (λ n. not (n == 16)) tried
              (omega (arith, few')) c.rounds (omega (arith, patient.1, limit_bound tried few'))
              patient.0))
      | inr e ↦ rw e (λ p. cc p)
    ]

pub connect_returns :
    (c : Connecting) (tr : Tracker)
    → tr.message_attempts ≤ 5
    → IsPatient c.rounds
    → tracker_connect c tr ≢ none
unfolding tracker_connect
connect_returns c tr few patient =
    addresses_return c.addresses c (record tr { status = tracker_connecting }) few patient

-- `tracker_scrape`
scrape_loop_returns :
    (answer : Answer) (s : Scraping) (tr : Tracker)
    → answer ≢ waiting
    → after_scrape_loop answer s tr ≢ none
unfolding after_scrape_loop
scrape_loop_returns waiting s tr h = absurd (h refl)
scrape_loop_returns message_failure s tr h = λ p. cc p
scrape_loop_returns cancelled s tr h = λ p. cc p
scrape_loop_returns (reply buffer) s tr h = λ p. cc p

pub scrape_returns :
    (s : Scraping) (tr : Tracker)
    → tr.message_attempts ≤ 5
    → IsPatient s.rounds
    → tracker_scrape s tr ≢ none
unfolding tracker_scrape scrape_answer
scrape_returns s tr few patient =
    let asking : Tracker = record tr { status = tracker_scraping } in
    let ended = scrape_loop_returns (scrape_answer s asking) s asking (
      exchange_ends (length (scrape_send s.info_hash tr.connection_id (to_int s.random))) 65507
        (λ n. ltb n 8) asking (omega (arith, few)) s.rounds
        (omega (arith, patient.1, limit_bound asking few)) patient.0) in
    elim (Bool-cases (is_connected tr.status)) [ inl e ↦ rw e ended | inr e ↦ rw e (λ p. cc p) ]

-- `tracker_announce`
module _ (now : ℕ) (malloc : Nodes FoundPeer → Option ℕ) (lawful : IsMalloc malloc) where
  abbrev Holds : Queue → Nodes FoundPeer → Type 0
  Holds q h = (ns : Cells FoundPeer) × Represents q h ns

  push_peers_returns :
      (fuel : ℕ) (buffer : List ℕ) (q : Queue) (h : Nodes FoundPeer)
      → length buffer ≤ fuel
      → Holds q h
      → push_peers fuel now malloc buffer q h ≢ none
  unfolding push_peers after_push queue_push
  push_peers_returns fuel [] q h enough holds = λ p. cc p
  push_peers_returns zero (b ∷ bs) q h enough holds = absurd (omega arith)
  push_peers_returns (suc fuel) (b ∷ bs) q h enough (ns, r) =
      let found = read_peer now (b ∷ bs) in
      let rest = drop 6 (b ∷ bs) in
      let shorter : length rest ≤ fuel = omega (arith, enough, length-drop 6 (b ∷ bs)) in
      elim (Bool-cases (found.ip == 0)) [
        | inl e ↦ rw e (λ p. cc p)
        | inr e ↦ elim (Option-cases (malloc h)) [
          | inl full ↦ rw (e, full) (λ p. cc p)
          | inr (a, given) ↦
              let (q', h', run, r') = queue_push_lem a found q h ns (lawful h a given) r in
              rw (e, given, run) (push_peers_returns fuel rest q' h' shorter (_, r'))
        ]
      ]

after_peers_returns :
    (pushed : Option Pushed) (tr : Tracker) → pushed ≢ none → after_peers pushed tr ≢ none
unfolding after_peers
after_peers_returns none tr h = absurd (h refl)
after_peers_returns (some (exit_success, q, h')) tr h = λ p. cc p
after_peers_returns (some (exit_failure, q, h')) tr h = λ p. cc p

module _ (a : Announcing) (lawful : IsMalloc a.malloc) (q : Queue) (h : Nodes FoundPeer)
    (ns : Cells FoundPeer) (r : Represents q h ns) where
  announce_loop_returns :
      (answer : Answer) (tr : Tracker)
      → answer ≢ waiting
      → after_announce_loop answer a tr q h ≢ none
  unfolding after_announce_loop announce_receive
  announce_loop_returns waiting tr w = absurd (w refl)
  announce_loop_returns message_failure tr w = λ p. cc p
  announce_loop_returns cancelled tr w = λ p. cc p
  announce_loop_returns (reply buffer) tr w =
      both_return (ntohl (u32_of_bytes buffer) == 1)
        (ntohl (u32_of_bytes (drop 4 buffer)) == to_int a.random)
        (after_peers_returns (push_peers (length buffer) a.now a.malloc (drop 20 buffer) q h) _ (
          push_peers_returns a.now a.malloc lawful (length buffer) (drop 20 buffer) q h
            (omega (arith, length-drop 20 buffer)) (ns, r)))
        (λ p. cc p)

  pub announce_returns :
      (tr : Tracker)
      → tr.message_attempts ≤ 5
      → IsPatient a.rounds
      → tracker_announce a tr q h ≢ none
  unfolding tracker_announce announce_answer
  announce_returns tr few patient =
      let asking : Tracker = record tr { status = tracker_announcing } in
      let ended =
        announce_loop_returns (announce_answer a.fields a.rounds (to_int a.random) a.s_addr asking)
          asking
          (exchange_ends
            (length (announce_send a.fields tr.connection_id (to_int a.random) a.s_addr)) 65507
            (λ n. ltb n 20) asking (omega (arith, few)) a.rounds
            (omega (arith, patient.1, limit_bound asking few)) patient.0) in
      elim (Bool-cases (is_connected tr.status)) [ inl e ↦ rw e ended | inr e ↦ rw e (λ p. cc p) ]
