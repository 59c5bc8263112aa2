-- ===== src/Tracker/Announce/Outcome.antt =====
-- How `tracker_announce` of src/tracker/tracker.c can end, whatever comes.
use uvg_torrent_c.Prelude.{
  ℕ, suc, ◌≡◌, refl, ◌⊎◌, inr, List, Option, none, some, arith, ◌==◌, drop, length,
}
use uvg_torrent_c.Prelude.Words.{to_int}
use uvg_torrent_c.NetUtils.{ntohl, u32_of_bytes}
use uvg_torrent_c.Queue.Heap.{Nodes}
use uvg_torrent_c.Queue.{Queue, Status, exit_success, exit_failure}
use uvg_torrent_c.Tracker.{
  Tracker, tracker_idle, tracker_connected, tracker_announcing, tracker_disconnect,
  tracker_message_failed, tracker_message_succeded,
}
use uvg_torrent_c.Tracker.Exchange.{Answer, waiting, message_failure, cancelled, reply}
use uvg_torrent_c.Tracker.Connect.Outcome.{Each, both_tests}
use uvg_torrent_c.Tracker.Announce.{
  FoundPeer, Announcing, Pushed, push_peers, after_peers, announce_receive, after_announce_loop,
  tracker_announce,
}

-- Idle with no failed attempt; or one attempt more; or still in the request.
abbrev pub AnnounceOutcome : Tracker → Status × Tracker × Queue × Nodes FoundPeer → Type 0
AnnounceOutcome tr (exit_success, tr', q, h) =
    (tr'.status ≡ tracker_idle) × (tr'.message_attempts ≡ 0)
AnnounceOutcome tr (exit_failure, tr', q, h) =
    ((tr'.status ≡ tracker_idle) × (tr'.message_attempts ≡ suc tr.message_attempts))
    ⊎ ((tr'.status ≡ tracker_announcing) × (tr'.message_attempts ≡ tr.message_attempts))

module _ (tr tr' : Tracker) (s : tr'.status ≡ tracker_announcing)
    (a : tr'.message_attempts ≡ tr.message_attempts) where
  failed_outcome :
      (q : Queue) (h : Nodes FoundPeer)
      → AnnounceOutcome tr (exit_failure, tracker_message_failed tr', q, h)
  unfolding tracker_message_failed tracker_disconnect
  failed_outcome q h = ground arith

  peers_outcome :
      (pushed : Option Pushed) (d : ℕ)
      → Each (AnnounceOutcome tr) (after_peers pushed (record tr' { announce_deadline = d }))
  unfolding after_peers tracker_message_succeded
  peers_outcome none d = tt
  peers_outcome (some (exit_failure, q, h)) d = inr (s, a)
  peers_outcome (some (exit_success, q, h)) d = (refl, refl)

  receive_outcome :
      (ann : Announcing) (buffer : List ℕ) (q : Queue) (h : Nodes FoundPeer)
      → Each (AnnounceOutcome tr) (announce_receive ann buffer tr' q h)
  unfolding announce_receive
  receive_outcome ann buffer q h =
      both_tests (Each (AnnounceOutcome tr)) (ntohl (u32_of_bytes buffer) == 1)
        (ntohl (u32_of_bytes (drop 4 buffer)) == to_int ann.random)
        (peers_outcome (push_peers (length buffer) ann.now ann.malloc (drop 20 buffer) q h) _)
        (failed_outcome q h)

  loop_outcome :
      (answer : Answer) (ann : Announcing) (q : Queue) (h : Nodes FoundPeer)
      → Each (AnnounceOutcome tr) (after_announce_loop answer ann tr' q h)
  unfolding after_announce_loop
  loop_outcome waiting ann q h = tt
  loop_outcome message_failure ann q h = failed_outcome q h
  loop_outcome cancelled ann q h = inr (s, a)
  loop_outcome (reply buffer) ann q h = receive_outcome ann buffer q h

-- `tracker_announce` of a connected tracker succeeds idle with no failed attempt, or fails with one
-- attempt more, or fails while it is announcing.
pub announce_outcome :
    (ann : Announcing) (tr : Tracker) (q : Queue) (h : Nodes FoundPeer)
    → tr.status ≡ tracker_connected
    → Each (AnnounceOutcome tr) (tracker_announce ann tr q h)
unfolding tracker_announce
announce_outcome ann tr q h connected =
    rw connected (loop_outcome tr (record tr { status = tracker_announcing }) refl refl _ ann q h)
