-- ===== src/Tracker/Tests.antt =====
-- The laws of the requests of src/tracker/tracker.c at concrete trackers.
use uvg_torrent_c.Prelude.{ℕ, ◌≡◌, refl, List, [], ◌∷◌, ◌++◌, some, not, ◌==◌, arith, replicate}
use uvg_torrent_c.Queue.Heap.{Nodes}
use uvg_torrent_c.Queue.{Queue, Status, queue_new}
use uvg_torrent_c.Tracker.{Tracker, tracker_connecting, tracker_connected, tracker_get_timeout}
use uvg_torrent_c.Tracker.Exchange.{Round, Answer, waiting, message_failure, reply, exchange}
use uvg_torrent_c.Tracker.Exchange.Rounds.{quiet_round}
use uvg_torrent_c.Tracker.Exchange.Timeout.{waits_for_timeout}
use uvg_torrent_c.Tracker.Announce.{FoundPeer, tracker_announce}
use uvg_torrent_c.Tracker.Announce.Arrival.{
  answering_round, answering_round_end, IsReply, IsAnnounced, announce_lem,
}
use uvg_torrent_c.NetUtils.{u32_bytes}
use uvg_torrent_c.NetUtils.Wide.{u16_bytes}
use uvg_torrent_c.Tracker.Example.{
  tracker_with, malloc_seven-IsMalloc, announce_reply, announcing, empty_heap, empty-Represents,
}

abbrev ten_bytes : List ℕ
ten_bytes = replicate 10 7

abbrev one_reply : Round
one_reply = answering_round 16 ten_bytes

abbrev wait : List Round → Answer
wait rounds =
    exchange 16 16 (λ n. not (n == 10)) rounds
      (tracker_get_timeout (tracker_with tracker_connecting 0))

-- In the fourth of the twelve rounds of the first timeout.
waits_for_timeout_example :
    (wait (replicate 3 (quiet_round 16)) ≡ waiting)
    × (wait (replicate 3 (quiet_round 16) ++ (one_reply ∷ [])) ≡ reply ten_bytes)
    × (wait (replicate 12 (quiet_round 16) ++ []) ≡ message_failure)
waits_for_timeout_example =
    waits_for_timeout 16 16 (λ n. not (n == 10)) (tracker_with tracker_connecting 0) (omega arith) 3
      one_reply [] (reply ten_bytes) (omega arith)
      (answering_round_end 16 16 (λ n. not (n == 10)) 7 (replicate 9 7) (omega arith) refl)

announce_reply-IsReply : IsReply announcing announce_reply
unfolding u32_bytes u16_bytes
announce_reply-IsReply =
    (refl, omega arith, omega arith, ((λ p. ground (arith, p), omega arith, omega arith), tt))

announce_lem_example :
    (status : Status) × (tr' : Tracker) × (q' : Queue) × (h' : Nodes FoundPeer) × (tracker_announce
        announcing
        (tracker_with tracker_connected 0)
        queue_new
        empty_heap
      ≡ some (status, tr', q', h'))
    × IsAnnounced announcing malloc_seven-IsMalloc announce_reply [] status tr' q' h'
announce_lem_example =
    announce_lem announcing malloc_seven-IsMalloc announce_reply []
      (tracker_with tracker_connected 0) queue_new empty_heap 2 [] refl (omega arith)
      empty-Represents announce_reply-IsReply (omega arith) refl
