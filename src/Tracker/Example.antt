-- ===== src/Tracker/Example.antt =====
-- Trackers, a reply and a heap for the tests of the tracker of src/tracker/tracker.c.
use uvg_torrent_c.Prelude.{
  ℕ, ◌≡◌, refl, [], ◌∷◌, ◌++◌, Option, none, some, arith, length, replicate,
}
use uvg_torrent_c.Queue.Heap.{Node, Nodes}
use uvg_torrent_c.Queue.{queue_new}
use uvg_torrent_c.Queue.Laws.{Represents}
use uvg_torrent_c.Tracker.{Tracker, TrackerStatus}
use uvg_torrent_c.Tracker.Exchange.Rounds.{quiet_round}
use uvg_torrent_c.Tracker.Announce.{FoundPeer, AnnounceFields, Announcing, announce_send}
use uvg_torrent_c.Tracker.Announce.Peers.{IsMalloc}
use uvg_torrent_c.Tracker.Announce.Arrival.{answering_round, AnnounceReply, reply_bytes}

abbrev pub tracker_with : TrackerStatus → ℕ → Tracker
tracker_with status attempts = record {
  public_ip = [];
  url = [];
  host = [];
  port = 6969;
  connection_id = 99;
  announce_deadline = 0;
  scrape_deadline = 0;
  seeders = 0;
  leechers = 0;
  socket = 0;
  status = status;
  message_attempts = attempts;
  running = 1;
}

-- A heap with room for one node.
abbrev pub at_seven : Option (Node FoundPeer) → Option ℕ
at_seven none = some 7
at_seven (some n) = none

abbrev pub malloc_seven : Nodes FoundPeer → Option ℕ
malloc_seven h = at_seven (h 7)

at_seven-free : (n : Option (Node FoundPeer)) (a : ℕ) → at_seven n ≡ some a → (n ≡ none) × (a ≡ 7)
at_seven-free none a e = (refl, ground (arith, e))
at_seven-free (some n) a e = absurd (cc e)

pub malloc_seven-IsMalloc : IsMalloc malloc_seven
malloc_seven-IsMalloc h a e = let (free, same) = at_seven-free (h 7) a e in rw same free

abbrev pub fields : AnnounceFields
fields = record {
  downloaded = 0;
  left = 1000;
  uploaded = 0;
  port = 6881;
  info_hash = replicate 20 3;
}

abbrev pub announce_reply : AnnounceReply
announce_reply = record {
  transaction_id = 42;
  interval = 1800;
  leechers = 1;
  seeders = 1;
  peers = record { ip = 2130706433; port = 6881 } ∷ [];
}

abbrev pub announcing : Announcing
announcing = record {
  fields = fields;
  random = 42;
  s_addr = 0;
  rounds =
      replicate 2 (quiet_round (length (announce_send fields 99 42 0)))
      ++ (answering_round (length (announce_send fields 99 42 0)) (reply_bytes announce_reply)
          ∷ []);
  now = 1000000;
  malloc = malloc_seven;
}

abbrev pub empty_heap : Nodes FoundPeer
empty_heap a = none

pub empty-Represents : Represents queue_new empty_heap []
unfolding queue_new
empty-Represents = record { counted = refl; starts = refl; ends = tt; linked = tt }
