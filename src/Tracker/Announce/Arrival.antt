-- ===== src/Tracker/Announce/Arrival.antt =====
-- An announce of src/tracker/tracker.c that the tracker answers, from the request to the queue.
use uvg_torrent_c.Prelude.{
  ℕ, ◌+◌, ◌*◌, ◌^◌, ◌≤◌, ◌<◌, ◌≡◌, refl, ap, ◌∙◌, Bool, true, false, List, [], ◌∷◌, ◌++◌, some, ltb,
  ◌==◌, arith, length, drop, take-length, replicate,
}
use uvg_torrent_c.Prelude.Words.{to_int}
use uvg_torrent_c.NetUtils.{
  ntohl, htonl, u32_bytes, u32_of_bytes, ntohl-htonl, htonl-lt, u32_of_bytes-u32_bytes,
}
use uvg_torrent_c.NetUtils.Waiting.{poll_in, poll_turn, read_poll, read_datagram}
use uvg_torrent_c.Queue.Heap.{Nodes}
use uvg_torrent_c.Queue.{Queue, Status, exit_success, exit_failure}
use uvg_torrent_c.Queue.Laws.{Cells, Represents}
use uvg_torrent_c.Tracker.{
  Tracker, tracker_idle, tracker_connected, tracker_announcing, tracker_message_succeded,
}
use uvg_torrent_c.Tracker.Exchange.{Round, reply, ends, after_read, round_end}
use uvg_torrent_c.Tracker.Exchange.Rounds.{quiet_round}
use uvg_torrent_c.Tracker.Exchange.Timeout.{round_limit, waits_for_timeout}
use uvg_torrent_c.Tracker.Announce.{
  FoundPeer, Announcing, announce_send, announce_answer, push_peers, next_announce, after_peers,
  announce_receive, after_announce_loop, tracker_announce,
}
use uvg_torrent_c.Tracker.Announce.Peers.{
  Endpoint, peers_bytes, length-peers_bytes, AreEndpoints, IsMalloc, Arrived, push_peers_lem,
}

-- A round in which the datagram `bytes` comes at once.
abbrev pub answering_round : ℕ → List ℕ → Round
answering_round size bytes = record {
  written = some size;
  turns = record { answer = poll_in (some bytes); is_cancelled = false } ∷ [];
  is_cancelled = false;
}

pub answering_round_end :
    (size buffer : ℕ) (is_corrupt : ℕ → Bool) (b : ℕ) (bs : List ℕ)
    → length (b ∷ bs) ≤ buffer
    → is_corrupt (length (b ∷ bs)) ≡ false
    → round_end size buffer is_corrupt (answering_round size (b ∷ bs)) ≡ ends (reply (b ∷ bs))
unfolding round_end after_read read_poll poll_turn read_datagram
answering_round_end size buffer is_corrupt b bs fits good =
    let same : (size == size) ≡ true = ground arith in
    rw (same, take-length buffer (b ∷ bs) fits, good) refl

-- `struct TRACKER_UDP_ANNOUNCE_RECEIVE`
pub record AnnounceReply : Type 0 where
  pub transaction_id : ℕ
  pub interval : ℕ
  pub leechers : ℕ
  pub seeders : ℕ
  pub peers : List Endpoint

abbrev pub reply_bytes : AnnounceReply → List ℕ
reply_bytes m =
    u32_bytes (htonl 1)
    ++ (u32_bytes (htonl m.transaction_id)
        ++ (u32_bytes (htonl m.interval)
            ++ (u32_bytes (htonl m.leechers)
                ++ (u32_bytes (htonl m.seeders) ++ peers_bytes m.peers))))

length-reply_bytes :
    (m : AnnounceReply) → length (reply_bytes m) ≡ 20 + length (peers_bytes m.peers)
unfolding u32_bytes
length-reply_bytes m = omega arith

field :
    (n : ℕ) (rest : List ℕ) → n < 2 ^ 32 → ntohl (u32_of_bytes (u32_bytes (htonl n) ++ rest)) ≡ n
field n rest h = ap ntohl (u32_of_bytes-u32_bytes (htonl n) rest (htonl-lt n)) ∙ ntohl-htonl n h

-- An interval of up to 24 days does not wrap.
pub next_announce-small :
    (now interval : ℕ)
    → interval ≤ 2147483
    → now < 2 ^ 63
    → next_announce now interval ≡ now + interval * 1000
unfolding next_announce
next_announce-small now interval short bound =
    let product : interval * 1000 < 2 ^ 31 = omega arith in ground arith

abbrev pub IsReply : Announcing → AnnounceReply → Type 0
IsReply a m =
    (m.transaction_id ≡ to_int a.random)
    × (m.interval < 2 ^ 32)
    × (length (reply_bytes m) ≤ 65507)
    × AreEndpoints m.peers

-- A failed push leaves the status.
abbrev pub EndsAs : Status → Tracker → Type 0
EndsAs exit_success tr = (tr.status ≡ tracker_idle) × (tr.message_attempts ≡ 0)
EndsAs exit_failure tr = tr.status ≡ tracker_announcing

module _ (a : Announcing) (lawful : IsMalloc a.malloc) (m : AnnounceReply)
    (ns : Cells FoundPeer) where
  pub record IsAnnounced (status : Status) (tr : Tracker) (q : Queue) (h : Nodes FoundPeer)
      : Type 0 where
    pub arrived : Arrived a.now a.malloc lawful m.peers ns (status, q, h)
    pub deadline : tr.announce_deadline ≡ next_announce a.now m.interval
    pub ended : EndsAs status tr

  announce_receive-reply :
      (tr : Tracker) (q : Queue) (h : Nodes FoundPeer)
      → IsReply a m
      → announce_receive a (reply_bytes m) tr q h
        ≡ after_peers
            (push_peers (length (reply_bytes m)) a.now a.malloc (peers_bytes m.peers) q h)
            (record tr { announce_deadline = next_announce a.now m.interval })
  unfolding announce_receive u32_bytes
  announce_receive-reply tr q h (transaction, interval_bound, fits, valid) =
      let action : ntohl (u32_of_bytes (reply_bytes m)) ≡ 1 = field 1 _ (omega arith) in
      let asked : ntohl (u32_of_bytes (drop 4 (reply_bytes m))) ≡ to_int a.random =
        field m.transaction_id _ (omega (arith, transaction)) ∙ transaction in
      let interval : ntohl (u32_of_bytes (drop 8 (reply_bytes m))) ≡ m.interval =
        field m.interval _ interval_bound in
      let same : (to_int a.random == to_int a.random) ≡ true = ground arith in
      rw (action, asked, interval, same) refl

  after_peers-Announced :
      (tr : Tracker) (status : Status) (q : Queue) (h : Nodes FoundPeer)
      → tr.status ≡ tracker_announcing
      → tr.announce_deadline ≡ next_announce a.now m.interval
      → Arrived a.now a.malloc lawful m.peers ns (status, q, h)
      → (tr' : Tracker) × (after_peers (some (status, q, h)) tr ≡ some (status, tr', q, h))
        × IsAnnounced status tr' q h
  unfolding after_peers tracker_message_succeded
  after_peers-Announced tr exit_success q h s d arrived =
      (_, refl, record { arrived = arrived; deadline = d; ended = (refl, refl) })
  after_peers-Announced tr exit_failure q h s d arrived =
      (_, refl, record { arrived = arrived; deadline = d; ended = s })

  -- A reply to an announce that comes in time, with the transaction of the request and valid peers:
  -- `tracker_announce` gives its peers to the queue, sets the deadline, and succeeds, idle and with no
  -- failed attempt, unless memory runs out.
  pub announce_lem :
      (tr : Tracker) (q : Queue) (h : Nodes FoundPeer) (j : ℕ) (rest : List Round)
      → tr.status ≡ tracker_connected
      → tr.message_attempts ≤ 20
      → Represents q h ns
      → IsReply a m
      → j < round_limit tr
      → a.rounds
        ≡ replicate j (
            quiet_round
              (length (announce_send a.fields tr.connection_id (to_int a.random) a.s_addr)))
          ++ (answering_round
                (length (announce_send a.fields tr.connection_id (to_int a.random) a.s_addr))
                (reply_bytes m)
              ∷ rest)
      → (status : Status) × (tr' : Tracker) × (q' : Queue) × (h' : Nodes FoundPeer)
        × (tracker_announce a tr q h ≡ some (status, tr', q', h'))
        × IsAnnounced status tr' q' h'
  unfolding tracker_announce announce_answer after_announce_loop u32_bytes
  announce_lem tr q h j rest connected few r valid early comes =
      let size = length (announce_send a.fields tr.connection_id (to_int a.random) a.s_addr) in
      let asking : Tracker = record tr { status = tracker_announcing } in
      let long : ltb (length (reply_bytes m)) 20 ≡ false = ground (arith, length-reply_bytes m) in
      let answered : announce_answer a.fields a.rounds (to_int a.random) a.s_addr asking
          ≡ reply (reply_bytes m) =
        rw comes (
          (waits_for_timeout size 65507 (λ n. ltb n 20) asking few j
            (answering_round size (reply_bytes m)) rest (reply (reply_bytes m)) early
            (answering_round_end size 65507 (λ n. ltb n 20) _ _ valid.2 long)).1) in
      let (result, pushed, arrived) =
        push_peers_lem a.now a.malloc lawful (length (reply_bytes m)) m.peers q h ns
          (omega (arith, length-reply_bytes m, length-peers_bytes m.peers)) valid.3 r in
      let (tr', ended, done) =
        after_peers-Announced (record asking { announce_deadline = next_announce a.now m.interval })
          result.0 result.1 result.2 refl refl arrived in
      (
        result.0,
        tr',
        result.1,
        result.2,
        rw (connected, answered) (announce_receive-reply asking q h valid ∙ rw pushed ended),
        done,
      )
