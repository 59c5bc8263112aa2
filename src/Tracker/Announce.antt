-- ===== src/Tracker/Announce.antt =====
-- `tracker_announce` of src/tracker/tracker.c. The peers go to the queue of src/thread_pool/queue.c;
-- `malloc` gives each node an address by what the heap holds, `none` being NULL.
pub mod Peers
pub mod Arrival
pub mod Outcome
use uvg_torrent_c.Prelude.{
  ℕ, suc, zero, ◌*◌, ◌%◌, ◌^◌, Bool, true, false, List, [], ◌∷◌, ◌++◌, Option, none, some, ltb,
  ◌==◌, if◌then◌else◌, drop, length, replicate,
}
use uvg_torrent_c.Prelude.Words.{to_int, add64, extend64}
use uvg_torrent_c.NetUtils.{ntohl, htonl, u32_bytes, u32_of_bytes}
use uvg_torrent_c.NetUtils.Wide.{htonll, htons, ntohs, u16_bytes, u16_of_bytes, u64_bytes}
use uvg_torrent_c.Queue.Heap.{Nodes}
use uvg_torrent_c.Queue.{Queue, Status, exit_success, exit_failure, queue_push}
use uvg_torrent_c.Peer.{Peer, peer_new}
use uvg_torrent_c.Tracker.{
  Tracker, tracker_idle, tracker_announcing, is_connected, tracker_get_timeout,
  tracker_message_failed, tracker_message_succeded,
}
use uvg_torrent_c.Tracker.Exchange.{
  Round, Answer, waiting, message_failure, cancelled, reply, exchange,
}

-- A peer with its address: the two arguments of `peer_new`.
pub record FoundPeer : Type 0 where
  pub ip : ℕ
  pub port : ℕ
  pub peer : Peer

-- `struct TRACKER_UDP_ANNOUNCE_SEND` with the arguments of the call that go into it.
pub record AnnounceFields : Type 0 where
  pub downloaded : ℕ
  pub left : ℕ
  pub uploaded : ℕ
  pub port : ℕ
  pub info_hash : List ℕ

-- What the system answers: `random`, `s_addr` behind `inet_pton`, the rounds, the clock.
pub record Announcing : Type 0 where
  pub fields : AnnounceFields
  pub random : ℕ
  pub s_addr : ℕ
  pub rounds : List Round
  pub now : ℕ
  pub malloc : Nodes FoundPeer → Option ℕ

-- `*"UVG01234567891234567"` is one character, so the other 19 bytes of `peer_id` are 0.
unfoldable pub announce_send : AnnounceFields → ℕ → ℕ → ℕ → List ℕ
announce_send f connection_id transaction_id s_addr =
    u64_bytes (htonll connection_id)
    ++ (u32_bytes (htonl 1)
        ++ (u32_bytes (htonl transaction_id)
            ++ (f.info_hash
                ++ ((85 ∷ replicate 19 0)
                    ++ (u64_bytes (htonll f.downloaded)
                        ++ (u64_bytes (htonll f.left)
                            ++ (u64_bytes (htonll f.uploaded)
                                ++ (u32_bytes (htonl 0)
                                    ++ (u32_bytes (htonl s_addr)
                                        ++ (u32_bytes (htonl 1)
                                            ++ (u32_bytes (htonl 4294967295)
                                                ++ (u16_bytes (htons f.port)
                                                    ++ u16_bytes (htons 0)))))))))))))

-- The loop of `tracker_announce`, for a buffer of 65507 bytes and a reply not shorter than
-- `struct TRACKER_UDP_ANNOUNCE_RECEIVE`.
unfoldable pub announce_answer : AnnounceFields → List Round → ℕ → ℕ → Tracker → Answer
announce_answer f rounds transaction_id s_addr tr =
    exchange (length (announce_send f tr.connection_id transaction_id s_addr)) 65507 (λ n. ltb n 20)
      rounds (tracker_get_timeout tr)

abbrev pub Pushed : Type 0
Pushed = Status × Queue × Nodes FoundPeer

-- `struct TRACKER_UDP_ANNOUNCE_RECEIVE_PEER` at `position`, and the peer made of it.
unfoldable pub read_peer : (now : ℕ) → List ℕ → FoundPeer
read_peer now buffer = record {
  ip = ntohl (u32_of_bytes buffer);
  port = ntohs (u16_of_bytes (drop 4 buffer));
  peer = peer_new now;
}

-- Behind a push: the next peer, or `throw`.
unfoldable pub after_push :
    Option Pushed → (Queue → Nodes FoundPeer → Option Pushed) → Option Pushed
after_push none next = none
after_push (some (exit_failure, q, h)) next = some (exit_failure, q, h)
after_push (some (exit_success, q, h)) next = next q h

-- The loop over the peers of a reply, from `position` on; the buffer is 0 behind the reply. The
-- result `none` is a fault of the queue, or the end of the fuel.
unfoldable pub push_peers :
    ℕ → (now : ℕ) → (Nodes FoundPeer → Option ℕ) → List ℕ → Queue → Nodes FoundPeer → Option Pushed
push_peers fuel now malloc [] q h = some (exit_success, q, h)
push_peers zero now malloc (b ∷ bs) q h = none
push_peers (suc fuel) now malloc (b ∷ bs) q h =
    let found = read_peer now (b ∷ bs) in
    let rest = drop 6 (b ∷ bs) in
    if found.ip == 0
    then some (exit_success, q, h)
    else after_push (queue_push (malloc h) found q h)
        (λ q' h'. push_peers fuel now malloc rest q' h')

-- `now() + interval * 1000`, where the product is an `int`.
unfoldable pub next_announce : ℕ → ℕ → ℕ
next_announce now interval = add64 now (extend64 (to_int (interval * 1000)))

-- Behind the loop over the peers.
unfoldable pub after_peers :
    Option Pushed → Tracker → Option (Status × Tracker × Queue × Nodes FoundPeer)
after_peers none tr = none
after_peers (some (exit_failure, q, h)) tr = some (exit_failure, tr, q, h)
after_peers (some (exit_success, q, h)) tr =
    some (exit_success, record (tracker_message_succeded tr) { status = tracker_idle }, q, h)

-- What follows the loop over the rounds.
unfoldable pub announce_receive :
    Announcing
    → List ℕ
    → Tracker
    → Queue
    → Nodes FoundPeer
    → Option (Status × Tracker × Queue × Nodes FoundPeer)
announce_receive a buffer tr q h =
    let action = ntohl (u32_of_bytes buffer) in
    let transaction = ntohl (u32_of_bytes (drop 4 buffer)) in
    let interval = ntohl (u32_of_bytes (drop 8 buffer)) in
    let tr' = record tr { announce_deadline = next_announce a.now interval } in
    let failed : Option (Status × Tracker × Queue × Nodes FoundPeer) =
      some (exit_failure, tracker_message_failed tr, q, h) in
    if action == 1
    then (if transaction == to_int a.random
        then after_peers (push_peers (length buffer) a.now a.malloc (drop 20 buffer) q h) tr'
        else failed)
    else failed

unfoldable pub after_announce_loop :
    Answer
    → Announcing
    → Tracker
    → Queue
    → Nodes FoundPeer
    → Option (Status × Tracker × Queue × Nodes FoundPeer)
after_announce_loop waiting a tr q h = none
after_announce_loop message_failure a tr q h = some (exit_failure, tracker_message_failed tr, q, h)
after_announce_loop cancelled a tr q h = some (exit_failure, tr, q, h)
after_announce_loop (reply buffer) a tr q h = announce_receive a buffer tr q h

-- The result is `none` where the rounds are over before the call returns, or for a fault of the
-- queue.
unfoldable pub tracker_announce :
    Announcing
    → Tracker
    → Queue
    → Nodes FoundPeer
    → Option (Status × Tracker × Queue × Nodes FoundPeer)
tracker_announce a tr q h =
    let tr' = record tr { status = tracker_announcing } in
    if is_connected tr.status
    then after_announce_loop (announce_answer a.fields a.rounds (to_int a.random) a.s_addr tr') a
        tr' q h
    else some (exit_failure, tr, q, h)
