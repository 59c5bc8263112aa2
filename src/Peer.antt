-- ===== src/Peer.antt =====
-- The peer of src/peer/peer.h, peer.c, peer_connect.c and peer_messages.c: its state, and the reader
-- of messages over the buffered socket. The address of the peer is not kept, and the nodes of its
-- progress queue are in a heap that is passed along.
mod Tests
pub mod Example
pub mod Stream
pub mod Reading
pub mod Progress
pub mod Messages
pub mod Network
pub mod Requests
pub mod Pieces
pub mod Bencode
pub mod Connect
pub mod Metadata
pub mod Arriving
pub mod Run
use uvg_torrent_c.Prelude.{
  ℕ, ◌+◌, ◌*◌, Bool, true, false, ◌||◌, List, [], ◌∷◌, ◌++◌, Option, none, some, ltb, ◌==◌,
  if◌then◌else◌, get_or,
}
use uvg_torrent_c.Prelude.Words.{sub64, to_int}
use uvg_torrent_c.Bitfield.{Bitfield}
use uvg_torrent_c.Queue.{Queue, queue_new}
use uvg_torrent_c.BufferedSocket.{
  BufferedSocket, ReadResult, disconnected, not_enough, bytes_read, buffered_socket_read, can_read,
}
use uvg_torrent_c.NetUtils.{ntohl, u32_bytes, u32_of_bytes}

pub data PeerStatus : Type 0 where
  peer_unconnected peer_connecting peer_connected peer_handshake_sent peer_handshake_complete :
      PeerStatus

-- `socket` is `none` where it is NULL.
pub record Peer : Type 0 where
  pub socket : Option BufferedSocket
  pub ut_metadata : ℕ
  pub ut_metadata_size : ℕ
  pub running : ℕ
  pub am_choking : ℕ
  pub am_interested : ℕ
  pub peer_choking : ℕ
  pub peer_interested : ℕ
  pub status : PeerStatus
  pub reconnect_deadline : ℕ
  pub network_ordered_msg_length : ℕ
  pub network_ordered_msg_length_loaded : ℕ
  pub msg_id : ℕ
  pub msg_id_loaded : ℕ
  pub uploader : ℕ
  pub msg_bitfield_sent : ℕ
  pub pending_request_count : ℕ
  pub peer_bitfield : Option Bitfield
  pub ut_metadata_requested : Option Bitfield
  pub progress_queue : Queue

unfoldable pub peer_reset : ℕ → Peer → Peer
peer_reset now p = record p {
  ut_metadata = 0;
  ut_metadata_size = 0;
  running = 0;
  am_choking = 1;
  am_interested = 0;
  peer_choking = 1;
  peer_interested = 0;
  status = peer_unconnected;
  reconnect_deadline = now;
  network_ordered_msg_length = 0;
  network_ordered_msg_length_loaded = 0;
  msg_id = 0;
  msg_id_loaded = 0;
  uploader = 0;
  msg_bitfield_sent = 0;
  pending_request_count = 0;
}

unfoldable pub peer_disconnect : ℕ → Peer → Peer
peer_disconnect now p = record (peer_reset now (record p { socket = none })) {
  reconnect_deadline = now + 30 * 1000;
}

-- `VALID_MSG_IDS`
abbrev pub valid_msg_ids : List ℕ
valid_msg_ids = 0 ∷ 1 ∷ 2 ∷ 3 ∷ 4 ∷ 5 ∷ 6 ∷ 7 ∷ 8 ∷ 9 ∷ 20 ∷ []

abbrev pub is_one_of : List ℕ → ℕ → Bool
is_one_of [] msg_id = false
is_one_of (v ∷ vs) msg_id = (v == msg_id) || is_one_of vs msg_id

unfoldable pub is_valid_msg_id : ℕ → Bool
is_valid_msg_id msg_id = is_one_of valid_msg_ids msg_id

-- What `peer_read_message` returns: the buffer, or NULL. `null_socket` is the use of a NULL socket.
pub data ReadMessage : Type 0 where
  message : List ℕ → ReadMessage
  no_message : ReadMessage
  null_socket : ReadMessage

abbrev pub with_socket : Peer → BufferedSocket → Peer
with_socket p s = record p { socket = some s }

abbrev pub forget_message : Peer → Peer
forget_message p = record p {
  network_ordered_msg_length = 0;
  network_ordered_msg_length_loaded = 0;
  msg_id = 0;
  msg_id_loaded = 0;
}

-- The length and the id at the front of the buffer.
abbrev pub msg_header : Peer → List ℕ
msg_header p = u32_bytes p.network_ordered_msg_length ++ (p.msg_id ∷ [])

-- After `buffered_socket_read` of the rest of the message.
unfoldable pub after_body : ℕ → Peer → ReadResult × BufferedSocket → ReadMessage × Peer
after_body now p (disconnected, s) = (no_message, peer_disconnect now p)
after_body now p (not_enough, s) = (no_message, with_socket p s)
after_body now p (bytes_read bs, s) =
    (message (msg_header p ++ bs), forget_message (with_socket p s))

-- `malloc_ok` is whether `malloc` of the buffer succeeds.
unfoldable pub read_body : Bool → ℕ → Peer → BufferedSocket → ReadMessage × Peer
read_body malloc_ok now p s =
    let msg_length : ℕ = ntohl p.network_ordered_msg_length in
    let total_expected_bytes : ℕ = to_int (sub64 (4 + msg_length) 5) in
    if msg_length == 0
    then (no_message, with_socket p s)
    else if malloc_ok
    then (if ltb 0 total_expected_bytes
        then after_body now p (buffered_socket_read s total_expected_bytes)
        else (message (msg_header p), forget_message (with_socket p s)))
    else (no_message, peer_disconnect now p)

unfoldable pub check_id : Bool → ℕ → Peer → BufferedSocket → ReadMessage × Peer
check_id malloc_ok now p s =
    if is_valid_msg_id p.msg_id
    then read_body malloc_ok now p s
    else (no_message, peer_disconnect now p)

unfoldable pub after_id : Bool → ℕ → Peer → ReadResult × BufferedSocket → ReadMessage × Peer
after_id malloc_ok now p (disconnected, s) = (no_message, peer_disconnect now p)
after_id malloc_ok now p (not_enough, s) = (no_message, with_socket p s)
after_id malloc_ok now p (bytes_read bs, s) =
    check_id malloc_ok now (record p { msg_id = get_or bs 0 0; msg_id_loaded = 1 }) s

unfoldable pub read_id : Bool → ℕ → Peer → BufferedSocket → ReadMessage × Peer
read_id malloc_ok now p s =
    if p.msg_id_loaded == 0
    then after_id malloc_ok now p (buffered_socket_read s 1)
    else check_id malloc_ok now p s

unfoldable pub after_length : Bool → ℕ → Peer → ReadResult × BufferedSocket → ReadMessage × Peer
after_length malloc_ok now p (disconnected, s) = (no_message, peer_disconnect now p)
after_length malloc_ok now p (not_enough, s) = (no_message, with_socket p s)
after_length malloc_ok now p (bytes_read bs, s) =
    read_id malloc_ok now
      (record p {
        network_ordered_msg_length = u32_of_bytes bs;
        network_ordered_msg_length_loaded = 1;
      })
      s

-- By `p->socket`.
unfoldable pub read_from : Bool → ℕ → Peer → Option BufferedSocket → ReadMessage × Peer
read_from malloc_ok now p none = (null_socket, p)
read_from malloc_ok now p (some s) =
    if p.network_ordered_msg_length_loaded == 0
    then after_length malloc_ok now p (buffered_socket_read s 4)
    else read_id malloc_ok now p s

unfoldable pub peer_read_message : Bool → ℕ → Peer → ReadMessage × Peer
peer_read_message malloc_ok now p = read_from malloc_ok now p p.socket

-- The address is not kept. `peer_reset` sets all the other fields but the socket.
unfoldable pub peer_new : ℕ → Peer
peer_new now = peer_reset now (record {
  socket = none;
  ut_metadata = 0;
  ut_metadata_size = 0;
  running = 0;
  am_choking = 0;
  am_interested = 0;
  peer_choking = 0;
  peer_interested = 0;
  status = peer_unconnected;
  reconnect_deadline = 0;
  network_ordered_msg_length = 0;
  network_ordered_msg_length_loaded = 0;
  msg_id = 0;
  msg_id_loaded = 0;
  uploader = 0;
  msg_bitfield_sent = 0;
  pending_request_count = 0;
  peer_bitfield = none;
  ut_metadata_requested = none;
  progress_queue = queue_new;
})
