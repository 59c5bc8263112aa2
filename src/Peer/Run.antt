-- ===== src/Peer/Run.antt =====
-- `peer_run` and `peer_should_handle_network_buffers` of src/peer/peer.c: the steps of a run in their
-- order, over the peer and what it shares with the torrent. What the system answers in a run is an
-- argument. The result `none` is a fault of a step.
mod State
mod Tests
pub mod Sending
pub mod Reading
pub mod Linked
pub mod Opening
pub mod Asking
pub mod Writing
pub mod Handled
pub mod Extensions
pub mod Ends
pub mod Quiet
pub mod Dialing
pub mod Returns
unfoldable pub use State.*
use uvg_torrent_c.Prelude.{
  ℕ, zero, suc, ◌+◌, Bool, true, false, ◌&&◌, ◌||◌, List, [], ◌∷◌, ◌++◌, Option, none, some, ◌==◌,
  if◌then◌else◌,
}
use uvg_torrent_c.BufferedSocket.{BufferedSocket, can_network_write}
use uvg_torrent_c.BufferedSocket.Connecting.{Dial}
use uvg_torrent_c.Queue.Heap.{Nodes}
use uvg_torrent_c.Queue.{Queue}
use uvg_torrent_c.TorrentData.{TorrentData}
use uvg_torrent_c.TorrentData.Disk.{Disk, FileSystem}
use uvg_torrent_c.Peer.{
  Peer, PeerStatus, peer_unconnected, peer_connecting, peer_connected, peer_handshake_sent,
  peer_handshake_complete, peer_disconnect, peer_read_message, ReadMessage, message, no_message,
  null_socket,
}
use uvg_torrent_c.Peer.Messages.{
  Status, exit_success, exit_failure, is_handshake_complete, get_msg_id, peer_handle_msg_choke,
  peer_handle_msg_unchoke, peer_handle_msg_interested, peer_handle_msg_not_interested,
  peer_send_msg_choke, peer_send_msg_unchoke, peer_should_send_keepalive, peer_send_keepalive,
  peer_should_timeout,
}
use uvg_torrent_c.Peer.Network.{
  Answers, peer_should_connect, peer_should_read_message, peer_handle_network_buffers,
}
use uvg_torrent_c.Peer.Connect.{
  ConnectEnd, connected, dangling, peer_connect, peer_should_send_handshake, peer_send_handshake,
  peer_should_handle_handshake, peer_handle_handshake,
}
use uvg_torrent_c.Peer.Pieces.{
  peer_should_send_msg_have, peer_send_msg_have, peer_should_send_msg_bitfield,
  peer_send_msg_bitfield, peer_handle_msg_have, peer_handle_msg_bitfield,
}
use uvg_torrent_c.Peer.Requests.{
  peer_should_send_msg_request, peer_send_msg_request, peer_handle_msg_request,
  peer_handle_msg_piece,
}
use uvg_torrent_c.Peer.Metadata.{peer_should_send_ut_metadata_request, peer_handle_msg_extension}
use uvg_torrent_c.Peer.Metadata.Request.{peer_send_ut_metadata_request}

-- A freed socket is freed again by `peer_disconnect`.
unfoldable pub after_connect : RunState → ConnectEnd → Step
after_connect st (connected p) = some (exit_success, with_peer st p)
after_connect st (dangling p) = none

unfoldable pub connect_step : RunEnv → RunState → Step
connect_step env st =
    optional (peer_should_connect (env.clock 0) st.peer) st
      (after_connect st (peer_connect env.dial (env.clock 1) st.peer))

-- `p->status >= PEER_CONNECTED`
abbrev pub at_least_connected : PeerStatus → Bool
at_least_connected peer_unconnected = false
at_least_connected peer_connecting = false
at_least_connected peer_connected = true
at_least_connected peer_handshake_sent = true
at_least_connected peer_handshake_complete = true

unfoldable pub should_handle : Polled → PeerStatus → Option BufferedSocket → Bool
should_handle polled status none = false
should_handle polled status (some s) =
    s.is_open
    && (can_network_write s
        || polled.can_network_read
        || (at_least_connected status && polled.has_hungup))

unfoldable pub peer_should_handle_network_buffers : Polled → Peer → Bool
peer_should_handle_network_buffers polled p = should_handle polled p.status p.socket

-- By `p->socket`.
unfoldable pub serve : Answers → ℕ → RunState → Option BufferedSocket → Step
serve answers now st none = none
serve answers now st (some s) =
    let (status, p', wire) = peer_handle_network_buffers answers now st.peer s in
    some (status, record st { peer = p'; wire = st.wire ++ wire })

unfoldable pub network_step : Polled → Answers → ℕ → RunState → Step
network_step polled answers now st =
    optional (peer_should_handle_network_buffers polled st.peer) st
      (serve answers now st st.peer.socket)

unfoldable pub send_handshake_step : RunEnv → RunState → Step
send_handshake_step env st =
    optional (peer_should_send_handshake env.writable st.peer) st
      (or_disconnect (env.clock 3) st (peer_send_handshake env.info_hash st.peer))

unfoldable pub handle_handshake_step : RunEnv → RunState → Step
handle_handshake_step env st = optional (peer_should_handle_handshake st.peer) st (
    or_disconnect (env.clock 4) st
      (peer_handle_handshake env.bencode.be_encode env.info_hash st.metadata st.peer))

abbrev pub after_haves_sent : RunState → Option (Status × Peer × Nodes ℕ) → Step
after_haves_sent st none = none
after_haves_sent st (some (status, p, h)) =
    some (exit_success, record st { peer = p; progress = h })

unfoldable pub have_step : RunState → Step
have_step st =
    optional (peer_should_send_msg_have st.peer) st
      (after_haves_sent st (peer_send_msg_have st.peer st.data_ st.progress))

abbrev pub after_peer : RunState → Option (Status × Peer) → Step
after_peer st none = none
after_peer st (some r) = unread st r

unfoldable pub bitfield_step : RunState → Step
bitfield_step st =
    optional (peer_should_send_msg_bitfield st.peer st.data_) st
      (after_peer st (peer_send_msg_bitfield st.peer st.data_))

abbrev pub after_metadata : RunState → Option (Status × Peer × TorrentData) → Step
after_metadata st none = none
after_metadata st (some (status, p, td)) =
    some (exit_success, record st { peer = p; metadata = td })

unfoldable pub metadata_request_step : RunEnv → RunState → Step
metadata_request_step env st =
    optional (peer_should_send_ut_metadata_request st.peer st.metadata) st (
      after_metadata st
        (peer_send_ut_metadata_request env.claim_clock env.bencode.be_encode st.peer st.metadata))

abbrev pub after_data : RunState → Option (Status × Peer × TorrentData) → Step
after_data st none = none
after_data st (some (status, p, td)) = some (exit_success, record st { peer = p; data_ = td })

unfoldable pub request_step : RunEnv → RunState → Step
request_step env st =
    optional (peer_should_send_msg_request st.peer st.data_) st
      (after_data st (peer_send_msg_request env.claim_clock st.peer st.data_))

-- The upload slot of the peer, told to it.
unfoldable pub choke_step : RunState → Step
choke_step st =
    if is_handshake_complete st.peer.status
    then (if (st.peer.uploader == 1) && (st.peer.am_choking == 1)
        then unread st (peer_send_msg_unchoke st.peer)
        else if (st.peer.uploader == 0) && (st.peer.am_choking == 0)
        then unread st (peer_send_msg_choke st.peer)
        else some (exit_success, st))
    else some (exit_success, st)

abbrev pub after_have_handled : RunState → Option Peer → Step
after_have_handled st none = none
after_have_handled st (some p) = some (exit_success, with_peer st p)

abbrev pub after_piece : RunState → Option (Peer × Queue × Nodes (List ℕ)) → Step
after_piece st none = none
after_piece st (some (p, q, h)) =
    some (exit_success, record st { peer = p; data_queue = q; data_nodes = h })

abbrev pub after_extension : RunState → Option (Status × Peer × Queue × Nodes (List ℕ)) → Step
after_extension st none = none
after_extension st (some (status, p, q, h)) =
    some (exit_success, record st { peer = p; metadata_queue = q; metadata_nodes = h })

-- `switch (msg_id)`. The messages 8 and 9 and an unknown one are only freed. What the handlers return
-- is not read.
unfoldable pub route : RunEnv → RunState → List ℕ → ℕ → Step
route env st msg msg_id =
    if msg_id == 0
    then some (exit_success, with_peer st (peer_handle_msg_choke st.peer))
    else if msg_id == 1
    then some (exit_success, with_peer st (peer_handle_msg_unchoke st.peer))
    else if msg_id == 2
    then some (exit_success, with_peer st (peer_handle_msg_interested st.peer))
    else if msg_id == 3
    then some (exit_success, with_peer st (peer_handle_msg_not_interested st.peer))
    else if msg_id == 4
    then after_have_handled st (peer_handle_msg_have st.peer msg st.data_)
    else if msg_id == 5
    then after_peer st (peer_handle_msg_bitfield st.peer msg st.data_)
    else if msg_id == 6
    then after_peer st (peer_handle_msg_request env.fuel env.fs env.disk st.peer msg st.data_)
    else if msg_id == 7
    then after_piece st (peer_handle_msg_piece env.node_ st.peer msg st.data_queue st.data_nodes)
    else if msg_id == 20
    then after_extension st (
        peer_handle_msg_extension env.bencode (env.clock 6) env.fuel env.fs env.disk env.node_
          st.peer msg st.metadata st.metadata_queue st.metadata_nodes)
    else some (exit_success, st)

unfoldable pub after_message : RunEnv → RunState → ReadMessage × Peer → Step
after_message env st (null_socket, p) = none
after_message env st (no_message, p) = some (exit_success, with_peer st p)
after_message env st (message msg, p) = route env (with_peer st p) msg (get_msg_id msg)

unfoldable pub read_step : RunEnv → RunState → Step
read_step env st =
    optional (peer_should_read_message st.peer) st
      (after_message env st (peer_read_message env.malloc_ok (env.clock 5) st.peer))

unfoldable pub keepalive_step : RunEnv → RunState → Step
keepalive_step env st =
    optional (peer_should_send_keepalive (env.clock 7) st.peer) st
      (unread st (peer_send_keepalive st.peer))

unfoldable pub timeout_step : RunEnv → RunState → Step
timeout_step env st =
    optional (peer_should_timeout (env.clock 8) st.peer) st
      (some (exit_success, with_peer st (peer_disconnect (env.clock 9) st.peer)))

-- The steps up to the handshake, those that write messages, and the rest.
unfoldable pub opening : RunEnv → RunState → Step
opening env st = then_do (connect_step env st) λ st₁.
    then_do (network_step env.polled_before env.answers_before (env.clock 2) st₁)
      λ st₂. then_do (send_handshake_step env st₂) λ st₃. handle_handshake_step env st₃

unfoldable pub writing : RunEnv → RunState → Step
writing env st = then_do (have_step st) λ st₁. then_do (bitfield_step st₁) λ st₂.
    then_do (metadata_request_step env st₂)
      λ st₃. then_do (request_step env st₃) λ st₄. choke_step st₄

unfoldable pub closing : RunEnv → RunState → Step
closing env st = then_do (read_step env st) λ st₁. then_do (keepalive_step env st₁) λ st₂.
    then_do (timeout_step env st₂)
      λ st₃. network_step env.polled_after env.answers_after (env.clock 10) st₃

-- `p->running = 0`, on both ways out.
unfoldable pub stop_running : Step → Step
stop_running none = none
stop_running (some (status, st)) = some (status, with_peer st (record st.peer { running = 0 }))

unfoldable pub peer_run : RunEnv → RunState → Step
peer_run env st =
    stop_running (then_do (opening env st) λ st₁. then_do (writing env st₁) λ st₂. closing env st₂)
