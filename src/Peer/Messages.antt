-- ===== src/Peer/Messages.antt =====
-- The messages of src/peer/peer_messages.c that are a length and an id, the keepalive, the timeouts,
-- and the fields of a message that was read.
use uvg_torrent_c.Prelude.{
  ℕ, ◌+◌, ◌*◌, Bool, true, false, List, [], ◌∷◌, ◌++◌, Option, none, some, ltb, ◌==◌, if◌then◌else◌,
  get_or, length,
}
use uvg_torrent_c.Prelude.Words.{add64, sub64}
use uvg_torrent_c.BufferedSocket.{BufferedSocket, buffered_socket_write}
use uvg_torrent_c.NetUtils.{ntohl, htonl, u32_bytes, u32_of_bytes}
use uvg_torrent_c.Peer.{
  Peer, PeerStatus, peer_unconnected, peer_connecting, peer_connected, peer_handshake_sent,
  peer_handshake_complete,
}

-- EXIT_SUCCESS and EXIT_FAILURE.
pub data Status : Type 0 where
  exit_success exit_failure : Status

-- `buffered_socket_write(...) != sizeof(...)`, by what it returns.
unfoldable pub sent_all : Option ℕ → ℕ → Status
sent_all none size = exit_failure
sent_all (some n) size = if n == size then exit_success else exit_failure

-- A NULL socket is an error of `buffered_socket_write`.
unfoldable pub send_from : Peer → Option BufferedSocket → List ℕ → Status × Peer
send_from p none bytes = (exit_failure, p)
send_from p (some s) bytes =
    let (result, s') = buffered_socket_write s bytes in
    (sent_all result (length bytes), record p { socket = some s' })

abbrev pub send_bytes : Peer → List ℕ → Status × Peer
send_bytes p bytes = send_from p p.socket bytes

-- `struct PEER_MSG_BASIC`
abbrev pub basic_msg : ℕ → List ℕ
basic_msg msg_id = u32_bytes (htonl 1) ++ (msg_id ∷ [])

unfoldable pub peer_send_msg_choke : Peer → Status × Peer
peer_send_msg_choke p = send_bytes (record p { am_choking = 1 }) (basic_msg 0)

unfoldable pub peer_send_msg_unchoke : Peer → Status × Peer
peer_send_msg_unchoke p = send_bytes (record p { am_choking = 0 }) (basic_msg 1)

unfoldable pub peer_send_msg_interested : Peer → Status × Peer
peer_send_msg_interested p = send_bytes (record p { am_interested = 1 }) (basic_msg 2)

unfoldable pub peer_send_msg_not_interested : Peer → Status × Peer
peer_send_msg_not_interested p = send_bytes (record p { am_interested = 0 }) (basic_msg 3)

unfoldable pub peer_handle_msg_choke : Peer → Peer
peer_handle_msg_choke p = record p { peer_choking = 1 }

unfoldable pub peer_handle_msg_unchoke : Peer → Peer
peer_handle_msg_unchoke p = record p { peer_choking = 0 }

unfoldable pub peer_handle_msg_interested : Peer → Peer
peer_handle_msg_interested p = record p { peer_interested = 1 }

unfoldable pub peer_handle_msg_not_interested : Peer → Peer
peer_handle_msg_not_interested p = record p { peer_interested = 0 }

unfoldable pub peer_send_keepalive : Peer → Status × Peer
peer_send_keepalive p = send_bytes p (u32_bytes 0)

unfoldable pub get_msg_length : List ℕ → ℕ
get_msg_length buffer = ntohl (u32_of_bytes buffer)

unfoldable pub get_msg_buffer_size : List ℕ → ℕ
get_msg_buffer_size buffer = 4 + get_msg_length buffer

unfoldable pub get_msg_id : List ℕ → ℕ
get_msg_id buffer = get_or buffer 4 0

abbrev pub is_handshake_complete : PeerStatus → Bool
is_handshake_complete peer_handshake_complete = true
is_handshake_complete peer_unconnected = false
is_handshake_complete peer_connecting = false
is_handshake_complete peer_connected = false
is_handshake_complete peer_handshake_sent = false

-- No data for two minutes. The times are of 64 bits without a sign.
unfoldable pub peer_should_send_keepalive : ℕ → Peer → Bool
peer_should_send_keepalive now p = elim p.socket [
  | none ↦ false
  | some s ↦
      if is_handshake_complete p.status
      then ltb s.last_download_rate_update (sub64 now (60 * 1000 * 2))
      else false
]

unfoldable pub peer_should_timeout : ℕ → Peer → Bool
peer_should_timeout now p = elim p.socket [
  | none ↦ false
  | some s ↦
      if is_handshake_complete p.status
      then ltb s.last_download_rate_update (add64 (sub64 now (60 * 1000 * 2)) 500)
      else ltb s.last_download_rate_update (sub64 now (10 * 1000))
]
