-- ===== src/Peer/Connect.antt =====
-- `peer_connect` and the handshake of src/peer/peer_connect.c. What `be_encode` makes of the
-- dictionary of the extended handshake is an argument.
pub mod Handshake
mod Tests
use uvg_torrent_c.Prelude.{
  ℕ, zero, suc, ◌+◌, ◌-◌, ◌^◌, Bool, true, false, ◌&&◌, List, [], ◌∷◌, ◌++◌, Option, none, some,
  ◌==◌, if◌then◌else◌, get_or, drop, length, replicate,
}
use uvg_torrent_c.Prelude.Words.{to_int, extend64}
use uvg_torrent_c.BufferedSocket.{
  BufferedSocket, ReadResult, disconnected, not_enough, bytes_read, buffered_socket_new,
  buffered_socket_read, can_read,
}
use uvg_torrent_c.BufferedSocket.Connecting
use uvg_torrent_c.BufferedSocket.Connecting.{Dial, buffered_socket_connect}
use uvg_torrent_c.NetUtils.{htonl, u32_bytes}
use uvg_torrent_c.TorrentData.{TorrentData}
use uvg_torrent_c.Peer.{
  Peer, PeerStatus, peer_unconnected, peer_connecting, peer_connected, peer_handshake_sent,
  peer_handshake_complete,
}
use uvg_torrent_c.Peer.Messages.{Status, exit_success, exit_failure, send_bytes}
use uvg_torrent_c.Peer.Bencode.{
  BeNode, be_dict, be_dict_add, be_dict_add_num, ut_metadata_id, m_key, ut_metadata_key,
  metadata_size_key,
}

-- How `peer_connect` ends. `dangling`: the socket has been freed, and the peer still points to it.
pub data ConnectEnd : Type 0 where
  connected : Peer → ConnectEnd
  dangling : Peer → ConnectEnd

-- The value of an `int` that `buffered_socket_connect` returns.
abbrev pub status_value : Connecting.Status → ℕ
status_value Connecting.exit_success = 0
status_value Connecting.exit_failure = 1

-- `buffered_socket_connect(...) == -1`
abbrev pub is_failed : ℕ → Bool
is_failed value = value == 2 ^ 32 - 1

unfoldable pub peer_connect : Dial → ℕ → Peer → ConnectEnd
peer_connect dial now p =
    let (status, s) = buffered_socket_connect dial (buffered_socket_new now) in
    if is_failed (status_value status)
    then dangling (record p { status = peer_unconnected })
    else connected (record p { status = peer_connected; socket = some s })

abbrev pub is_connected : PeerStatus → Bool
is_connected peer_connected = true
is_connected _ = false

abbrev pub is_handshake_sent : PeerStatus → Bool
is_handshake_sent peer_handshake_sent = true
is_handshake_sent _ = false

-- `writable` is what `poll` says of POLLOUT.
unfoldable pub can_write : Bool → Option BufferedSocket → Bool
can_write writable none = false
can_write writable (some s) = s.is_open && writable

unfoldable pub peer_should_send_handshake : Bool → Peer → Bool
peer_should_send_handshake writable p = is_connected p.status && can_write writable p.socket

-- `"BitTorrent protocol"` and `"UVG11234567891234567"`.
abbrev pub pstr : List ℕ
pstr =
    b'B' ∷ b'i' ∷ b't' ∷ b'T' ∷ b'o' ∷ b'r' ∷ b'r' ∷ b'e' ∷ b'n' ∷ b't' ∷ 32 ∷ b'p' ∷ b'r' ∷ b'o'
    ∷ b't' ∷ b'o' ∷ b'c' ∷ b'o' ∷ b'l' ∷ []

abbrev pub own_peer_id : List ℕ
own_peer_id =
    b'U' ∷ b'V' ∷ b'G' ∷ b'1' ∷ b'1' ∷ b'2' ∷ b'3' ∷ b'4' ∷ b'5' ∷ b'6' ∷ b'7' ∷ b'8' ∷ b'9' ∷ b'1'
    ∷ b'2' ∷ b'3' ∷ b'4' ∷ b'5' ∷ b'6' ∷ b'7' ∷ []

-- `reserved`, with the bit of the extension protocol.
abbrev pub reserved : List ℕ
reserved = 0 ∷ 0 ∷ 0 ∷ 0 ∷ 0 ∷ 0x10 ∷ 0 ∷ 0 ∷ []

-- `struct PEER_HANDSHAKE`
abbrev pub handshake : List ℕ → List ℕ
handshake info_hash = (19 ∷ pstr) ++ (reserved ++ (info_hash ++ own_peer_id))

-- By what the write returns.
unfoldable pub after_sending : PeerStatus → Status × Peer → Status × Peer
after_sending next (exit_failure, p) = (exit_failure, p)
after_sending next (exit_success, p) = (exit_success, record p { status = next })

unfoldable pub peer_send_handshake : List ℕ → Peer → Status × Peer
peer_send_handshake info_hash p =
    after_sending peer_handshake_sent (send_bytes p (handshake info_hash))

unfoldable pub peer_should_handle_handshake : Peer → Bool
peer_should_handle_handshake p = elim p.socket [
  | none ↦ false
  | some s ↦ is_handshake_sent p.status && can_read s
]

-- The first eight bytes of the two hashes are compared, from `i` on, over the rounds left.
unfoldable pub same_hash : List ℕ → List ℕ → ℕ → ℕ → Bool
same_hash received info_hash i zero = true
same_hash received info_hash i (suc rounds) =
    (get_or received i 0 == get_or info_hash i 0) && same_hash received info_hash (i + 1) rounds

-- `struct PEER_MSG_EXTENSION` with the id 0 and what `be_encode` has made.
unfoldable pub extended_handshake : List ℕ → List ℕ
extended_handshake encoded = u32_bytes (htonl (2 + length encoded)) ++ (20 ∷ 0 ∷ encoded)

-- The dictionary of the extended handshake: the id of the metadata messages, and the size as an `int`.
unfoldable pub handshake_dict : ℕ → BeNode
handshake_dict data_size =
    be_dict_add_num
      (be_dict_add be_dict m_key (be_dict_add_num be_dict ut_metadata_key ut_metadata_id))
      metadata_size_key (extend64 (to_int data_size))

-- The dictionary is encoded into a buffer of 1000 bytes.
unfoldable pub answer_handshake :
    (encode : BeNode → ℕ → List ℕ) → List ℕ → TorrentData → List ℕ → Peer → Status × Peer
answer_handshake encode info_hash metadata received p =
    if same_hash (drop 28 received) info_hash 0 8
    then (if get_or received 25 0 == 0x10
        then after_sending peer_handshake_complete
            (send_bytes p (extended_handshake (encode (handshake_dict metadata.data_size) 1000)))
        else (exit_success, record p { status = peer_handshake_complete }))
    else (exit_failure, p)

unfoldable pub after_receiving :
    (encode : BeNode → ℕ → List ℕ)
    → List ℕ
    → TorrentData
    → Peer
    → ReadResult × BufferedSocket
    → Status × Peer
after_receiving encode info_hash metadata p (disconnected, s) = (exit_failure, p)
after_receiving encode info_hash metadata p (not_enough, s) =
    (exit_failure, record p { socket = some s })
after_receiving encode info_hash metadata p (bytes_read received, s) =
    answer_handshake encode info_hash metadata received (record p { socket = some s })

-- By `p->socket`; a NULL socket is an error of `buffered_socket_read`.
unfoldable pub handshake_from :
    (encode : BeNode → ℕ → List ℕ)
    → List ℕ
    → TorrentData
    → Peer
    → Option BufferedSocket
    → Status × Peer
handshake_from encode info_hash metadata p none = (exit_failure, p)
handshake_from encode info_hash metadata p (some s) =
    after_receiving encode info_hash metadata p (buffered_socket_read s 68)

unfoldable pub peer_handle_handshake :
    (encode : BeNode → ℕ → List ℕ) → List ℕ → TorrentData → Peer → Status × Peer
peer_handle_handshake encode info_hash metadata p =
    handshake_from encode info_hash metadata p p.socket
