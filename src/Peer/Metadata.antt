-- ===== src/Peer/Metadata.antt =====
-- The extension messages of src/peer/peer_messages.c and src/peer/peer_ut_metadata.c as a peer takes
-- them. What the bencode library makes of them is an argument. The result `none` is a use of
-- information that was not filled in, or an access out of bounds.
pub mod Handshake
pub mod Request
pub mod Asking
mod Tests
use uvg_torrent_c.Prelude.{
  ℕ, ◌+◌, ◌%◌, List, ◌∷◌, ◌++◌, Option, none, some, ltb, ◌==◌, if◌then◌else◌, get_or, drop, take,
  length, Bool, ◌&&◌,
}
use uvg_torrent_c.Prelude.Words.{sub64, to_int, extend64, slt32}
use uvg_torrent_c.NetUtils.{htonl, u32_bytes}
use uvg_torrent_c.Queue.Heap.{Nodes}
use uvg_torrent_c.Queue.{Queue, queue_push}
use uvg_torrent_c.TorrentData.{
  TorrentData, ChunkInfo, Info, info, failed, fault, torrent_data_get_chunk_info,
  torrent_data_is_complete,
}
use uvg_torrent_c.TorrentData.Disk.{Disk, FileSystem, torrent_data_read_data}
use uvg_torrent_c.Peer.{Peer, peer_disconnect}
use uvg_torrent_c.Peer.Messages.{
  Status, exit_success, exit_failure, send_bytes, is_handshake_complete, get_msg_buffer_size,
}
use uvg_torrent_c.Peer.Requests.{block_of}
use uvg_torrent_c.Peer.Bencode.{
  BeNode, be_dict, be_dict_add_num, Bencode, ut_metadata_id, m_key, ut_metadata_key,
  metadata_size_key, msg_type_key, piece_key, total_size_key,
}

unfoldable pub peer_supports_ut_metadata : Peer → Bool
peer_supports_ut_metadata p = slt32 0 p.ut_metadata && is_handshake_complete p.status

unfoldable pub peer_should_send_ut_metadata_request : Peer → TorrentData → Bool
peer_should_send_ut_metadata_request p metadata =
    (metadata.needed == 1) && peer_supports_ut_metadata p && is_handshake_complete p.status

-- `peer_extension_response->msg`
unfoldable pub extension_body : List ℕ → List ℕ
extension_body msg = take (sub64 (get_msg_buffer_size msg) 6) (drop 6 msg)

-- By the entry "m" of the dictionary `d`, where `none` is NULL.
unfoldable pub take_extensions : Bencode → Peer → BeNode → Option BeNode → Status × Peer
take_extensions be p d none = (exit_failure, p)
take_extensions be p d (some m) = (
  exit_success,
  record p {
    ut_metadata = to_int (be.be_dict_lookup_num m ut_metadata_key);
    ut_metadata_size = to_int (be.be_dict_lookup_num d metadata_size_key);
  },
)

unfoldable pub after_decode : Bencode → Peer → Option BeNode → Status × Peer
after_decode be p none = (exit_failure, p)
after_decode be p (some d) = take_extensions be p d (be.be_dict_lookup d m_key)

unfoldable pub peer_handle_ut_metadata_handshake : Bencode → Peer → List ℕ → Status × Peer
peer_handle_ut_metadata_handshake be p msg = after_decode be p (be.be_decode (extension_body msg))

-- `struct PEER_MSG_EXTENSION` with the id that the peer has given.
unfoldable pub metadata_msg : ℕ → List ℕ → List ℕ
metadata_msg id bytes = u32_bytes (htonl (to_int (2 + length bytes))) ++ (20 ∷ (id % 256) ∷ bytes)

unfoldable pub send_metadata : Peer → List ℕ → Option (List ℕ) → Option (Status × Peer)
send_metadata p header none = none
send_metadata p header (some block) =
    some (send_bytes p (metadata_msg p.ut_metadata (header ++ block)))

-- The buffer has 65535 bytes.
unfoldable pub metadata_of_info :
    ℕ → FileSystem → Disk → Peer → List ℕ → TorrentData → Info ChunkInfo → Option (Status × Peer)
metadata_of_info fuel fs disk p header metadata failed = none
metadata_of_info fuel fs disk p header metadata fault = none
metadata_of_info fuel fs disk p header metadata (info ci) =
    if ltb 65535 (length header + ci.chunk_size)
    then none
    else send_metadata p header (
        block_of (torrent_data_read_data fuel fs disk metadata ci.chunk_offset ci.chunk_size)
          ci.chunk_size)

-- The dictionary in front of a piece of metadata.
unfoldable pub data_dict : ℕ → ℕ → BeNode
data_dict chunk_id data_size =
    be_dict_add_num (be_dict_add_num (be_dict_add_num be_dict msg_type_key 1) piece_key chunk_id)
      total_size_key (extend64 (to_int data_size))

-- No message is sent where the metadata is not complete.
unfoldable pub peer_handle_ut_metadata_request :
    Bencode → ℕ → FileSystem → Disk → Peer → ℕ → TorrentData → Option (Status × Peer)
peer_handle_ut_metadata_request be fuel fs disk p chunk_id metadata =
    if torrent_data_is_complete metadata
    then metadata_of_info fuel fs disk p
        (be.be_encode (data_dict chunk_id metadata.data_size) 65535) metadata
        (torrent_data_get_chunk_info metadata (extend64 (to_int chunk_id)))
    else some (exit_success, p)

unfoldable pub peer_handle_ut_metadata_reject : Peer → Peer
peer_handle_ut_metadata_reject p = record p { ut_metadata = 0 }

-- What comes of a message: the peer, and the queue of the metadata.
abbrev pub Handled : Type 0
Handled = Option (Status × Peer × Queue × Nodes (List ℕ))

-- By `msg_type`. What the handlers return is not read.
unfoldable pub handle_ut_metadata :
    Bencode
    → ℕ
    → FileSystem
    → Disk
    → Option ℕ
    → ℕ
    → ℕ
    → Peer
    → List ℕ
    → TorrentData
    → Queue
    → Nodes (List ℕ)
    → Handled
handle_ut_metadata be fuel fs disk node msg_type chunk_id p msg metadata q h =
    if msg_type == 0
    then (elim (peer_handle_ut_metadata_request be fuel fs disk p chunk_id metadata) [
      | none ↦ none
      | some (status, p') ↦ some (exit_success, p', q, h)
    ])
    else if msg_type == 1
    then (elim (queue_push node msg q h) [
      | none ↦ none
      | some (status, q', h') ↦ some (exit_success, p, q', h')
    ])
    else if msg_type == 2
    then some (exit_success, peer_handle_ut_metadata_reject p, q, h)
    else some (exit_success, p, q, h)

unfoldable pub after_extended_handshake : ℕ → Status × Peer → Queue → Nodes (List ℕ) → Handled
after_extended_handshake now (exit_success, p) q h = some (exit_success, p, q, h)
after_extended_handshake now (exit_failure, p) q h =
    some (exit_failure, peer_disconnect now p, q, h)

-- `node` is what `malloc` names for the queue.
unfoldable pub peer_handle_msg_extension :
    Bencode
    → ℕ
    → ℕ
    → FileSystem
    → Disk
    → Option ℕ
    → Peer
    → List ℕ
    → TorrentData
    → Queue
    → Nodes (List ℕ)
    → Handled
peer_handle_msg_extension be now fuel fs disk node p msg metadata q h =
    if get_or msg 5 0 == 0
    then after_extended_handshake now (peer_handle_ut_metadata_handshake be p msg) q h
    else if get_or msg 5 0 == ut_metadata_id
    then (elim (be.be_decode (extension_body msg)) [
      | none ↦ some (exit_failure, peer_disconnect now p, q, h)
      | some d ↦
          handle_ut_metadata be fuel fs disk node (be.be_dict_lookup_num d msg_type_key)
            (be.be_dict_lookup_num d piece_key) p msg metadata q h
    ])
    else some (exit_success, p, q, h)
