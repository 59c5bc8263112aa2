-- ===== src/Peer/Requests.antt =====
-- The messages of src/peer/peer_messages.c that move chunks: a request, and the piece message that
-- answers it.
pub mod Transfer
mod Tests
use uvg_torrent_c.Bitfield
use uvg_torrent_c.Bitfield.{Bitfield}
use uvg_torrent_c.Prelude.{
  ℕ, zero, suc, ◌+◌, ◌-◌, ◌*◌, ◌/◌, ◌%◌, ◌^◌, Bool, true, false, ◌&&◌, List, [], ◌∷◌, ◌++◌, Option,
  none, some, ltb, ◌==◌, if◌then◌else◌, get_or, set, drop, length, replicate,
}
use uvg_torrent_c.Prelude.Words.{add64, sub64, to_int, extend64, slt32}
use uvg_torrent_c.NetUtils.{ntohl, htonl, u32_bytes, u32_of_bytes}
use uvg_torrent_c.Queue.Heap.{Nodes}
use uvg_torrent_c.Queue.{Queue, queue_push}
use uvg_torrent_c.TorrentData
use uvg_torrent_c.TorrentData.{
  TorrentData, ChunkInfo, PieceInfo, Info, info, failed, fault, torrent_data_get_chunk_info,
  torrent_data_get_piece_info, uints_per_piece,
}
use uvg_torrent_c.TorrentData.Claims.{torrent_data_claim_chunk}
use uvg_torrent_c.TorrentData.Disk.{
  Disk, FileSystem, ReadEnd, read_success, read_failure, crash, timed_out, torrent_data_read_data,
}
use uvg_torrent_c.Peer.{Peer}
use uvg_torrent_c.Peer.Messages.{
  Status, exit_success, exit_failure, send_bytes, is_handshake_complete,
}

-- `struct PEER_MSG_REQUEST`
unfoldable pub request_msg : (index begin_ chunk_length : ℕ) → List ℕ
request_msg index begin_ chunk_length =
    u32_bytes (htonl 13)
    ++ ((6 ∷ [])
        ++ (u32_bytes (htonl index)
            ++ (u32_bytes (htonl begin_) ++ u32_bytes (htonl chunk_length))))

-- `struct PEER_MSG_PIECE`; `index` and `begin_` are in the network's order.
unfoldable pub piece_msg : (index begin_ : ℕ) → List ℕ → List ℕ
piece_msg index begin_ block =
    u32_bytes (htonl (9 + length block))
    ++ ((7 ∷ []) ++ (u32_bytes index ++ (u32_bytes begin_ ++ block)))

abbrev pub request_queue_length : ℕ
request_queue_length = 10

unfoldable pub peer_should_send_msg_request : Peer → TorrentData → Bool
peer_should_send_msg_request p td =
    is_handshake_complete p.status
    && (td.needed == 1)
    && slt32 p.pending_request_count request_queue_length
    && (p.peer_choking == 0)
    && (p.am_interested == 1)

-- The inner loop over the bytes of a piece.
unfoldable pub mark_piece : ℕ → ℕ → ℕ → Bitfield → Bitfield
mark_piece zero index value interested = interested
mark_piece (suc rounds) index value interested =
    let marked =
      if ltb index interested.bytes_count
      then record interested { bytes = set interested.bytes index value }
      else interested in
    mark_piece rounds (index + 1) value marked

unfoldable pub mark_by : ℕ → ℕ → ℕ → Bitfield → Bitfield
mark_by bit index upp interested =
    if bit == 0
    then mark_piece upp index 0 interested
    else if bit == 1
    then mark_piece upp index 0xFF interested
    else interested

-- The loop over the pieces: the chunks of those that the peer has. `none` is a read out of bounds.
unfoldable pub mark_pieces : ℕ → ℕ → ℕ → Bitfield → Bitfield → Option Bitfield
mark_pieces zero i upp has interested = some interested
mark_pieces (suc rounds) i upp has interested = elim (Bitfield.get_bit has i) [
  | none ↦ none
  | some bit ↦ mark_pieces rounds (i + 1) upp has (mark_by bit (i * upp) upp interested)
]

unfoldable pub interested_chunks : TorrentData → Bitfield → Option Bitfield
interested_chunks td has =
    mark_pieces td.piece_count 0 (uints_per_piece td) has (Bitfield.new td.chunk_count 0 0xFF)

-- The request for a chunk, by the layout. `none` is a use of information that was not filled in.
unfoldable pub request_in_piece : ChunkInfo → Info PieceInfo → Option (List ℕ)
request_in_piece ci failed = none
request_in_piece ci fault = none
request_in_piece ci (info pi) = some (
    request_msg (to_int pi.piece_id) (to_int (sub64 ci.chunk_offset pi.piece_offset))
      (to_int ci.chunk_size))

unfoldable pub request_of_info : TorrentData → Info ChunkInfo → Option (List ℕ)
request_of_info td failed = none
request_of_info td fault = none
request_of_info td (info ci) = request_in_piece ci (torrent_data_get_piece_info td ci.piece_id)

unfoldable pub chunk_request : TorrentData → ℕ → Option (List ℕ)
chunk_request td chunk_id = request_of_info td (torrent_data_get_chunk_info td chunk_id)

-- Behind the write of a request: one more is pending, or the end.
unfoldable pub after_request :
    Status × Peer → (Peer → Option (Status × Peer)) → Option (Status × Peer)
after_request (exit_failure, p) next = some (exit_failure, p)
after_request (exit_success, p) next =
    next (record p { pending_request_count = to_int (p.pending_request_count + 1) })

-- The loop over the chunks that were claimed; -1 ends it.
unfoldable pub send_requests : TorrentData → List (Option ℕ) → Peer → Option (Status × Peer)
send_requests td [] p = some (exit_success, p)
send_requests td (none ∷ chunks) p = some (exit_success, p)
send_requests td (some chunk_id ∷ chunks) p = elim (chunk_request td chunk_id) [
  | none ↦ none
  | some bytes ↦ after_request (send_bytes p bytes) (λ p'. send_requests td chunks p')
]

-- Behind the claim.
unfoldable pub after_claim :
    Option (TorrentData.Status × List (Option ℕ) × TorrentData)
    → Peer
    → Option (Status × Peer × TorrentData)
after_claim none p = none
after_claim (some (TorrentData.exit_failure, chunks, td)) p = some (exit_success, p, td)
after_claim (some (TorrentData.exit_success, chunks, td)) p = elim (send_requests td chunks p) [
  | none ↦ none
  | some (status, p') ↦ some (status, p', td)
]

unfoldable pub request_chunks :
    (ℕ → ℕ) → TorrentData → Option Bitfield → Peer → Option (Status × Peer × TorrentData)
request_chunks clock td none p = none
request_chunks clock td (some interested) p =
    if slt32 p.pending_request_count request_queue_length
    then after_claim
        (torrent_data_claim_chunk clock td interested 10
          (to_int (request_queue_length + 2 ^ 32 - p.pending_request_count)))
        p
    else some (exit_success, p, td)

-- A peer without a bit field is a NULL pointer: `none`.
unfoldable pub peer_send_msg_request :
    (ℕ → ℕ) → Peer → TorrentData → Option (Status × Peer × TorrentData)
peer_send_msg_request clock p td = elim p.peer_bitfield [
  | none ↦ none
  | some has ↦ request_chunks clock td (interested_chunks td has) p
]

-- The block that is sent: zeros where nothing was read. `none`: the read does not return.
unfoldable pub block_of : ReadEnd → ℕ → Option (List ℕ)
block_of (read_success bytes) chunk_size = some (bytes ++ replicate (chunk_size - length bytes) 0)
block_of (read_failure bytes) chunk_size = some (bytes ++ replicate (chunk_size - length bytes) 0)
block_of crash chunk_size = none
block_of timed_out chunk_size = none

-- `chunk_offset` and `chunk_size` of a request.
unfoldable pub requested : Info PieceInfo → List ℕ → Option (ℕ × ℕ)
requested failed msg = none
requested fault msg = none
requested (info pi) msg =
    some (
      add64 pi.piece_offset (ntohl (u32_of_bytes (drop 9 msg))),
      ntohl (u32_of_bytes (drop 13 msg)),
    )

unfoldable pub answer_request : List ℕ → Option (List ℕ) → Peer → Option (Status × Peer)
answer_request msg none p = none
answer_request msg (some block) p =
    let (status, p') =
      send_bytes p (piece_msg (u32_of_bytes (drop 5 msg)) (u32_of_bytes (drop 9 msg)) block) in
    some (exit_success, p')

-- A failed write is no failure of the call.
unfoldable pub peer_handle_msg_request :
    ℕ → FileSystem → Disk → Peer → List ℕ → TorrentData → Option (Status × Peer)
peer_handle_msg_request fuel fs disk p msg td =
    elim (requested (torrent_data_get_piece_info td (extend64 (ntohl (u32_of_bytes (drop 5 msg)))))
      msg) [
        | none ↦ none
        | some (chunk_offset, chunk_size) ↦
            answer_request msg
              (block_of (torrent_data_read_data fuel fs disk td chunk_offset chunk_size) chunk_size)
              p
      ]

-- The message goes to the queue as it is. The count is an `int`; the status of the push is not read.
unfoldable pub peer_handle_msg_piece :
    Option ℕ → Peer → List ℕ → Queue → Nodes (List ℕ) → Option (Peer × Queue × Nodes (List ℕ))
peer_handle_msg_piece node p msg q h = elim (queue_push node msg q h) [
  | none ↦ none
  | some (status, q', h') ↦
      some (
        record p { pending_request_count = to_int (p.pending_request_count + (2 ^ 32 - 1)) },
        q',
        h',
      )
]
