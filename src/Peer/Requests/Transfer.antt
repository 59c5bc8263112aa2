-- ===== src/Peer/Requests/Transfer.antt =====
-- A chunk between two peers: the request of one, the answer of the other, and what
-- `torrent_process_data_chunk` of src/torrent/torrent.c makes of the answer.
use native.Mathlib.Nat.{mul-div_cancel_left, div-le_self}
use uvg_torrent_c.Prelude.{
  dec_lt, ℕ, ◌+◌, ◌-◌, ◌*◌, ◌/◌, ◌%◌, ◌^◌, ◌≤◌, ◌<◌, ◌≡◌, refl, sym, ap, ◌∙◌, min, List, [], ◌++◌,
  some, drop, take-length, length, append-nil, arith,
}
use uvg_torrent_c.Prelude.Words.{add64, sub64, to_int, extend64}
use uvg_torrent_c.NetUtils.{
  ntohl, htonl, u32_bytes, u32_of_bytes, ntohl-htonl, htonl-lt, u32_of_bytes-u32_bytes,
}
use uvg_torrent_c.TorrentData.{TorrentData, info, torrent_data_get_piece_info}
use uvg_torrent_c.TorrentData.Geometry.{
  IsSized, chunk_info_lem, piece_info_lem, piece_of_chunk, chunk_split, chunk_begins,
  chunk_le_piece,
}
use uvg_torrent_c.Peer.Messages.{get_msg_length, get_msg_buffer_size}
use uvg_torrent_c.TorrentData.Disk.{Disk, FileSystem, torrent_data_read_data}
use uvg_torrent_c.Peer.{Peer}
use uvg_torrent_c.Peer.Messages.{exit_success, send_bytes}
use uvg_torrent_c.Peer.Requests.{
  request_msg, piece_msg, request_in_piece, request_of_info, chunk_request, requested,
  answer_request, block_of, peer_handle_msg_request,
}
use uvg_torrent_c.Torrent.Received.{received_in_piece, received_chunk}

field :
    (n : ℕ) (rest : List ℕ) → n < 2 ^ 32 → ntohl (u32_of_bytes (u32_bytes (htonl n) ++ rest)) ≡ n
field n rest h = ap ntohl (u32_of_bytes-u32_bytes (htonl n) rest (htonl-lt n)) ∙ ntohl-htonl n h

module _ (index begin_ size : ℕ) (index_bound : index < 2 ^ 31)
    (begin_bound : begin_ < 2 ^ 32) where
  request_index : ntohl (u32_of_bytes (drop 5 (request_msg index begin_ size))) ≡ index
  unfolding request_msg u32_bytes
  request_index = field index _ (omega (arith, index_bound))

  request_begin : ntohl (u32_of_bytes (drop 9 (request_msg index begin_ size))) ≡ begin_
  unfolding request_msg u32_bytes
  request_begin = field begin_ _ begin_bound

  request_size :
      size < 2 ^ 32 → ntohl (u32_of_bytes (drop 13 (request_msg index begin_ size))) ≡ size
  unfolding request_msg u32_bytes
  request_size size_bound =
      ap (λ l. ntohl (u32_of_bytes l)) (sym (append-nil _)) ∙ field size [] size_bound

-- The answer to a request: its index and begin as they came.
abbrev pub reply_to : List ℕ → List ℕ → List ℕ
reply_to request block =
    piece_msg (u32_of_bytes (drop 5 request)) (u32_of_bytes (drop 9 request)) block

module _ (index begin_ size : ℕ) (block : List ℕ) (index_bound : index < 2 ^ 31)
    (begin_bound : begin_ < 2 ^ 32) (block_bound : length block < 2 ^ 32 - 16) where
  abbrev request : List ℕ
  request = request_msg index begin_ size

  sent_index : u32_of_bytes (drop 5 request) ≡ htonl index
  unfolding request_msg u32_bytes
  sent_index = u32_of_bytes-u32_bytes (htonl index) _ (htonl-lt index)

  sent_begin : u32_of_bytes (drop 9 request) ≡ htonl begin_
  unfolding request_msg u32_bytes
  sent_begin = u32_of_bytes-u32_bytes (htonl begin_) _ (htonl-lt begin_)

  reply_index : ntohl (u32_of_bytes (drop 5 (reply_to request block))) ≡ index
  unfolding piece_msg u32_bytes
  reply_index =
      let x = u32_of_bytes (drop 5 request) in
      let bound : x < 2 ^ 32 = rw sent_index (htonl-lt index) in
      ap ntohl (u32_of_bytes-u32_bytes x _ bound)
      ∙ request_index index begin_ size index_bound begin_bound

  reply_begin : ntohl (u32_of_bytes (drop 9 (reply_to request block))) ≡ begin_
  unfolding piece_msg u32_bytes
  reply_begin =
      let y = u32_of_bytes (drop 9 request) in
      let bound : y < 2 ^ 32 = rw sent_begin (htonl-lt begin_) in
      ap ntohl (u32_of_bytes-u32_bytes y _ bound)
      ∙ request_begin index begin_ size index_bound begin_bound

  reply_size : sub64 (get_msg_buffer_size (reply_to request block)) 13 ≡ length block
  unfolding get_msg_buffer_size get_msg_length piece_msg u32_bytes
  reply_size =
      let stated : ntohl (u32_of_bytes (reply_to request block)) ≡ 9 + length block =
        field (9 + length block) _ (omega (arith, block_bound)) in
      let whole : sub64 (4 + (9 + length block)) 13 ≡ length block = omega (arith, block_bound) in
      ap (λ n. sub64 (4 + n) 13) stated ∙ whole

  reply_block : drop 13 (reply_to request block) ≡ block
  unfolding piece_msg u32_bytes
  reply_block = refl

small_id : (x : ℕ) → x < 2 ^ 31 → extend64 x ≡ x
small_id x h = ground (arith, h)

-- The data of another client of the same torrent: cut into pieces at the same places.
abbrev pub SameLayout : TorrentData → TorrentData → Type 0
SameLayout td' td = (td'.piece_size ≡ td.piece_size) × (td'.data_size ≡ td.data_size)

same_piece :
    (td' td : TorrentData) (id : ℕ)
    → SameLayout td' td
    → torrent_data_get_piece_info td' id ≡ torrent_data_get_piece_info td id
unfolding torrent_data_get_piece_info
same_piece td' td id e = rw (e.0, e.1)

-- What one client asks for, another reads and sends, and the first takes for its own.
abbrev pub Transfers :
    TorrentData → TorrentData → (fuel : ℕ) → FileSystem → Disk → Peer → ℕ → List ℕ → Type 0
Transfers td td' fuel fs disk q i block =
    (sent : List ℕ) × (chunk_request td i ≡ some sent)
    × (peer_handle_msg_request fuel fs disk q sent td'
        ≡ some (exit_success, (send_bytes q (reply_to sent block)).1))
    × (received_chunk td (reply_to sent block) ≡ some (i, block))

module _ {td : TorrentData} (w : IsSized td) (small : td.piece_size < 2 ^ 32 - 16) (i : ℕ)
    (inside : i < td.chunk_count) where
  abbrev piece : ℕ
  piece = i / w.chunks_per_piece

  abbrev offset : ℕ
  offset = td.chunk_size * (i % w.chunks_per_piece)

  abbrev size : ℕ
  size = min td.chunk_size (td.data_size - td.chunk_size * i)

  few_chunks : i < 2 ^ 31
  few_chunks = elim (dec_lt i (2 ^ 31)) [
    | yes b ↦ b
    | no n ↦
        let ge : 2 ^ 31 ≤ i = omega arith in
        let scaled : td.chunk_size * 2 ^ 31 ≤ td.chunk_size * i = grind arith in
        absurd (omega (arith, chunk_begins w i inside, w.int_ids))
  ]

  few_pieces : piece < 2 ^ 31
  few_pieces = omega (arith, few_chunks, div-le_self i w.chunks_per_piece)

  chunk_request_lem : chunk_request td i ≡ some (request_msg piece offset size)
  unfolding chunk_request request_of_info request_in_piece
  chunk_request_lem =
      let (split, room) = chunk_split w i in
      let begins = chunk_begins w i inside in
      let first : to_int piece ≡ piece = omega (arith, few_pieces) in
      let second : to_int (sub64 (td.chunk_size * i) (td.piece_size * piece)) ≡ offset =
        omega (arith, split, room, begins, w.small, small) in
      let third : to_int size ≡ size = omega (arith, room, small) in
      rw (chunk_info_lem w i inside, piece_info_lem w piece (piece_of_chunk w i inside))
        (rw (first, second, third))

  abbrev sent : List ℕ
  sent = request_msg piece offset size

  size_bound : size < 2 ^ 32 - 16
  size_bound = omega (arith, chunk_le_piece w, small)

  offset_bound : offset < 2 ^ 32
  offset_bound = let (split, room) = chunk_split w i in omega (arith, room, small)

  offset_lem : add64 (td.piece_size * piece) offset ≡ td.chunk_size * i
  offset_lem =
      let (split, room) = chunk_split w i in omega (arith, split, chunk_begins w i inside, w.small)

  -- The layout of the piece as the receiver of an id in the network's order finds it.
  piece_of_id :
      (x : ℕ)
      → x ≡ piece
      → torrent_data_get_piece_info td (extend64 x)
        ≡ info (record {
          piece_id = piece;
          piece_size = min td.piece_size (td.data_size - td.piece_size * piece);
          piece_offset = td.piece_size * piece;
        })
  piece_of_id x e =
      rw (e, small_id piece few_pieces) (piece_info_lem w piece (piece_of_chunk w i inside))

  requested_lem :
      requested
        (torrent_data_get_piece_info td (extend64 (ntohl (u32_of_bytes (drop 5 sent)))))
        sent
      ≡ some (td.chunk_size * i, size)
  unfolding requested
  requested_lem = rw (piece_of_id _ (request_index piece offset size few_pieces offset_bound)) (
      let begin_lem = request_begin piece offset size few_pieces offset_bound in
      let size_lem =
        request_size piece offset size few_pieces offset_bound (omega (arith, size_bound)) in
      rw (begin_lem, size_lem, offset_lem))

  received_lem :
      (block : List ℕ)
      → length block ≡ size
      → received_chunk td (reply_to sent block) ≡ some (i, block)
  unfolding received_chunk received_in_piece
  received_lem block e =
      rw
        (piece_of_id _
          (reply_index piece offset size block few_pieces offset_bound (omega (arith, size_bound))))
        (let bound : length block < 2 ^ 32 - 16 = omega (arith, size_bound) in
          let begin_lem = reply_begin piece offset size block few_pieces offset_bound bound in
          let size_lem = reply_size piece offset size block few_pieces offset_bound bound in
          let block_lem = reply_block piece offset size block few_pieces offset_bound bound in
          let id : to_int (td.chunk_size * i / td.chunk_size) ≡ i =
            rw (mul-div_cancel_left i w.chunk_pos) (omega (arith, few_chunks)) in
          rw
            (
              begin_lem,
              offset_lem,
              id,
              size_lem,
              block_lem,
              take-length (length block) block (omega arith),
            )
            (ground (arith, w.chunk_pos)))

  -- The request for a chunk names its place and its size, whatever the place of the chunk in the
  -- data. Where another client has the same sizes of pieces and of the data, and reads a block of
  -- the chunk's size there, its answer to the request carries that block, and the first client
  -- takes the answer for the same chunk with the same bytes.
  pub chunk_transfer :
      (td' : TorrentData) (fuel : ℕ) (fs : FileSystem) (disk : Disk) (q : Peer) (block : List ℕ)
      → SameLayout td' td
      → block_of (torrent_data_read_data fuel fs disk td' (td.chunk_size * i) size) size
        ≡ some block
      → length block ≡ size
      → Transfers td td' fuel fs disk q i block
  unfolding peer_handle_msg_request answer_request
  chunk_transfer td' fuel fs disk q block same read e =
      let asked : requested
            (torrent_data_get_piece_info td' (extend64 (ntohl (u32_of_bytes (drop 5 sent))))) sent
          ≡ some (td.chunk_size * i, size) =
        rw (same_piece td' td _ same) requested_lem in
      (sent, chunk_request_lem, rw (asked, read, peer_handle_msg_request), received_lem block e)
