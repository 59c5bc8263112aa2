-- ===== src/Peer/Pieces.antt =====
-- The messages of src/peer/peer_messages.c that tell which pieces a peer has: "have" and the bit
-- field, and the interest of this client that follows from them. The result `none` is an access out
-- of bounds or through NULL. While a peer sends what is in its progress queue, nothing is pushed.
pub mod Interest
pub mod Exchange
mod Tests
use uvg_torrent_c.Bitfield
use uvg_torrent_c.Bitfield.{Bitfield}
use uvg_torrent_c.Prelude.{
  ℕ, zero, suc, ◌+◌, ◌*◌, ◌^◌, Bool, true, false, not, ◌&&◌, List, [], ◌∷◌, ◌++◌, Option, none,
  some, ltb, ◌==◌, if◌then◌else◌, take, drop, length,
}
use uvg_torrent_c.Prelude.Words.{sub64, mul64, to_int, extend64}
use uvg_torrent_c.NetUtils.{ntohl, htonl, u32_bytes, u32_of_bytes}
use uvg_torrent_c.Queue.Heap.{Nodes}
use uvg_torrent_c.Queue.{Queue, queue_pop, queue_get_count}
use uvg_torrent_c.TorrentData.{
  TorrentData, torrent_data_is_complete, torrent_data_is_piece_complete,
}
use uvg_torrent_c.Peer.{Peer}
use uvg_torrent_c.Peer.Messages.{
  Status, exit_success, exit_failure, send_bytes, is_handshake_complete, get_msg_buffer_size,
  peer_send_msg_interested, peer_send_msg_not_interested,
}

-- `have` of a round: 0 as long as the data is not needed yet.
unfoldable pub have_piece : TorrentData → ℕ → Bool
have_piece td i =
    if torrent_data_is_complete td
    then true
    else if td.needed == 1
    then torrent_data_is_piece_complete td i
    else false

-- `have == 0 && bitfield_get_bit(p->peer_bitfield, i) == 1`
unfoldable pub is_interesting : TorrentData → Bitfield → ℕ → Option Bool
is_interesting td has i =
    if have_piece td i
    then some false
    else (elim (Bitfield.get_bit has i) [ none ↦ none | some b ↦ some (b == 1) ])

-- The loop over the pieces from `i` on, over the rounds left.
unfoldable pub find_interesting : TorrentData → Bitfield → ℕ → ℕ → Option Bool
find_interesting td has i zero = some false
find_interesting td has i (suc rounds) = elim (is_interesting td has i) [
  | none ↦ none
  | some true ↦ some true
  | some false ↦ find_interesting td has (i + 1) rounds
]

-- What the messages return is not read.
unfoldable pub change_interest : Bool → Peer → Peer
change_interest found p =
    if (p.am_interested == 0) && found
    then (peer_send_msg_interested p).1
    else if (p.am_interested == 1) && not found
    then (peer_send_msg_not_interested p).1
    else p

-- By `p->peer_bitfield`.
unfoldable pub update_with : Option Bitfield → Peer → TorrentData → Option Peer
update_with none p td = some p
update_with (some has) p td = elim (find_interesting td has 0 has.bit_count) [
  | none ↦ none
  | some found ↦ some (change_interest found p)
]

unfoldable pub peer_update_interested : Peer → TorrentData → Option Peer
peer_update_interested p td = update_with p.peer_bitfield p td

unfoldable pub peer_should_send_msg_have : Peer → Bool
peer_should_send_msg_have p =
    ltb 0 (queue_get_count p.progress_queue) && is_handshake_complete p.status

-- `struct PEER_MSG_HAVE`
unfoldable pub have_msg : ℕ → List ℕ
have_msg piece_id = u32_bytes (htonl 5) ++ (4 ∷ u32_bytes (htonl piece_id))

-- Behind the write of a message: the next round, or the end.
unfoldable pub after_have :
    Status × Peer
    → Nodes ℕ
    → (Peer → Option (Status × Peer × Nodes ℕ))
    → Option (Status × Peer × Nodes ℕ)
after_have (exit_failure, p) h next = some (exit_failure, p, h)
after_have (exit_success, p) h next = next p

-- The loop over the progress queue, over the rounds left.
unfoldable pub send_haves : ℕ → Peer → Nodes ℕ → Option (Status × Peer × Nodes ℕ)
send_haves zero p h = some (exit_success, p, h)
send_haves (suc rounds) p h = elim (queue_pop p.progress_queue h) [
  | none ↦ none
  | some (none, q, h') ↦ none
  | some (some piece_id, q, h') ↦
      after_have (send_bytes (record p { progress_queue = q }) (have_msg piece_id)) h'
        (λ p'. send_haves rounds p' h')
]

unfoldable pub after_haves :
    TorrentData → Option (Status × Peer × Nodes ℕ) → Option (Status × Peer × Nodes ℕ)
after_haves td none = none
after_haves td (some (exit_failure, p, h)) = some (exit_failure, p, h)
after_haves td (some (exit_success, p, h)) = elim (peer_update_interested p td) [
  | none ↦ none
  | some p' ↦ some (exit_success, p', h)
]

unfoldable pub peer_send_msg_have : Peer → TorrentData → Nodes ℕ → Option (Status × Peer × Nodes ℕ)
peer_send_msg_have p td h = after_haves td (send_haves (queue_get_count p.progress_queue) p h)

-- The bit field of the peer, or a new one that is all 0.
abbrev pub field_or_new : Option Bitfield → ℕ → Bitfield
field_or_new none bit_count = Bitfield.new bit_count 0 0x00
field_or_new (some has) bit_count = has

-- A piece id from 2 ^ 31 on is negative as an `int`, and no bit of the field as a `size_t`.
unfoldable pub peer_handle_msg_have : Peer → List ℕ → TorrentData → Option Peer
peer_handle_msg_have p msg td =
    let has = field_or_new p.peer_bitfield td.piece_count in
    let piece_id = extend64 (ntohl (u32_of_bytes (drop 5 msg))) in
    peer_update_interested (record p { peer_bitfield = some (Bitfield.set_bit has piece_id 1) }) td

unfoldable pub peer_should_send_msg_bitfield : Peer → TorrentData → Bool
peer_should_send_msg_bitfield p td =
    is_handshake_complete p.status && (p.msg_bitfield_sent == 0) && (td.needed == 1)

abbrev pub bit_value : Bool → ℕ
bit_value true = 1
bit_value false = 0

-- The loop that sets a bit for each piece, over the rounds left.
unfoldable pub set_pieces : TorrentData → ℕ → ℕ → Bitfield → Bitfield
set_pieces td i zero b = b
set_pieces td i (suc rounds) b =
    set_pieces td (i + 1) rounds
      (Bitfield.set_bit b i (bit_value (torrent_data_is_piece_complete td i)))

-- `msg_bitfield` as it is sent.
unfoldable pub own_pieces : TorrentData → Bitfield
own_pieces td = set_pieces td 0 td.piece_count (Bitfield.new td.piece_count 0 0x00)

-- `memcpy` to the front of the bytes; out of bounds if there is no room.
unfoldable pub copy_bytes : Bitfield → List ℕ → Option Bitfield
copy_bytes b source =
    if ltb (length b.bytes) (length source)
    then none
    else some (record b { bytes = source ++ drop (length source) b.bytes })

-- The bit field that a peer sent before the number of pieces was known grows to its size.
unfoldable pub resize_field : TorrentData → Option Bitfield → Option (Option Bitfield)
resize_field td none = some none
resize_field td (some has) =
    if ltb has.bytes_count (Bitfield.new td.piece_count 0 0x00).bytes_count
    then (elim (copy_bytes (Bitfield.new td.piece_count 0 0x00) (take has.bytes_count has.bytes)) [
      | none ↦ none
      | some grown ↦ some (some grown)
    ])
    else some (some has)

-- `struct PEER_MSG_BITFIELD`
unfoldable pub bitfield_msg : List ℕ → List ℕ
bitfield_msg bytes = u32_bytes (htonl (to_int (1 + length bytes))) ++ (5 ∷ bytes)

unfoldable pub peer_send_msg_bitfield : Peer → TorrentData → Option (Status × Peer)
peer_send_msg_bitfield p td = elim (resize_field td p.peer_bitfield) [
  | none ↦ none
  | some resized ↦ some (
      send_bytes (record p { msg_bitfield_sent = 1; peer_bitfield = resized })
        (bitfield_msg (own_pieces td).bytes))
]

-- The number of bits that a new field gets. It is an `int`; a negative one is a size that `malloc`
-- refuses, and NULL is followed.
abbrev pub field_size : TorrentData → ℕ → ℕ
field_size td bitfield_size =
    if td.needed == 1 then td.piece_count else to_int (mul64 bitfield_size 8)

unfoldable pub received_field : Option Bitfield → ℕ → List ℕ → Option Bitfield
received_field none bit_count bytes =
    if ltb bit_count (2 ^ 31) then copy_bytes (Bitfield.new bit_count 0 0x00) bytes else none
received_field (some has) bit_count bytes = copy_bytes has bytes

unfoldable pub after_field : Peer → TorrentData → Option Bitfield → Option (Status × Peer)
after_field p td none = none
after_field p td (some has) =
    elim (peer_update_interested (record p { peer_bitfield = some has }) td) [
      | none ↦ none
      | some p' ↦ some (exit_success, p')
    ]

-- The test of the size compares the count with itself, and never fails.
unfoldable pub peer_handle_msg_bitfield : Peer → List ℕ → TorrentData → Option (Status × Peer)
peer_handle_msg_bitfield p msg td =
    let bitfield_size = sub64 (get_msg_buffer_size msg) 5 in
    after_field p td (
      received_field p.peer_bitfield (field_size td bitfield_size)
        (take bitfield_size (drop 5 msg)))
