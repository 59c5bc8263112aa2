-- ===== src/Peer/Pieces/Exchange.antt =====
-- The bit field of src/peer/peer_messages.c between two peers: what one client has, the other learns.
use uvg_torrent_c.Prelude.{
  ℕ, zero, suc, ◌+◌, ◌/◌, ◌^◌, ◌≤◌, ◌<◌, ◌≡◌, refl, sym, ap, ◌∙◌, ◌&&◌, List, [], ◌++◌, Option,
  none, some, ltb, leb, if◌then◌else◌, drop, take, take-length, drop-length, length, append-nil,
  arith, Bool, true, false,
}
use uvg_torrent_c.Prelude.Words.{sub64, to_int}
use uvg_torrent_c.Bitfield.{Bitfield, new, set_bit}
use uvg_torrent_c.Bitfield.Laws.{IsValid, bit, bit-set_bit, set_bit-IsValid, counts-set_bit}
use uvg_torrent_c.Bitfield.Fresh.{new-IsValid, counts-new}
use uvg_torrent_c.NetUtils.{
  ntohl, htonl, u32_bytes, u32_of_bytes, ntohl-htonl, htonl-lt, u32_of_bytes-u32_bytes,
}
use uvg_torrent_c.TorrentData.{TorrentData, torrent_data_is_piece_complete}
use uvg_torrent_c.Peer.{Peer}
use uvg_torrent_c.Peer.Messages.{exit_success, get_msg_length, get_msg_buffer_size}
use uvg_torrent_c.Peer.Pieces.{
  bit_value, set_pieces, own_pieces, copy_bytes, bitfield_msg, field_size, received_field,
  after_field, peer_handle_msg_bitfield,
}
use uvg_torrent_c.Peer.Pieces.Interest.{IsUpdated, update_interested_lem}

bit_value-lt : (b : Bool) → bit_value b < 2
bit_value-lt true = omega arith
bit_value-lt false = omega arith

module _ (td : TorrentData) where
  abbrev has_piece : ℕ → ℕ
  has_piece i = bit_value (torrent_data_is_piece_complete td i)

  -- The loop keeps the shape of the field, and gives each of its bits its value.
  set_pieces-IsValid :
      (i rounds : ℕ) {b : Bitfield} → IsValid b → IsValid (set_pieces td i rounds b)
  unfolding set_pieces
  set_pieces-IsValid i zero w = w
  set_pieces-IsValid i (suc rounds) w =
      set_pieces-IsValid (i + 1) rounds (set_bit-IsValid i (has_piece i) w (bit_value-lt _))

  counts-set_pieces :
      (i rounds : ℕ) (b : Bitfield)
      → ((set_pieces td i rounds b).bit_count ≡ b.bit_count)
        × ((set_pieces td i rounds b).bytes_count ≡ b.bytes_count)
  unfolding set_pieces
  counts-set_pieces i zero b = (refl, refl)
  counts-set_pieces i (suc rounds) b = ground (
    arith,
    counts-set_pieces (i + 1) rounds (set_bit b i (has_piece i)),
    counts-set_bit b i (has_piece i),
  )

  bit-set_pieces :
      (i rounds j : ℕ) {b : Bitfield}
      → IsValid b
      → i + rounds ≤ b.bit_count
      → bit (set_pieces td i rounds b) j
        ≡ (if leb i j && ltb j (i + rounds) then has_piece j else bit b j)
  unfolding set_pieces
  bit-set_pieces i zero j w h = ground arith
  bit-set_pieces i (suc rounds) j {b} w h = ground (
    arith,
    bit-set_pieces (i + 1) rounds j (set_bit-IsValid i (has_piece i) w (bit_value-lt _)),
    bit-set_bit i (has_piece i) w (bit_value-lt _) j,
    counts-set_bit b i (has_piece i),
  )

  own_pieces-IsValid : IsValid (own_pieces td)
  unfolding own_pieces
  own_pieces-IsValid =
      set_pieces-IsValid 0 td.piece_count
        (new-IsValid 0 (omega arith) td.piece_count 0 (omega arith))

  counts-own_pieces :
      ((own_pieces td).bit_count ≡ td.piece_count)
      × ((own_pieces td).bytes_count ≡ (td.piece_count + 7) / 8)
  unfolding own_pieces
  counts-own_pieces =
      let shape = counts-set_pieces 0 td.piece_count (new td.piece_count 0 0x00) in
      let fresh = counts-new td.piece_count 0 0 in (shape.0 ∙ fresh.0, shape.1 ∙ fresh.1)

  bit-own_pieces : (j : ℕ) → j < td.piece_count → bit (own_pieces td) j ≡ has_piece j
  unfolding own_pieces
  bit-own_pieces j h =
      bit-set_pieces 0 td.piece_count j (new-IsValid 0 (omega arith) td.piece_count 0 (omega arith))
        (omega (arith, counts-new td.piece_count 0 0))
      ∙ ground arith

-- The parts of a bit field message as its reader finds them.
module _ (bytes : List ℕ) (bound : length bytes < 2 ^ 31) where
  msg_size : sub64 (get_msg_buffer_size (bitfield_msg bytes)) 5 ≡ length bytes
  unfolding get_msg_buffer_size get_msg_length bitfield_msg
  msg_size =
      let n = to_int (1 + length bytes) in
      let stated : ntohl (u32_of_bytes (bitfield_msg bytes)) ≡ 1 + length bytes =
        ap ntohl (u32_of_bytes-u32_bytes (htonl n) _ (htonl-lt n))
        ∙ (ntohl-htonl n (omega arith) ∙ omega (arith, bound)) in
      let whole : sub64 (4 + (1 + length bytes)) 5 ≡ length bytes = omega (arith, bound) in
      ap (λ k. sub64 (4 + k) 5) stated ∙ whole

  msg_bytes :
      take (sub64 (get_msg_buffer_size (bitfield_msg bytes)) 5) (drop 5 (bitfield_msg bytes))
      ≡ bytes
  unfolding bitfield_msg u32_bytes
  msg_bytes = rw msg_size (take-length (length bytes) bytes (omega arith))

  received_lem :
      (q : Peer) (td' : TorrentData) (o : Option Bitfield)
      → received_field q.peer_bitfield (field_size td' (length bytes)) bytes ≡ o
      → peer_handle_msg_bitfield q (bitfield_msg bytes) td' ≡ after_field q td' o
  unfolding peer_handle_msg_bitfield
  received_lem q td' o e = rw (msg_bytes, msg_size, e)

-- A full copy into a new field of the same shape.
copy_all :
    (b : Bitfield) (n : ℕ)
    → IsValid b
    → b.bit_count ≡ n
    → b.bytes_count ≡ (n + 7) / 8
    → copy_bytes (new n 0 0x00) b.bytes ≡ some b
unfolding copy_bytes
copy_all b n w bits bytes =
    let fresh = new-IsValid 0 (omega arith) n 0 (omega arith) in
    let (bits', bytes') = counts-new n 0 0 in
    let rest : drop (length b.bytes) (new n 0 0x00).bytes ≡ [] =
      drop-length (length b.bytes) (new n 0 0x00).bytes
        (omega (arith, fresh.allocated, w.allocated)) in
    let fits : ltb (length (new n 0 0x00).bytes) (length b.bytes) ≡ false =
      ground (arith, fresh.allocated, w.allocated) in
    let whole : b.bytes ++ drop (length b.bytes) (new n 0 0x00).bytes ≡ b.bytes =
      rw rest (append-nil b.bytes) in
    rw fits (λ i. some (record {
      bit_count = (bits' ∙ sym bits) i;
      bytes_count = (bytes' ∙ sym bytes) i;
      bytes = whole i;
    }))

-- What a client has learned of the pieces of another: the bit of each piece, and its interest.
abbrev pub Learned : TorrentData → TorrentData → Peer → Peer → Type 0
Learned td td' q q' =
    (has : Bitfield) × (q'.peer_bitfield ≡ some has)
    × ((i : ℕ) → i < td.piece_count → bit has i ≡ bit_value (torrent_data_is_piece_complete td i))
    × IsUpdated td' has (record q { peer_bitfield = some has }) q'

-- A client whose data is needed, and that has no bit field of a peer yet, takes the bit field that
-- the peer sends. Where both have the same number of pieces, the bit of each piece is then whether
-- the peer has it complete, and the client is interested exactly if there is a piece that the peer
-- has and it has not.
pub bitfield_arrives :
    (td td' : TorrentData) (q : Peer)
    → td'.piece_count ≡ td.piece_count
    → td.piece_count < 2 ^ 31
    → td'.needed ≡ 1
    → q.peer_bitfield ≡ none
    → q.am_interested < 2
    → (q' : Peer) × (peer_handle_msg_bitfield q (bitfield_msg (own_pieces td).bytes) td'
        ≡ some (exit_success, q'))
      × Learned td td' q q'
unfolding after_field received_field
bitfield_arrives td td' q same int needs fresh flag =
    let own = own_pieces td in
    let w = own_pieces-IsValid td in
    let (bits, bytes) = counts-own_pieces td in
    let bound : length own.bytes < 2 ^ 31 = omega (arith, w.allocated) in
    let known : field_size td' (length own.bytes) ≡ td.piece_count = ground arith in
    let small : ltb td.piece_count (2 ^ 31) ≡ true = ground arith in
    let taken : received_field q.peer_bitfield (field_size td' (length own.bytes)) own.bytes
        ≡ some own =
      ap (λ o. received_field o (field_size td' (length own.bytes)) own.bytes) fresh
      ∙ rw known (rw (small, received_field) (copy_all own td.piece_count w bits bytes)) in
    let (q', run, updated) =
      update_interested_lem td' (record q { peer_bitfield = some own }) own refl w flag in
    (
      q',
      received_lem own.bytes bound q td' (some own) taken ∙ rw (run, after_field),
      (own, updated.0, (λ i h. bit-own_pieces td i h), updated),
    )

-- A bit field with more bytes than there are pieces for is copied past the end of the field that is
-- made for it.
pub long_bitfield_overflows :
    (td' : TorrentData) (q : Peer) (bytes : List ℕ)
    → td'.needed ≡ 1
    → q.peer_bitfield ≡ none
    → length bytes < 2 ^ 31
    → (td'.piece_count + 7) / 8 < length bytes
    → peer_handle_msg_bitfield q (bitfield_msg bytes) td' ≡ none
unfolding received_field after_field copy_bytes
long_bitfield_overflows td' q bytes needs fresh bound long =
    let (bits, count) = counts-new td'.piece_count 0 0 in
    let fresh_IsValid = new-IsValid 0 (omega arith) td'.piece_count 0 (omega arith) in
    let short : ltb (length (new td'.piece_count 0 0x00).bytes) (length bytes) ≡ true =
      ground (arith, fresh_IsValid.allocated) in
    let known : field_size td' (length bytes) ≡ td'.piece_count = ground arith in
    let lost : received_field none td'.piece_count bytes ≡ none = ground arith in
    received_lem bytes bound q td' none
      (ap (λ o. received_field o (field_size td' (length bytes)) bytes) fresh ∙ rw known lost)
