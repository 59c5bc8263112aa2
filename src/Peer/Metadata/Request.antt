-- ===== src/Peer/Metadata/Request.antt =====
-- `peer_send_ut_metadata_request` of src/peer/peer_ut_metadata.c: a peer asks for a chunk of the
-- metadata. What `be_encode` makes of the dictionary of a request is an argument. The result `none` is
-- a signed overflow, a bit field that `malloc` refuses and that is followed all the same, or a read
-- out of bounds.
use uvg_torrent_c.Bitfield
use uvg_torrent_c.Bitfield.{Bitfield}
use uvg_torrent_c.Prelude.{
  ℕ, ◌+◌, ◌/◌, ◌^◌, List, [], ◌∷◌, Option, none, some, ltb, ◌==◌, if◌then◌else◌, CString,
}
use uvg_torrent_c.Prelude.Words.{extend64}
use uvg_torrent_c.TorrentData
use uvg_torrent_c.TorrentData.{
  TorrentData, torrent_data_set_piece_size, torrent_data_set_chunk_size, torrent_data_add_file,
  torrent_data_set_data_size,
}
use uvg_torrent_c.TorrentData.Claims.{torrent_data_claim_chunk}
use uvg_torrent_c.Peer.{Peer}
use uvg_torrent_c.Peer.Bencode.{BeNode, be_dict, be_dict_add_num, msg_type_key, piece_key}
use uvg_torrent_c.Peer.Messages.{Status, exit_failure, send_bytes}
use uvg_torrent_c.Peer.Metadata.{metadata_msg}

abbrev pub metadata_piece_size : ℕ
metadata_piece_size = 262144

abbrev pub metadata_chunk_size : ℕ
metadata_chunk_size = 16384

-- `"/metadata.bencode"`
abbrev pub metadata_path : CString
metadata_path =
    b'/' ∷ b'm' ∷ b'e' ∷ b't' ∷ b'a' ∷ b'd' ∷ b'a' ∷ b't' ∷ b'a' ∷ b'.' ∷ b'b' ∷ b'e' ∷ b'n' ∷ b'c'
    ∷ b'o' ∷ b'd' ∷ b'e' ∷ []

-- `(ut_metadata_size + (METADATA_CHUNK_SIZE - 1)) / METADATA_CHUNK_SIZE` on an `int`, by its 32 bits:
-- a sum that is too large overflows, one from -16383 to 0 gives 0, and a negative count is more than
-- `malloc` gives.
unfoldable pub requested_count : ℕ → Option ℕ
requested_count size =
    if ltb size (2 ^ 31)
    then (if ltb (size + 16383) (2 ^ 31) then some ((size + 16383) / metadata_chunk_size) else none)
    else if ltb (2 ^ 32) (size + 32767)
    then some 0
    else none

-- The chunks that this peer has not been asked for; all of them at first.
unfoldable pub requested_field : Option Bitfield → ℕ → Option Bitfield
requested_field (some b) size = some b
requested_field none size = elim (requested_count size) [
  | none ↦ none
  | some chunk_count ↦ some (Bitfield.new chunk_count 1 0xFF)
]

-- The metadata gets its layout when the first peer is asked. What `torrent_data_set_data_size` returns
-- is not read.
unfoldable pub init_metadata : ℕ → TorrentData → Option TorrentData
init_metadata size td =
    let laid : TorrentData =
      torrent_data_add_file
        (torrent_data_set_chunk_size (torrent_data_set_piece_size td metadata_piece_size)
          metadata_chunk_size)
        metadata_path (extend64 size) in
    if td.initialized == 0
    then (elim (torrent_data_set_data_size laid (extend64 size)) [
      | none ↦ none
      | some (status, td') ↦ some td'
    ])
    else some td

-- The chunk that was claimed, or 0 if nothing was written.
abbrev pub claimed_piece : List (Option ℕ) → ℕ
claimed_piece [] = 0
claimed_piece (none ∷ out) = 0
claimed_piece (some i ∷ out) = i

-- The dictionary of a request.
unfoldable pub request_dict : ℕ → BeNode
request_dict i = be_dict_add_num (be_dict_add_num be_dict msg_type_key 0) piece_key i

-- The bit of the chunk is cleared, and the request is written, encoded into a buffer of 1000 bytes.
unfoldable pub request_piece : (encode : BeNode → ℕ → List ℕ) → Peer → Bitfield → ℕ → Status × Peer
request_piece encode p requested i =
    send_bytes (record p { ut_metadata_requested = some (Bitfield.set_bit requested i 0) })
      (metadata_msg p.ut_metadata (encode (request_dict i) 1000))

-- By what the claim returns.
unfoldable pub after_metadata_claim :
    (encode : BeNode → ℕ → List ℕ)
    → Peer
    → Bitfield
    → Option (TorrentData.Status × List (Option ℕ) × TorrentData)
    → Option (Status × Peer × TorrentData)
after_metadata_claim encode p requested none = none
after_metadata_claim encode p requested (some (TorrentData.exit_failure, out, td)) =
    some (exit_failure, p, td)
after_metadata_claim encode p requested (some (TorrentData.exit_success, out, td)) =
    let (status, p') = request_piece encode p requested (claimed_piece out) in some (status, p', td)

-- The timeout is 0, so that nothing is claimed for the peer.
unfoldable pub request_from :
    (clock : ℕ → ℕ)
    → (encode : BeNode → ℕ → List ℕ) → Peer
    → Option Bitfield
    → Option TorrentData
    → Option (Status × Peer × TorrentData)
request_from clock encode p none td = none
request_from clock encode p (some requested) none = none
request_from clock encode p (some requested) (some td) =
    after_metadata_claim encode (record p { ut_metadata_requested = some requested }) requested
      (torrent_data_claim_chunk clock td requested 0 1)

unfoldable pub peer_send_ut_metadata_request :
    (clock : ℕ → ℕ)
    → (encode : BeNode → ℕ → List ℕ) → Peer
    → TorrentData
    → Option (Status × Peer × TorrentData)
peer_send_ut_metadata_request clock encode p metadata =
    request_from clock encode p (requested_field p.ut_metadata_requested p.ut_metadata_size)
      (init_metadata p.ut_metadata_size metadata)
