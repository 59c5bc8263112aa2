-- ===== src/Peer/Pieces/Tests.antt =====
-- The exchange of pieces of src/peer/peer_messages.c at concrete peers.
use uvg_torrent_c.Prelude.{ℕ, zero, suc, ◌<◌, get_or, ◌≡◌, refl, [], ◌∷◌, some, arith}
use uvg_torrent_c.Bitfield.{Bitfield}
use uvg_torrent_c.Bitfield.Laws.{IsValid}
use uvg_torrent_c.TorrentData.Example.{torrent, seven}
use uvg_torrent_c.Peer.{Peer}
use uvg_torrent_c.Peer.Example.{peer_with}
use uvg_torrent_c.Peer.Messages.{exit_success}
use uvg_torrent_c.Peer.Pieces.{
  peer_update_interested, peer_handle_msg_bitfield, bitfield_msg, own_pieces,
}
use uvg_torrent_c.Peer.Pieces.Interest.{IsUpdated, update_interested_lem}
use uvg_torrent_c.Peer.Pieces.Exchange.{Learned, bitfield_arrives}

-- The bit field of a peer that has the second piece.
abbrev second : Bitfield
second = record { bit_count = 2; bytes_count = 1; bytes = 0x40 ∷ [] }

second-IsValid : IsValid second
second-IsValid = record { sized = refl; allocated = refl; in_range = below }
  where
    below : (i : ℕ) → get_or (0x40 ∷ []) i 0 < 256
    below zero = omega arith
    below (suc i) = omega arith

update_interested_lem_example :
    (p' : Peer) × (peer_update_interested
        (record (peer_with []) { peer_bitfield = some second })
        (torrent seven)
      ≡ some p')
    × IsUpdated (torrent seven) second (record (peer_with []) { peer_bitfield = some second }) p'
update_interested_lem_example =
    update_interested_lem (torrent seven) (record (peer_with []) { peer_bitfield = some second })
      second refl second-IsValid (omega arith)

bitfield_arrives_example :
    (q' : Peer) × (peer_handle_msg_bitfield
        (peer_with [])
        (bitfield_msg (own_pieces (torrent seven)).bytes)
        (torrent seven)
      ≡ some (exit_success, q'))
    × Learned (torrent seven) (torrent seven) (peer_with []) q'
bitfield_arrives_example =
    bitfield_arrives (torrent seven) (torrent seven) (peer_with []) refl (omega arith) refl refl
      (omega arith)
