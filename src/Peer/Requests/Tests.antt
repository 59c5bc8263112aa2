-- ===== src/Peer/Requests/Tests.antt =====
-- A chunk from one client of src/peer/peer_messages.c to another.
use uvg_torrent_c.Prelude.{◌+◌, refl, [], ◌∷◌, arith}
use uvg_torrent_c.TorrentData.Example.{torrent, torrent-IsSized, seven, disk_ok}
use uvg_torrent_c.Peer.Example.{peer_with}
use uvg_torrent_c.Peer.Requests.{block_of}
use uvg_torrent_c.Peer.Requests.Transfer.{Transfers, chunk_transfer}
use uvg_torrent_c.TorrentData.Disk.{
  Disk, torrent_data_read_data, read_loop, read_piece, read_files, load_bytes,
}
use uvg_torrent_c.TorrentData.{torrent_data_get_piece_info}

-- Each file counts from ten.
abbrev counted : Disk
counted p o = 10 + o

chunk_transfer_example :
    Transfers (torrent seven) (torrent seven) 9 disk_ok counted (peer_with []) 6 (12 ∷ 13 ∷ [])
unfolding block_of torrent_data_read_data read_loop torrent_data_get_piece_info read_piece
    read_files load_bytes
chunk_transfer_example =
    chunk_transfer (torrent-IsSized seven) (omega arith) 6 (omega arith) (torrent seven) 9 disk_ok
      counted (peer_with []) (12 ∷ 13 ∷ []) (refl, refl) refl refl
