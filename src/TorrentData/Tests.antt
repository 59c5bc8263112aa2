-- ===== src/TorrentData/Tests.antt =====
-- The laws of src/torrent/torrent_data.c at a torrent of two pieces.
use uvg_torrent_c.Prelude.{
  ℕ, ◌-◌, ◌/◌, ◌<◌, ◌≡◌, ◌↔◌, refl, true, ◌&&◌, ltb, leb, if◌then◌else◌, arith, get_or,
}
use uvg_torrent_c.Bitfield.Laws.{bit}
use uvg_torrent_c.TorrentData.{torrent_data_is_piece_complete}
use uvg_torrent_c.TorrentData.Example.{
  files, torrent, seven, two_bytes-IsValid, disk_ok, disk_ok-Works, blank, piece, files-HasOwnPaths,
}
use uvg_torrent_c.TorrentData.Complete.{IsPadded, is_piece_complete_iff}
use uvg_torrent_c.TorrentData.Disk.{Disk, written, write_files}
use uvg_torrent_c.TorrentData.Disk.Image.{byte_at}
use uvg_torrent_c.TorrentData.Disk.Writing.{write_files_lem}

write_files_lem_example :
    (disk' : Disk) × (write_files disk_ok piece 8 4 files 0 blank ≡ written 4 disk')
    × ((pos : ℕ)
        → byte_at disk' files pos
          ≡ (if leb 8 pos && ltb pos 12 then get_or piece (pos - 8) 0 else byte_at blank files pos))
write_files_lem_example =
    let (disk', run, placed, others) =
      write_files_lem disk_ok disk_ok-Works piece 8 4 (omega arith) files blank (refl, (refl, tt))
        files-HasOwnPaths (omega arith) (omega arith) in
    (disk', run, placed)

all_bits-IsPadded : IsPadded seven
all_bits-IsPadded j lo hi = absurd (omega arith)

is_piece_complete_iff_example :
    (torrent_data_is_piece_complete (torrent seven) 0 ≡ true)
    ↔ ((i : ℕ) → i < 16 → i / 8 ≡ 0 → bit seven i ≡ 1)
is_piece_complete_iff_example =
    is_piece_complete_iff (torrent seven) (two_bytes-IsValid 0xFE 0 (omega arith) (omega arith))
      all_bits-IsPadded 1 0 (omega arith) refl (omega arith)
