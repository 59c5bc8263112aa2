-- ===== src/TorrentData/Chunks/Tests.antt =====
-- The laws of `torrent_data_write_chunk` in src/torrent/torrent_data.c at a torrent of two pieces.
use uvg_torrent_c.Prelude.{ℕ, ◌+◌, ◌≡◌, refl, List, [], ◌∷◌, none, arith}
use uvg_torrent_c.Bitfield.{get_in_byte, set_in_byte, set_bit}
use uvg_torrent_c.Bitfield.Laws.{IsValid, bit}
use uvg_torrent_c.HashMap.{HashMap, hashmap_new}
use uvg_torrent_c.HashMap
use uvg_torrent_c.HashMap.Laws.{view, hashmap_new_lem}
use uvg_torrent_c.TorrentData.{
  TorrentData, exit_success, exit_failure, torrent_data_is_piece_complete, all_full,
}
use uvg_torrent_c.TorrentData.Example.{
  torrent, seven, two_bytes-IsValid, torrent-IsSized, disk_ok-Works, env, blank, files-HasOwnPaths,
}
use uvg_torrent_c.TorrentData.Disk.{Disk}
use uvg_torrent_c.TorrentData.Chunks.{wrote, torrent_data_validate_piece, torrent_data_write_chunk}
use uvg_torrent_c.TorrentData.Chunks.Outcome.{write_chunk_held, write_chunk_finishes}
use uvg_torrent_c.TorrentData.Chunks.Small.{Unwritten, small_piece-Unwritten}

seven-IsValid : IsValid seven
seven-IsValid = two_bytes-IsValid 0xFE 0 (omega arith) (omega arith)

pieces-IsValid : HashMap.Laws.IsValid (torrent seven).pieces
pieces-IsValid = (hashmap_new_lem (List ℕ) 10 (omega arith)).0

-- No piece is in memory.
nothing_held : (n : ℕ) → view (torrent seven).pieces ((48 + n) ∷ []) ≡ none
nothing_held n = (hashmap_new_lem (List ℕ) 10 (omega arith)).1 ((48 + n) ∷ [])

write_chunk_held_example :
    (td' : TorrentData) × (torrent_data_write_chunk env (torrent seven) 9 (5 ∷ 6 ∷ []) blank
      ≡ wrote exit_failure td' blank)
    × (td'.left ≡ 16)
unfolding bit get_in_byte torrent_data_is_piece_complete all_full set_bit set_in_byte
write_chunk_held_example =
    let (td', run, _, _, _, _, left) =
      write_chunk_held env (torrent-IsSized seven) seven-IsValid refl 9 (omega arith) pieces-IsValid
        (omega arith) (rw (nothing_held 1) refl) (5 ∷ 6 ∷ []) blank refl refl refl in
    (td', run, left)

write_chunk_finishes_example :
    (td' : TorrentData) × (disk' : Disk) × (torrent_data_write_chunk env
        (torrent seven)
        7
        (5 ∷ 6 ∷ [])
        blank
      ≡ wrote exit_success td' disk')
    × (td'.completed_pieces ≡ 1)
unfolding bit get_in_byte torrent_data_is_piece_complete all_full set_bit set_in_byte
    torrent_data_validate_piece
write_chunk_finishes_example =
    let (td', disk', run, _, _, counted) =
      write_chunk_finishes env (torrent-IsSized seven) seven-IsValid refl 7 (omega arith)
        pieces-IsValid (omega arith) (rw (nothing_held 0) refl) (5 ∷ 6 ∷ []) blank refl refl refl
        refl refl disk_ok-Works (refl, (refl, tt)) files-HasOwnPaths refl in
    (td', disk', run, counted)

-- The same data with pieces of two chunks.
abbrev small_pieces : TorrentData
small_pieces = record (torrent seven) { piece_size = 4; piece_count = 8 }

small_piece-Unwritten_example :
    Unwritten small_pieces blank (torrent_data_write_chunk env small_pieces 9 (5 ∷ 6 ∷ []) blank)
small_piece-Unwritten_example =
    small_piece-Unwritten env (5 ∷ 6 ∷ []) blank small_pieces (omega arith) 9
