-- ===== src/TorrentData/Chunks/Small.antt =====
-- `torrent_data_write_chunk` in src/torrent/torrent_data.c where a piece has fewer than eight chunks.
use uvg_torrent_c.Prelude.{
  ℕ, ◌+◌, ◌/◌, ◌<◌, ◌≡◌, refl, ltb, ◌==◌, List, Option, none, some, length, Bool-cases, inl, inr,
}
use uvg_torrent_c.Prelude.Words.{sub64, to_int}
use uvg_torrent_c.Bitfield.{get_bit, set_bit}
use uvg_torrent_c.HashMap.{hashmap_get}
use uvg_torrent_c.TorrentData.{
  TorrentData, ChunkInfo, PieceInfo, Info, info, failed, fault, exit_failure,
  torrent_data_get_chunk_info, torrent_data_get_piece_info,
}
use uvg_torrent_c.TorrentData.Complete.{small_piece_complete}
use uvg_torrent_c.TorrentData.Disk.{Disk}
use uvg_torrent_c.TorrentData.Chunks.{
  Env, WriteResult, wrote, write_fault, held_piece, mark_chunk, accept_chunk, check_size,
  find_piece, check_new, torrent_data_write_chunk,
}

-- The call fails, no file has changed, and no piece is counted as complete.
abbrev pub Unwritten : TorrentData → Disk → WriteResult → Type 0
Unwritten td disk write_fault = Unit
Unwritten td disk (wrote status td' disk') =
    (status ≡ exit_failure) × (disk' ≡ disk) × (td'.completed_pieces ≡ td.completed_pieces)

module _ (env : Env) (bytes : List ℕ) (disk : Disk) where
  mark-Unwritten :
      (td : TorrentData) (ci : ChunkInfo) (pi : PieceInfo) (piece : List ℕ)
      → td.piece_size / td.chunk_size < 8
      → Unwritten td disk (mark_chunk env td ci pi piece disk)
  unfolding mark_chunk
  mark-Unwritten td ci pi piece h =
      rw
        (
          small_piece_complete (record td { completed = set_bit td.completed ci.chunk_id 1 })
              pi.piece_id h,
          small_piece_complete td pi.piece_id h,
        )
        (refl, refl, refl)

  module _ (td : TorrentData) (h : td.piece_size / td.chunk_size < 8) where
    accept-Unwritten :
        (ci : ChunkInfo) (pi : PieceInfo) → Unwritten td disk (accept_chunk env td ci pi bytes disk)
    unfolding accept_chunk
    accept-Unwritten ci pi =
        let (found, pieces) = hashmap_get td.pieces (env.sprintf_i ci.piece_id) in
        elim (Bool-cases (
          ltb (length (held_piece td found))
            (to_int (sub64 ci.chunk_offset pi.piece_offset) + ci.chunk_size))) [
              | inl over ↦ rw over tt
              | inr fits ↦ rw fits (mark-Unwritten (record td { pieces = pieces }) ci pi _ h)
            ]

    check-Unwritten :
        (ci : ChunkInfo) (pi : Info PieceInfo)
        → Unwritten td disk (check_size env td ci pi bytes disk)
    unfolding check_size
    check-Unwritten ci failed = tt
    check-Unwritten ci fault = tt
    check-Unwritten ci (info pi) = elim (Bool-cases (length bytes == ci.chunk_size)) [
      | inl e ↦ rw e (accept-Unwritten ci pi)
      | inr n ↦ rw n (refl, refl, refl)
    ]

    find-Unwritten : (ci : Info ChunkInfo) → Unwritten td disk (find_piece env td ci bytes disk)
    unfolding find_piece
    find-Unwritten failed = tt
    find-Unwritten fault = tt
    find-Unwritten (info ci) = check-Unwritten ci (torrent_data_get_piece_info td ci.piece_id)

    new-Unwritten :
        (chunk_id : ℕ) (b : Option ℕ) → Unwritten td disk (check_new env td chunk_id b bytes disk)
    unfolding check_new
    new-Unwritten chunk_id none = tt
    new-Unwritten chunk_id (some b) = elim (Bool-cases (b == 1)) [
      | inl e ↦ rw e (refl, refl, refl)
      | inr n ↦ rw n (find-Unwritten (torrent_data_get_chunk_info td chunk_id))
    ]

    -- Where a piece has fewer than eight chunks, no call writes to a file or counts a piece as
    -- complete, and every call that returns fails.
    pub small_piece-Unwritten :
        (chunk_id : ℕ) → Unwritten td disk (torrent_data_write_chunk env td chunk_id bytes disk)
    unfolding torrent_data_write_chunk
    small_piece-Unwritten chunk_id = new-Unwritten chunk_id (get_bit td.completed chunk_id)
