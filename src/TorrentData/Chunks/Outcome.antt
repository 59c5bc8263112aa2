-- ===== src/TorrentData/Chunks/Outcome.antt =====
-- What `torrent_data_write_chunk` in src/torrent/torrent_data.c does to a chunk that it is given.
use uvg_torrent_c.Prelude.{
  ℕ, ◌+◌, ◌-◌, ◌*◌, ◌/◌, ◌^◌, ◌<◌, ◌≡◌, ◌≢◌, ◌⊎◌, inl, inr, refl, ◌∙◌, true, false, ◌&&◌, List,
  none, some, arith, ltb, ◌==◌, if◌then◌else◌, CString, length, str_eq, str_eq_refl, min, get_or,
  leb,
}
use uvg_torrent_c.Prelude.Words.{add64, sub64, to_int}
use uvg_torrent_c.Bitfield.{set_bit}
use uvg_torrent_c.Bitfield.Laws.{IsValid, bit, get_bit-bit, bit-set_bit}
use uvg_torrent_c.HashMap
use uvg_torrent_c.HashMap.{HashMap, hashmap_get, hashmap_set}
use uvg_torrent_c.HashMap.Laws.{view, hashmap_get_lem, hashmap_set_absent}
use uvg_torrent_c.TorrentData.{
  TorrentData, ChunkInfo, PieceInfo, exit_success, exit_failure, torrent_data_is_piece_complete,
  torrent_data_is_complete,
}
use uvg_torrent_c.TorrentData.Geometry.{
  IsSized, chunk_info_lem, piece_info_lem, piece_of_chunk, chunk_split, chunk_begins,
}
use uvg_torrent_c.TorrentData.Disk.{Disk}
use uvg_torrent_c.TorrentData.Disk.Image.{byte_at, total_size, IsTiled, NotAmong, HasOwnPaths}
use uvg_torrent_c.TorrentData.Disk.Writing.{Works, write_files_lem}
use uvg_torrent_c.TorrentData.Chunks.{
  Env, wrote, copy_at, held_piece, hold, account, count_piece, after_write, finish_piece,
  mark_chunk, accept_chunk, check_size, find_piece, check_new, torrent_data_validate_piece,
  torrent_data_write_chunk,
}

-- The layout of chunk `i`, its piece, and the piece's place in the data.
module _ (env : Env) {td : TorrentData} (w : IsSized td) (v : IsValid td.completed)
    (same : td.completed.bit_count ≡ td.chunk_count) (i : ℕ) (h : i < td.chunk_count) where
  abbrev chunk_of : ChunkInfo
  chunk_of = record {
    chunk_id = i;
    piece_id = i / w.chunks_per_piece;
    chunk_size = min td.chunk_size (td.data_size - td.chunk_size * i);
    chunk_offset = td.chunk_size * i;
  }

  abbrev piece_of : PieceInfo
  piece_of = record {
    piece_id = i / w.chunks_per_piece;
    piece_size = min td.piece_size (td.data_size - td.piece_size * (i / w.chunks_per_piece));
    piece_offset = td.piece_size * (i / w.chunks_per_piece);
  }

  -- A chunk that is there already is refused, and so is a new one of the wrong size; neither
  -- changes anything. The chunk exists, the sizes of the data are set and agree, and the bit field
  -- of completed chunks is valid.
  pub write_chunk_refused :
      (bytes : List ℕ) (disk : Disk)
      → (bit td.completed i ≡ 1) ⊎ (bit td.completed i ≡ 0) × (length bytes ≢ chunk_of.chunk_size)
      → torrent_data_write_chunk env td i bytes disk ≡ wrote exit_failure td disk
  unfolding torrent_data_write_chunk check_new find_piece check_size
  write_chunk_refused bytes disk (inl there) = rw (get_bit-bit i v (rw same h), there) refl
  write_chunk_refused bytes disk (inr (new, wrong)) =
      let differs : (length bytes == chunk_of.chunk_size) ≡ false = ground arith in
      rw
        (
          get_bit-bit i v (rw same h),
          new,
          chunk_info_lem w i h,
          piece_info_lem w (i / w.chunks_per_piece) (piece_of_chunk w i h),
          differs,
        )
        refl

  accepted :
      (bytes : List ℕ) (disk : Disk)
      → bit td.completed i ≡ 0
      → length bytes ≡ chunk_of.chunk_size
      → torrent_data_write_chunk env td i bytes disk
        ≡ accept_chunk env td chunk_of piece_of bytes disk
  unfolding torrent_data_write_chunk check_new find_piece check_size
  accepted bytes disk new size =
      let fits : (length bytes == chunk_of.chunk_size) ≡ true = ground arith in
      rw
        (
          get_bit-bit i v (rw same h),
          new,
          chunk_info_lem w i h,
          piece_info_lem w (i / w.chunks_per_piece) (piece_of_chunk w i h),
          fits,
        )
        refl

  abbrev key : CString
  key = env.sprintf_i (i / w.chunks_per_piece)

  -- The piece as it is held in memory, and the data with that piece taken out.
  abbrev before : List ℕ
  before = held_piece td (view td.pieces key)

  abbrev opened : TorrentData
  opened = record td { pieces = (hashmap_get td.pieces key).1 }

  abbrev marked : TorrentData
  marked = record opened { completed = set_bit td.completed i 1 }

  -- The piece with the chunk in its place.
  abbrev after : List ℕ → List ℕ
  after bytes = copy_at before (td.chunk_size * i - piece_of.piece_offset) bytes

  module _ (maps : HashMap.Laws.IsValid td.pieces) (int : td.piece_size < 2 ^ 31)
      (room : length before ≡ td.piece_size) where
    offset :
        to_int (sub64 chunk_of.chunk_offset piece_of.piece_offset)
        ≡ td.chunk_size * i - piece_of.piece_offset
    offset = omega (arith, chunk_split w i, chunk_begins w i h, w.small)

    -- The chunk fits into the piece that is held.
    accept_lem :
        (bytes : List ℕ) (disk : Disk)
        → accept_chunk env td chunk_of piece_of bytes disk
          ≡ mark_chunk env opened chunk_of piece_of (after bytes) disk
    unfolding accept_chunk
    accept_lem bytes disk =
        let (found, _, _) = hashmap_get_lem maps key in
        let fits : ltb (length before)
              (td.chunk_size * i - piece_of.piece_offset + chunk_of.chunk_size)
            ≡ false =
          ground (arith, chunk_split w i, chunk_begins w i h, room) in
        rw (found, offset, fits) refl

    -- A chunk that is new, has the right size and does not complete its piece: it is held in memory
    -- in its place in the piece, its bit and no other bit is set, its bytes are accounted for, and
    -- no file changes. The sizes of the data are set and agree, the bit field of completed chunks
    -- and the map of pieces are valid, a piece is shorter than 2 ^ 31 bytes, and the piece that is
    -- held, or a new one, has the size of a piece.
    pub write_chunk_held :
        (bytes : List ℕ) (disk : Disk)
        → bit td.completed i ≡ 0
        → length bytes ≡ chunk_of.chunk_size
        → torrent_data_is_piece_complete marked (i / w.chunks_per_piece) ≡ false
        → (td' : TorrentData) × (torrent_data_write_chunk env td i bytes disk
            ≡ wrote exit_failure td' disk)
          × HashMap.Laws.IsValid td'.pieces
          × ((q : CString)
              → view td'.pieces q ≡ (if str_eq q key then some (after bytes) else view td.pieces q))
          × ((j : ℕ) → bit td'.completed j ≡ (if i == j then 1 else bit td.completed j))
          × (td'.downloaded ≡ add64 td.downloaded (length bytes))
          × (td'.left ≡ sub64 td.left (length bytes))
    unfolding mark_chunk
    write_chunk_held bytes disk new size partial =
        let (_, taken, maps') = hashmap_get_lem maps key in
        let gone : view (hashmap_get td.pieces key).1 key ≡ none =
          taken key ∙ rw (str_eq_refl key) refl in
        let (_, added, maps'') = hashmap_set_absent maps' key (after bytes) gone in
        (
          account (hold marked key (after bytes)) chunk_of.chunk_size,
          accepted bytes disk new size ∙ accept_lem bytes disk ∙ rw partial refl,
          maps'',
          (λ q. ground (arith, added q, taken q)),
          (λ j. bit-set_bit i 1 v (omega arith) j (rw same h)),
          rw size refl,
          rw size refl,
        )

    -- A chunk that is new, has the right size and completes its piece, where the piece then passes
    -- the validation: the files hold the piece in its place and are otherwise as they were, no
    -- other path has changed, and one more piece is counted as complete. The sizes of the data are
    -- set and agree, the bit field of completed chunks and the map of pieces are valid, a piece is
    -- shorter than 2 ^ 31 bytes, and the piece that is held, or a new one, has the size of a piece.
    -- The files stand one behind the other, have different paths, hold just the data, and every
    -- file opens and takes all that is written.
    pub write_chunk_finishes :
        (bytes : List ℕ) (disk : Disk)
        → bit td.completed i ≡ 0
        → length bytes ≡ chunk_of.chunk_size
        → torrent_data_is_piece_complete td (i / w.chunks_per_piece) ≡ false
        → torrent_data_is_piece_complete marked (i / w.chunks_per_piece) ≡ true
        → torrent_data_validate_piece env marked piece_of (after bytes) ≡ exit_success
        → Works env.fs
        → IsTiled 0 td.files
        → HasOwnPaths td.files
        → total_size td.files ≡ td.data_size
        → (td' : TorrentData) × (disk' : Disk) × (torrent_data_write_chunk env td i bytes disk
            ≡ wrote exit_success td' disk')
          × ((pos : ℕ)
              → byte_at disk' td.files pos ≡ (
                  if leb piece_of.piece_offset pos
                    && ltb pos (piece_of.piece_offset + piece_of.piece_size)
                  then get_or (after bytes) (pos - piece_of.piece_offset) 0
                  else byte_at disk td.files pos))
          × ((p : CString) (o : ℕ) → NotAmong p td.files → disk' p o ≡ disk p o)
          × (td'.completed_pieces ≡ to_int (td.completed_pieces + 1))
    unfolding mark_chunk finish_piece after_write count_piece torrent_data_is_piece_complete
        torrent_data_is_complete view
    write_chunk_finishes bytes disk new size open_ done valid works tiled own total =
        let (disk', run, placed, others) =
          write_files_lem env.fs works (after bytes) piece_of.piece_offset piece_of.piece_size
            (omega (arith, int)) td.files disk tiled own (omega (arith, w.small))
            (omega (arith, chunk_split w i, chunk_begins w i h)) in
        let full : (piece_of.piece_size == piece_of.piece_size) ≡ true = ground arith in
        (
          account (count_piece marked) chunk_of.chunk_size,
          disk',
          accepted bytes disk new size
              ∙ accept_lem bytes disk
              ∙ rw (done, open_, valid, run, full) refl,
          placed,
          others,
          ground arith,
        )
