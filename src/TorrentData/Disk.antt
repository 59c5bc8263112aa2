-- ===== src/TorrentData/Disk.antt =====
-- The files of src/torrent/torrent_data.c: the loop of `torrent_data_write_chunk` that writes a piece
-- to the files it overlaps, and `torrent_data_read_data`. What the C library and the file system do
-- is an argument. `fopen` for the first write also makes the file and its folders.
pub mod Image
pub mod Writing
use uvg_torrent_c.Prelude.{
  ℕ, zero, suc, ◌+◌, ◌-◌, ◌*◌, ◌/◌, ◌%◌, Bool, true, false, ◌&&◌, List, [], ◌∷◌, ◌++◌, Option, none,
  some, ltb, leb, ◌==◌, if◌then◌else◌, CString, str_eq, get_or, take, drop, length, replicate,
}
use uvg_torrent_c.Prelude.Words.{add64, sub64, to_int, min_of}
use uvg_torrent_c.TorrentData.{
  TorrentData, FileInfo, PieceInfo, Info, info, failed, fault, torrent_data_get_piece_info,
}

-- The byte at each offset of each path. A byte that was never written reads as 0.
abbrev pub Disk : Type 0
Disk = CString → ℕ → ℕ

-- Whether `access` finds a path, whether `fopen` succeeds on it, and how many of `n` bytes `fwrite` and
-- `fread` transfer.
pub record FileSystem : Type 0 where
  pub exists : CString → Bool
  pub can_open : CString → Bool
  pub fwrite : CString → ℕ → ℕ
  pub fread : CString → ℕ → ℕ

-- `n` bytes of `source`, from `from` on, written at an offset of a path.
unfoldable pub store_bytes : Disk → CString → ℕ → ℕ → List ℕ → ℕ → Disk
store_bytes disk path offset n source from p o =
    if str_eq p path && (leb offset o && ltb o (offset + n))
    then get_or source (from + (o - offset)) 0
    else disk p o

unfoldable pub load_bytes : Disk → CString → ℕ → ℕ → List ℕ
load_bytes disk path offset zero = []
load_bytes disk path offset (suc n) = disk path offset ∷ load_bytes disk path (offset + 1) n

-- `file_end >= piece_begin && file_begin <= piece_end`
abbrev pub overlaps : FileInfo → ℕ → ℕ → Bool
overlaps f piece_begin piece_size =
    leb piece_begin (add64 f.file_offset f.file_size)
    && leb f.file_offset (add64 piece_begin piece_size)

-- `relative_offset` and the number of bytes of a round that has done `bytes_done` bytes of the piece.
abbrev pub relative_offset : FileInfo → ℕ → ℕ → ℕ
relative_offset f piece_begin bytes_done = sub64 (add64 piece_begin bytes_done) f.file_offset

abbrev pub round_bytes : FileInfo → ℕ → ℕ → ℕ → ℕ
round_bytes f piece_begin piece_size bytes_done = to_int (
    min_of (sub64 f.file_size (relative_offset f piece_begin bytes_done))
      (sub64 piece_size bytes_done))

-- How the loop over the files ends: at its end, with `data_written`, by an error, or by `fclose(NULL)`
-- where a file that is not there cannot be made.
pub data WriteEnd : Type 0 where
  written : ℕ → Disk → WriteEnd
  write_error : Disk → WriteEnd
  write_crash : WriteEnd

unfoldable pub write_files : FileSystem → List ℕ → ℕ → ℕ → List FileInfo → ℕ → Disk → WriteEnd
write_files fs piece piece_begin piece_size [] data_written disk = written data_written disk
write_files fs piece piece_begin piece_size (f ∷ files) data_written disk =
    let offset : ℕ = relative_offset f piece_begin data_written in
    let n : ℕ = round_bytes f piece_begin piece_size data_written in
    let disk' : Disk =
      store_bytes disk f.file_path offset (fs.fwrite f.file_path n) piece data_written in
    let next = write_files fs piece piece_begin piece_size files (data_written + n) disk' in
    let skip = write_files fs piece piece_begin piece_size files data_written disk in
    if data_written == piece_size
    then written data_written disk
    else if overlaps f piece_begin piece_size
    then (if fs.can_open f.file_path
        then (if fs.fwrite f.file_path n == n then next else write_error disk')
        else if fs.exists f.file_path
        then write_error disk
        else write_crash)
    else skip

-- The loop of `torrent_data_read_data` over the files: the bytes of the piece, or an error.
unfoldable pub read_files : FileSystem → Disk → ℕ → ℕ → List FileInfo → List ℕ → Option (List ℕ)
read_files fs disk piece_begin piece_size [] piece_buffer = some piece_buffer
read_files fs disk piece_begin piece_size (f ∷ files) piece_buffer =
    let piece_data_read : ℕ = length piece_buffer in
    let offset : ℕ = relative_offset f piece_begin piece_data_read in
    let n : ℕ = round_bytes f piece_begin piece_size piece_data_read in
    let next =
      read_files fs disk piece_begin piece_size files
        (piece_buffer ++ load_bytes disk f.file_path offset n) in
    let skip = read_files fs disk piece_begin piece_size files piece_buffer in
    if piece_data_read == piece_size
    then some piece_buffer
    else if overlaps f piece_begin piece_size
    then (if fs.can_open f.file_path
        then (if fs.fread f.file_path n == n then next else none)
        else none)
    else skip

-- What `torrent_data_read_data` ends with: the bytes copied to the caller's buffer so far, and the
-- status. `timed_out` is the fuel of the model running out; `crash` is a division by zero or the use
-- of an uninitialized `piece_info`.
pub data ReadEnd : Type 0 where
  read_success : List ℕ → ReadEnd
  read_failure : List ℕ → ReadEnd
  crash : ReadEnd
  timed_out : ReadEnd

-- The piece that holds `offset`, from the files: `none` is an error.
unfoldable pub read_piece : FileSystem → Disk → TorrentData → PieceInfo → Option (List ℕ)
read_piece fs disk td pi = elim (read_files fs disk pi.piece_offset pi.piece_size td.files []) [
  | none ↦ none
  | some piece_buffer ↦ if length piece_buffer == pi.piece_size then some piece_buffer else none
]

-- `while (read_length < length)`. `offset` stays what it was.
unfoldable pub read_loop : ℕ → FileSystem → Disk → TorrentData → ℕ → ℕ → List ℕ → ReadEnd
read_loop zero fs disk td offset length' buff = timed_out
read_loop (suc fuel) fs disk td offset length' buff =
    if leb length' (length buff)
    then read_success buff
    else if td.piece_size == 0
    then crash
    else (elim (torrent_data_get_piece_info td (to_int (offset / td.piece_size))) [
      | failed ↦ crash
      | fault ↦ crash
      | info pi ↦ elim (read_piece fs disk td pi) [
        | none ↦ read_failure buff
        | some piece_buffer ↦
            let relative : ℕ = to_int (sub64 offset pi.piece_offset) in
            let n : ℕ =
              to_int (min_of (sub64 pi.piece_size relative) (sub64 length' (length buff))) in
            read_loop fuel fs disk td offset length' (buff ++ take n (drop relative piece_buffer))
      ]
    ])

unfoldable pub torrent_data_read_data : ℕ → FileSystem → Disk → TorrentData → ℕ → ℕ → ReadEnd
torrent_data_read_data fuel fs disk td offset length' = read_loop fuel fs disk td offset length' []
