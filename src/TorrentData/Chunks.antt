-- ===== src/TorrentData/Chunks.antt =====
-- `torrent_data_validate_piece` and `torrent_data_write_chunk` of src/torrent/torrent_data.c: a chunk
-- that came from a peer goes into its piece, and a piece that is complete goes to the files. SHA-1,
-- `sprintf` and the file system are arguments. A piece held in memory is the bytes of its allocation.
mod Tests
pub mod Outcome
pub mod Small
use uvg_torrent_c.Prelude.{
  ℕ, zero, suc, ◌+◌, ◌*◌, Bool, true, false, not, ◌&&◌, List, [], ◌∷◌, ◌++◌, Option, none, some,
  ltb, ◌==◌, if◌then◌else◌, CString, get_or, take, drop, length, replicate,
}
use uvg_torrent_c.Prelude.Words.{add64, sub64, to_int}
use uvg_torrent_c.Bitfield.{set_bit, get_bit}
use uvg_torrent_c.HashMap.{HashMap, hashmap_get, hashmap_set}
use uvg_torrent_c.TorrentData.{
  TorrentData, ChunkInfo, PieceInfo, Info, info, failed, fault, Status, exit_success, exit_failure,
  torrent_data_get_chunk_info, torrent_data_get_piece_info, torrent_data_is_piece_complete,
  torrent_data_is_complete,
}
use uvg_torrent_c.TorrentData.Disk.{
  Disk, FileSystem, WriteEnd, written, write_error, write_crash, write_files,
}

-- What the code takes from elsewhere: `SHA1Init`, `SHA1Update` and `SHA1Final` over a buffer, and
-- `sprintf` with "%i".
pub record Env : Type 0 where
  pub sha1 : List ℕ → List ℕ
  pub sprintf_i : ℕ → CString
  pub fs : FileSystem

-- `strncmp(a + i, b + j, n) == 0`: a NUL on both sides ends the comparison. A byte past the end of
-- a list reads as 0.
unfoldable pub strncmp_equal : ℕ → List ℕ → ℕ → List ℕ → ℕ → Bool
strncmp_equal zero a i b j = true
strncmp_equal (suc n) a i b j =
    let rest = strncmp_equal n a (i + 1) b (j + 1) in
    if get_or a i 0 == get_or b j 0 then (if get_or a i 0 == 0 then true else rest) else false

unfoldable pub torrent_data_validate_piece : Env → TorrentData → PieceInfo → List ℕ → Status
torrent_data_validate_piece env td piece_info piece_data = elim td.sha1_hashes [
  | none ↦ exit_success
  | some hashes ↦
      if ltb (sub64 (length hashes) 20) (piece_info.piece_id * 20)
      then exit_failure
      else if strncmp_equal 20 (env.sha1 (take piece_info.piece_size piece_data)) 0 hashes
          (piece_info.piece_id * 20)
      then exit_success
      else exit_failure
]

-- What a call returns, the data after it and the files after it; `write_fault` is an access out of
-- bounds, or the use of an uninitialized `chunk_info` or `piece_info`.
pub data WriteResult : Type 0 where
  wrote : Status → TorrentData → Disk → WriteResult
  write_fault : WriteResult

-- `memcpy(piece + offset, data, length(data))`
abbrev pub copy_at : List ℕ → ℕ → List ℕ → List ℕ
copy_at piece offset bytes = take offset piece ++ (bytes ++ drop (offset + length bytes) piece)

-- The piece that is held in memory, or a new one that is all 0.
abbrev pub held_piece : TorrentData → Option (List ℕ) → List ℕ
held_piece td none = replicate td.piece_size 0
held_piece td (some piece) = piece

abbrev pub hold : TorrentData → CString → List ℕ → TorrentData
hold td piece_key piece = record td { pieces = (hashmap_set td.pieces piece_key piece).1 }

-- `td->downloaded += chunk_size; td->left -= chunk_size`
abbrev pub account : TorrentData → ℕ → TorrentData
account td chunk_size = record td {
  downloaded = add64 td.downloaded chunk_size;
  left = sub64 td.left chunk_size;
}

-- `td->completed_pieces++`, and nothing is needed after the last piece.
unfoldable pub count_piece : TorrentData → TorrentData
count_piece td =
    let td' : TorrentData = record td { completed_pieces = to_int (td.completed_pieces + 1) } in
    if torrent_data_is_complete td' then record td' { needed = 0 } else td'

-- After the loop over the files. An error leaves by `error:`, which passes over `downloaded` and
-- `left`.
unfoldable pub after_write : TorrentData → ChunkInfo → PieceInfo → WriteEnd → WriteResult
after_write td ci pi (write_error disk) = wrote exit_failure td disk
after_write td ci pi write_crash = write_fault
after_write td ci pi (written n disk) =
    if n == pi.piece_size
    then wrote exit_success (account (count_piece td) ci.chunk_size) disk
    else wrote exit_failure td disk

-- A piece that has just become complete, by what `torrent_data_validate_piece` returns.
unfoldable pub finish_piece :
    Env → TorrentData → ChunkInfo → PieceInfo → List ℕ → Disk → Status → WriteResult
finish_piece env td ci pi piece disk exit_success =
    after_write td ci pi (write_files env.fs piece pi.piece_offset pi.piece_size td.files 0 disk)
finish_piece env td ci pi piece disk exit_failure =
    wrote exit_failure (account (hold td (env.sprintf_i ci.piece_id) piece) ci.chunk_size) disk

-- The chunk is in `piece`; it is now marked as completed.
unfoldable pub mark_chunk : Env → TorrentData → ChunkInfo → PieceInfo → List ℕ → Disk → WriteResult
mark_chunk env td ci pi piece disk =
    let td' : TorrentData = record td { completed = set_bit td.completed ci.chunk_id 1 } in
    if torrent_data_is_piece_complete td' pi.piece_id
      && not (torrent_data_is_piece_complete td pi.piece_id)
    then finish_piece env td' ci pi piece disk (torrent_data_validate_piece env td' pi piece)
    else wrote exit_failure (account (hold td' (env.sprintf_i ci.piece_id) piece) ci.chunk_size)
        disk

-- From `hashmap_get` to `memcpy`.
unfoldable pub accept_chunk :
    Env → TorrentData → ChunkInfo → PieceInfo → List ℕ → Disk → WriteResult
accept_chunk env td ci pi bytes disk =
    let (found, pieces) = hashmap_get td.pieces (env.sprintf_i ci.piece_id) in
    let piece : List ℕ = held_piece td found in
    let offset : ℕ = to_int (sub64 ci.chunk_offset pi.piece_offset) in
    if ltb (length piece) (offset + ci.chunk_size)
    then write_fault
    else mark_chunk env (record td { pieces = pieces }) ci pi (copy_at piece offset bytes) disk

unfoldable pub check_size :
    Env → TorrentData → ChunkInfo → Info PieceInfo → List ℕ → Disk → WriteResult
check_size env td ci failed bytes disk = write_fault
check_size env td ci fault bytes disk = write_fault
check_size env td ci (info pi) bytes disk =
    if length bytes == ci.chunk_size
    then accept_chunk env td ci pi bytes disk
    else wrote exit_failure td disk

unfoldable pub find_piece : Env → TorrentData → Info ChunkInfo → List ℕ → Disk → WriteResult
find_piece env td failed bytes disk = write_fault
find_piece env td fault bytes disk = write_fault
find_piece env td (info ci) bytes disk =
    check_size env td ci (torrent_data_get_piece_info td ci.piece_id) bytes disk

-- `bitfield_get_bit(td->completed, chunk_id) == 1`
unfoldable pub check_new : Env → TorrentData → ℕ → Option ℕ → List ℕ → Disk → WriteResult
check_new env td chunk_id none bytes disk = write_fault
check_new env td chunk_id (some b) bytes disk =
    if b == 1
    then wrote exit_failure td disk
    else find_piece env td (torrent_data_get_chunk_info td chunk_id) bytes disk

unfoldable pub torrent_data_write_chunk : Env → TorrentData → ℕ → List ℕ → Disk → WriteResult
torrent_data_write_chunk env td chunk_id bytes disk =
    check_new env td chunk_id (get_bit td.completed chunk_id) bytes disk
