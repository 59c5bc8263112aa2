-- ===== src/Torrent/Metadata.antt =====
-- `torrent_process_metadata_piece` of src/torrent/torrent.c: a chunk of the metadata that a peer has
-- sent, and, when the metadata is complete, the layout of the data that it describes. What the bencode
-- library finds is an argument. The result `none` is a fault: a NULL that is followed, a write past a
-- buffer, or what makes the writing or the reading of the metadata fault.
pub mod Described
pub mod Layout
pub mod Trust
mod Tests
use uvg_torrent_c.Prelude.{
  ℕ, zero, suc, ◌+◌, ◌-◌, Bool, ◌&&◌, List, [], ◌∷◌, ◌++◌, Option, none, some, ltb, ◌==◌,
  if◌then◌else◌, CString, length, drop, replicate,
}
use uvg_torrent_c.Prelude.Words.{to_int}
use uvg_torrent_c.TorrentData
use uvg_torrent_c.TorrentData.{
  TorrentData, torrent_data_is_complete, torrent_data_set_sha1_hashes, torrent_data_add_file,
  torrent_data_set_piece_size, torrent_data_set_chunk_size, torrent_data_set_data_size,
}
use uvg_torrent_c.TorrentData.Disk.{
  Disk, ReadEnd, read_success, read_failure, crash, timed_out, torrent_data_read_data,
}
use uvg_torrent_c.TorrentData.Chunks.{
  Env, WriteResult, wrote, write_fault, torrent_data_write_chunk,
}
use uvg_torrent_c.Peer.Metadata.{extension_body}
use uvg_torrent_c.Torrent.{Torrent, Status, exit_success, exit_failure}

-- A file of the list "files": the strings of "path", where `none` is no such key, and "length".
pub record FileEntry : Type 0 where
  pub path : Option (List (List ℕ))
  pub file_length : ℕ

-- The dictionary of the metadata: "name" (NULL where there is none), "pieces", "piece length", the
-- list "files", if there is one, and "length".
pub record InfoDict : Type 0 where
  pub name : Option CString
  pub pieces : List ℕ
  pub piece_length : ℕ
  pub files : Option (List FileEntry)
  pub single_length : ℕ

-- What `be_decode` makes of a message, which is "piece" and the number of bytes that it has read, and
-- of the metadata.
pub record MetadataBencode : Type 0 where
  pub message : List ℕ → Option (ℕ × ℕ)
  pub info : List ℕ → Option InfoDict

abbrev pub torrent_chunk_size : ℕ
torrent_chunk_size = 16384

-- The size of `file_path`.
abbrev pub path_buffer : ℕ
path_buffer = 4096

-- The bytes that `strncat` takes of a string: those before a NUL.
abbrev pub until_nul : List ℕ → CString
until_nul [] = []
until_nul (zero ∷ bs) = []
until_nul (suc b ∷ bs) = suc b ∷ until_nul bs

-- A path, a component that is longer than the room that is counted, or a write past `file_path`.
pub data Built : Type 0 where
  built : CString → Built
  too_long : Built
  overflow : Built

-- The loop over the components. The room that is counted does not count the slashes and the NUL.
unfoldable pub build_path : ℕ → CString → List (List ℕ) → Built
build_path remaining file_path [] = built file_path
build_path remaining file_path (c ∷ components) =
    let longer : CString = file_path ++ (b'/' ∷ until_nul c) in
    let rest = build_path (remaining - length c) longer components in
    if ltb remaining (length c)
    then too_long
    else if ltb (length longer) path_buffer
    then rest
    else overflow

-- A file that is added, or the end.
abbrev pub Added : Type 0
Added = Option (Status × TorrentData)

unfoldable pub add_built : TorrentData → ℕ → Built → Added
add_built td file_length (built path) =
    some (exit_success, torrent_data_add_file td path file_length)
add_built td file_length too_long = some (exit_failure, td)
add_built td file_length overflow = none

unfoldable pub add_entry : TorrentData → FileEntry → Added
add_entry td entry = elim entry.path [
  | none ↦ none
  | some components ↦ add_built td entry.file_length (build_path path_buffer [] components)
]

unfoldable pub add_entries : TorrentData → List FileEntry → Added
add_entries td [] = some (exit_success, td)
add_entries td (entry ∷ entries) = elim (add_entry td entry) [
  | none ↦ none
  | some (exit_failure, td') ↦ some (exit_failure, td')
  | some (exit_success, td') ↦ add_entries td' entries
]

-- A torrent of one file: its name is not measured against the buffer.
unfoldable pub add_single : TorrentData → Option CString → ℕ → Added
add_single td none single_length = none
add_single td (some name) single_length =
    if ltb (length (b'/' ∷ name)) path_buffer
    then some (exit_success, torrent_data_add_file td (b'/' ∷ name) single_length)
    else none

unfoldable pub add_files : TorrentData → InfoDict → Added
add_files td dict = elim dict.files [
  | none ↦ add_single td dict.name dict.single_length
  | some entries ↦ add_entries td entries
]

-- The sizes; what `torrent_data_set_data_size` returns is not read.
unfoldable pub set_sizes : ℕ → Added → Added
set_sizes piece_length none = none
set_sizes piece_length (some (exit_failure, td)) = some (exit_failure, td)
set_sizes piece_length (some (exit_success, td)) =
    elim (torrent_data_set_data_size
      (torrent_data_set_chunk_size (torrent_data_set_piece_size td piece_length) torrent_chunk_size)
      td.files_size) [
        | none ↦ none
        | some (status, td') ↦ some (exit_success, record td' { needed = 1 })
      ]

unfoldable pub lay_out : TorrentData → InfoDict → Added
lay_out td dict =
    set_sizes dict.piece_length (add_files (torrent_data_set_sha1_hashes td dict.pieces) dict)

-- What a call returns, with the torrent and the files.
abbrev pub Processed : Type 0
Processed = Option (Status × Torrent × Disk)

unfoldable pub laid_out : Torrent → Disk → Added → Processed
laid_out t disk none = none
laid_out t disk (some (status, td)) = some (status, record t { torrent_data = td }, disk)

-- By what is decoded from the metadata.
unfoldable pub take_info : Torrent → Disk → Option InfoDict → Processed
take_info t disk none = some (exit_failure, t, disk)
take_info t disk (some dict) = laid_out t disk (lay_out t.torrent_data dict)

-- A buffer that is all 0, with these bytes at its front.
abbrev pub filled : ℕ → List ℕ → List ℕ
filled size bytes = bytes ++ replicate (size - length bytes) 0

-- By what is read from the metadata, into a buffer of its size that is all 0 before.
unfoldable pub take_metadata : MetadataBencode → Torrent → Disk → ReadEnd → Processed
take_metadata be t disk (read_success bytes) =
    take_info t disk (be.info (filled t.torrent_metadata.data_size bytes))
take_metadata be t disk (read_failure bytes) = some (exit_failure, t, disk)
take_metadata be t disk crash = none
take_metadata be t disk timed_out = none

-- By what the writing of the chunk comes to. What it returns is not read.
unfoldable pub after_metadata_chunk : MetadataBencode → Env → ℕ → Torrent → WriteResult → Processed
after_metadata_chunk be env fuel t write_fault = none
after_metadata_chunk be env fuel t (wrote status td disk) =
    if torrent_data_is_complete td && (t.torrent_data.needed == 0)
    then take_metadata be (record t { torrent_metadata = td }) disk
        (torrent_data_read_data fuel env.fs disk td 0 td.data_size)
    else some (exit_success, record t { torrent_metadata = td }, disk)

unfoldable pub torrent_process_metadata_piece :
    MetadataBencode → Env → ℕ → Torrent → List ℕ → Disk → Processed
torrent_process_metadata_piece be env fuel t msg disk = elim (be.message (extension_body msg)) [
  | none ↦ some (exit_failure, t, disk)
  | some (piece, msg_size) ↦ after_metadata_chunk be env fuel t (
      torrent_data_write_chunk env t.torrent_metadata (to_int piece)
        (drop msg_size (extension_body msg)) disk)
]
