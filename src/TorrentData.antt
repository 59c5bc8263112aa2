-- ===== src/TorrentData.antt =====
-- src/torrent/torrent_data.c and torrent_data.h: the data of a torrent, or its metadata, cut into
-- pieces and chunks. Ids are `int`s that are not negative. `fp` and the mutexes are not kept: the
-- functions that lock run as one step.
mod Tests
pub mod Example
pub mod Geometry
pub mod Complete
pub mod Claims
pub mod Disk
pub mod Chunks
use uvg_torrent_c.Bitfield
use uvg_torrent_c.Bitfield.{Bitfield}
use uvg_torrent_c.HashMap.{HashMap, hashmap_new}
use uvg_torrent_c.Prelude.{
  ℕ, zero, suc, ◌+◌, ◌-◌, ◌*◌, ◌/◌, ◌%◌, Bool, true, false, not, ◌&&◌, ◌||◌, List, [], ◌∷◌, ◌++◌,
  Option, none, some, ltb, ◌==◌, if◌then◌else◌, get_or, CString,
}
use uvg_torrent_c.Prelude.Words.{add64, sub64, mul64, to_int, min_of}

pub record Claim : Type 0 where
  pub deadline : ℕ
  pub chunk_id : ℕ

pub record FileInfo : Type 0 where
  pub file_path : CString
  pub file_offset : ℕ
  pub file_size : ℕ

pub record ChunkInfo : Type 0 where
  pub chunk_id : ℕ
  pub piece_id : ℕ
  pub chunk_size : ℕ
  pub chunk_offset : ℕ

pub record PieceInfo : Type 0 where
  pub piece_id : ℕ
  pub piece_size : ℕ
  pub piece_offset : ℕ

-- `claimed`, `completed` and `data` are NULL until `initialized` is 1.
pub record TorrentData : Type 0 where
  pub needed : ℕ
  pub initialized : ℕ
  pub claims : List Claim
  pub claimed : Bitfield
  pub completed : Bitfield
  pub root_path : CString
  pub files : List FileInfo
  pub files_size : ℕ
  pub piece_size : ℕ
  pub chunk_size : ℕ
  pub data_size : ℕ
  pub piece_count : ℕ
  pub completed_pieces : ℕ
  pub chunk_count : ℕ
  pub downloaded : ℕ
  pub left : ℕ
  pub uploaded : ℕ
  pub pieces : HashMap (List ℕ)
  pub sha1_hashes : Option (List ℕ)

-- EXIT_SUCCESS and EXIT_FAILURE.
pub data Status : Type 0 where
  exit_success exit_failure : Status

unfoldable pub torrent_data_new : CString → TorrentData
torrent_data_new root_path = record {
  needed = 0;
  initialized = 0;
  claims = [];
  claimed = Bitfield.new 0 0 0;
  completed = Bitfield.new 0 0 0;
  root_path = root_path;
  files = [];
  files_size = 0;
  piece_size = 0;
  chunk_size = 0;
  data_size = 0;
  piece_count = 0;
  completed_pieces = 0;
  chunk_count = 0;
  downloaded = 0;
  left = 0;
  uploaded = 0;
  pieces = hashmap_new 0;
  sha1_hashes = none;
}

-- After the initialization this logs an error, and sets the size all the same.
unfoldable pub torrent_data_set_piece_size : TorrentData → ℕ → TorrentData
torrent_data_set_piece_size td piece_size = record td { piece_size = piece_size }

unfoldable pub torrent_data_set_chunk_size : TorrentData → ℕ → TorrentData
torrent_data_set_chunk_size td chunk_size = record td { chunk_size = chunk_size }

-- The file goes to the end of the list, at the offset where the files before it end.
unfoldable pub torrent_data_add_file : TorrentData → CString → ℕ → TorrentData
torrent_data_add_file td path length = record td {
  files =
      td.files
      ++ (record {
        file_path = td.root_path ++ path;
        file_offset = td.files_size;
        file_size = length;
      }
          ∷ []);
  files_size = add64 td.files_size length;
}

unfoldable pub torrent_data_set_sha1_hashes : TorrentData → List ℕ → TorrentData
torrent_data_set_sha1_hashes td sha1_hashes = record td { sha1_hashes = some sha1_hashes }

-- `(data_size + (size - 1)) / size`
abbrev pub count_of : ℕ → ℕ → ℕ
count_of data_size size = to_int (add64 data_size (sub64 size 1) / size)

-- A second call fails, with the same size and with another. A piece size of 0 divides by zero, which
-- is the result `none`.
unfoldable pub torrent_data_set_data_size : TorrentData → ℕ → Option (Status × TorrentData)
torrent_data_set_data_size td data_size =
    if td.initialized == 1
    then some (exit_failure, td)
    else if td.chunk_size == 0
    then some (exit_failure, td)
    else if td.piece_size == 0
    then none
    else some (
      exit_success,
      record td {
        data_size = data_size;
        piece_count = count_of data_size td.piece_size;
        chunk_count = count_of data_size td.chunk_size;
        claimed = Bitfield.new (count_of data_size td.chunk_size) 0 0xFF;
        completed = Bitfield.new (count_of data_size td.chunk_size) 0 0xFF;
        downloaded = 0;
        left = data_size;
        uploaded = 0;
        pieces = hashmap_new 1000;
        initialized = 1;
      },
    )

-- What the caller finds in the structure that it passed: `failed` leaves it uninitialized, `fault`
-- is a division by zero.
pub data Info {ℓ} (A : Type ℓ) : Type ℓ where
  info : A → Info A
  failed : Info A
  fault : Info A

unfoldable pub torrent_data_get_chunk_info : TorrentData → ℕ → Info ChunkInfo
torrent_data_get_chunk_info td chunk_id =
    let chunk_offset : ℕ = mul64 td.chunk_size chunk_id in
    if (td.chunk_size == 0) || (td.data_size == 0)
    then failed
    else if td.piece_size == 0
    then fault
    else info (record {
      chunk_id = chunk_id;
      piece_id = to_int (chunk_offset / td.piece_size);
      chunk_size = min_of td.chunk_size (sub64 td.data_size chunk_offset);
      chunk_offset = chunk_offset;
    })

unfoldable pub torrent_data_get_piece_info : TorrentData → ℕ → Info PieceInfo
torrent_data_get_piece_info td piece_id =
    let piece_offset : ℕ = mul64 td.piece_size piece_id in
    if (td.piece_size == 0) || (td.data_size == 0)
    then failed
    else info (record {
      piece_id = piece_id;
      piece_size = min_of td.piece_size (sub64 td.data_size piece_offset);
      piece_offset = piece_offset;
    })

-- The bytes from `byte_index` on, over the rounds left: a byte past the end is passed over, and the
-- first that is not 0xFF ends the loop.
unfoldable pub all_full : Bitfield → ℕ → ℕ → Bool
all_full completed byte_index zero = true
all_full completed byte_index (suc rounds) =
    let rest = all_full completed (byte_index + 1) rounds in
    if ltb byte_index completed.bytes_count && not (get_or completed.bytes byte_index 0 == 0xFF)
    then false
    else rest

abbrev pub uints_per_piece : TorrentData → ℕ
uints_per_piece td = to_int (td.piece_size / td.chunk_size) / 8

unfoldable pub torrent_data_is_piece_complete : TorrentData → ℕ → Bool
torrent_data_is_piece_complete td piece_id =
    all_full td.completed (piece_id * uints_per_piece td) (uints_per_piece td)

unfoldable pub torrent_data_is_complete : TorrentData → Bool
torrent_data_is_complete td =
    if td.piece_count == 0 then false else td.completed_pieces == td.piece_count
