-- ===== src/TorrentData/Example.antt =====
-- A torrent of two pieces in two files, and file systems, for the tests of the data.
use uvg_torrent_c.Prelude.{
  ℕ, zero, suc, ◌+◌, ◌<◌, refl, true, List, [], ◌∷◌, none, str_eq, arith, get_or,
}
use uvg_torrent_c.Bitfield.{Bitfield, new}
use uvg_torrent_c.Bitfield.Laws.{IsValid}
use uvg_torrent_c.HashMap.{hashmap_new}
use uvg_torrent_c.TorrentData.{TorrentData, FileInfo}
use uvg_torrent_c.TorrentData.Geometry.{IsSized}
use uvg_torrent_c.TorrentData.Disk.{Disk, FileSystem}
use uvg_torrent_c.TorrentData.Disk.Image.{HasOwnPaths}
use uvg_torrent_c.TorrentData.Disk.Writing.{Works}
use uvg_torrent_c.TorrentData.Chunks.{Env}

abbrev pub files : List FileInfo
files =
    record { file_path = 97 ∷ []; file_offset = 0; file_size = 10 }
    ∷ record { file_path = 98 ∷ []; file_offset = 10; file_size = 22 }
    ∷ []

-- Two pieces of eight chunks of two bytes, with the given bits of `completed`.
abbrev pub torrent : Bitfield → TorrentData
torrent completed = record {
  needed = 1;
  initialized = 1;
  claims = [];
  claimed = new 16 0 0xFF;
  completed = completed;
  root_path = [];
  files = files;
  files_size = 32;
  piece_size = 16;
  chunk_size = 2;
  data_size = 32;
  piece_count = 2;
  completed_pieces = 0;
  chunk_count = 16;
  downloaded = 14;
  left = 18;
  uploaded = 0;
  pieces = hashmap_new 10;
  sha1_hashes = none;
}

-- All chunks of the first piece but the last one.
abbrev pub seven : Bitfield
seven = record { bit_count = 16; bytes_count = 2; bytes = 0xFE ∷ 0x00 ∷ [] }

pub two_bytes-IsValid :
    (a b : ℕ)
    → a < 256
    → b < 256
    → IsValid (record { bit_count = 16; bytes_count = 2; bytes = a ∷ b ∷ [] })
two_bytes-IsValid a b ha hb = record { sized = refl; allocated = refl; in_range = below }
  where
    below : (i : ℕ) → get_or (a ∷ b ∷ []) i 0 < 256
    below zero = ha
    below (suc zero) = hb
    below (suc (suc i)) = omega arith

abbrev pub torrent-IsSized : (b : Bitfield) → IsSized (torrent b)
torrent-IsSized b = record {
  chunk_pos = omega arith;
  chunks_per_piece = 8;
  whole_chunks = refl;
  some_chunks = omega arith;
  data_pos = omega arith;
  small = omega arith;
  int_ids = omega arith;
  pieces_counted = refl;
  chunks_counted = refl;
}

abbrev pub disk_ok : FileSystem
disk_ok = record { exists = λ p. true; can_open = λ p. true; fwrite = λ p n. n; fread = λ p n. n }

pub disk_ok-Works : Works disk_ok
disk_ok-Works = record { opens = λ p. refl; writes = λ p n. refl; reads = λ p n. refl }

abbrev pub env : Env
env = record { sha1 = λ bs. []; sprintf_i = λ n. (48 + n) ∷ []; fs = disk_ok }

abbrev pub blank : Disk
blank p o = 0

abbrev pub piece : List ℕ
piece = 1 ∷ 2 ∷ 3 ∷ 4 ∷ []

pub files-HasOwnPaths : HasOwnPaths files
unfolding str_eq
files-HasOwnPaths = ((refl, tt), (tt, tt))
