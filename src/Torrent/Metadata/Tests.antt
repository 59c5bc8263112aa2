-- ===== src/Torrent/Metadata/Tests.antt =====
-- Metadata of src/torrent/torrent.c at a concrete torrent.
use uvg_torrent_c.Prelude.{ℕ, ◌≡◌, refl, List, [], ◌∷◌, Option, none, some, replicate}
use uvg_torrent_c.TorrentData.{TorrentData, torrent_data_new}
use uvg_torrent_c.TorrentData.Disk.{Disk}
use uvg_torrent_c.TorrentData.Chunks.{WriteResult, wrote, write_fault, torrent_data_write_chunk}
use uvg_torrent_c.TorrentData.Example.{torrent, env, blank}
use uvg_torrent_c.Torrent
use uvg_torrent_c.Torrent.{Torrent}
use uvg_torrent_c.Torrent.Example.{no_peers}
use uvg_torrent_c.Torrent.Metadata.{InfoDict, MetadataBencode, torrent_process_metadata_piece}
use uvg_torrent_c.Torrent.Metadata.Trust.{unsolicited_faults}

abbrev empty : TorrentData
empty = torrent_data_new []

-- Every message is for the first chunk, and every text is the dictionary, if there is one.
abbrev reading : Option InfoDict → MetadataBencode
reading found = record { message = λ text. some (0, 0); info = λ text. found }

unsolicited_faults_example :
    torrent_process_metadata_piece
      (reading none)
      env
      9
      (record no_peers { torrent_metadata = record (torrent_data_new []) { needed = 1 } })
      []
      blank
    ≡ none
unsolicited_faults_example =
    unsolicited_faults (reading none) env 9
      (record no_peers { torrent_metadata = record (torrent_data_new []) { needed = 1 } }) [] blank
      0 0 refl [] refl

-- The last chunk is not there yet.
abbrev one_missing : TorrentData
one_missing =
    record (torrent (record { bit_count = 16; bytes_count = 2; bytes = 0xFF ∷ 0xFE ∷ [] })) {
      completed_pieces = 1;
    }

-- The message with the last two bytes.
abbrev last_chunk : List ℕ
last_chunk = 0 ∷ 0 ∷ 0 ∷ 4 ∷ 20 ∷ 3 ∷ 5 ∷ 6 ∷ []

abbrev single : InfoDict
single = record {
  name = some (97 ∷ 98 ∷ []);
  pieces = replicate 20 1;
  piece_length = 32768;
  files = none;
  single_length = 20005;
}

abbrev reading_last : InfoDict → MetadataBencode
reading_last found = record { message = λ text. some (15, 0); info = λ text. some found }

abbrev waiting : Torrent
waiting = record no_peers { torrent_metadata = one_missing; torrent_data = empty }

abbrev written_data : WriteResult → TorrentData
written_data (wrote status td disk) = td
written_data write_fault = one_missing

abbrev written_disk : WriteResult → Disk
written_disk (wrote status td disk) = disk
written_disk write_fault = blank

abbrev last_written : WriteResult
last_written = torrent_data_write_chunk env one_missing 15 (5 ∷ 6 ∷ []) blank
