-- ===== src/Torrent/Metadata/Trust.antt =====
-- What `torrent_process_metadata_piece` of src/torrent/torrent.c takes for the metadata.
use uvg_torrent_c.Prelude.{ℕ, ◌≡◌, ap, true, List, none, some, CString, drop}
use uvg_torrent_c.Prelude.Words.{to_int}
use uvg_torrent_c.Bitfield.{get_bit, new, set_from}
use uvg_torrent_c.TorrentData
use uvg_torrent_c.TorrentData.{TorrentData, torrent_data_new, torrent_data_is_complete}
use uvg_torrent_c.TorrentData.Disk.{Disk, read_success, torrent_data_read_data}
use uvg_torrent_c.TorrentData.Chunks.{Env, wrote, check_new, torrent_data_write_chunk}
use uvg_torrent_c.Peer.Metadata.{extension_body}
use uvg_torrent_c.Torrent.{Torrent}
use uvg_torrent_c.Torrent.Metadata.{
  MetadataBencode, filled, after_metadata_chunk, torrent_process_metadata_piece,
}
use uvg_torrent_c.Torrent.Metadata.Described.{Described}

module _ (be : MetadataBencode) (env : Env) (fuel : ℕ) (t : Torrent) (msg : List ℕ) (disk : Disk)
    (piece msg_size : ℕ) (decodes : be.message (extension_body msg) ≡ some (piece, msg_size)) where
  -- The chunk of the message.
  abbrev chunk_of : List ℕ
  chunk_of = drop msg_size (extension_body msg)

  -- A chunk of metadata that comes while the metadata is as `torrent_new` has made it, which is until
  -- a first peer is asked for it, makes the program read through NULL. The message is decoded; which
  -- chunk it names, and who has sent it, does not matter.
  pub unsolicited_faults :
      (path : CString)
      → t.torrent_metadata ≡ record (torrent_data_new path) { needed = 1 }
      → torrent_process_metadata_piece be env fuel t msg disk ≡ none
  unfolding torrent_process_metadata_piece after_metadata_chunk torrent_data_write_chunk check_new
      torrent_data_new get_bit new set_from
  unsolicited_faults path e =
      rw (torrent_process_metadata_piece, decodes)
        (ap
          (λ m.
            after_metadata_chunk be env fuel t
              (torrent_data_write_chunk env m (to_int piece) chunk_of disk))
          e)

  module _ (td : TorrentData) (disk' : Disk) (status : TorrentData.Status) (bytes : List ℕ)
      (writes : torrent_data_write_chunk env t.torrent_metadata (to_int piece) chunk_of disk
        ≡ wrote status td disk')
      (complete : torrent_data_is_complete td ≡ true) (waits : t.torrent_data.needed ≡ 0)
      (reads : torrent_data_read_data fuel env.fs disk' td 0 td.data_size
        ≡ read_success bytes) where
    abbrev buffer : List ℕ
    buffer = filled td.data_size bytes
