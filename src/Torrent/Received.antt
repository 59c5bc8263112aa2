-- ===== src/Torrent/Received.antt =====
-- `torrent_process_data_chunk` of src/torrent/torrent.c: a piece message that a peer sent.
use uvg_torrent_c.Prelude.{ℕ, ◌/◌, List, Option, none, some, ◌==◌, if◌then◌else◌, drop, take}
use uvg_torrent_c.Prelude.Words.{add64, sub64, to_int, extend64}
use uvg_torrent_c.NetUtils.{ntohl, u32_of_bytes}
use uvg_torrent_c.TorrentData.{
  TorrentData, PieceInfo, Info, info, failed, fault, torrent_data_get_piece_info,
}
use uvg_torrent_c.TorrentData.Disk.{Disk}
use uvg_torrent_c.TorrentData.Chunks.{Env, WriteResult, write_fault, torrent_data_write_chunk}
use uvg_torrent_c.Peer.Messages.{get_msg_buffer_size}

-- The id of the chunk and its bytes. `none`: a use of information that was not filled in, or a
-- division by zero.
unfoldable pub received_in_piece : TorrentData → Info PieceInfo → List ℕ → Option (ℕ × List ℕ)
received_in_piece td failed msg = none
received_in_piece td fault msg = none
received_in_piece td (info pi) msg =
    let chunk_size = sub64 (get_msg_buffer_size msg) 13 in
    let chunk_offset = add64 pi.piece_offset (ntohl (u32_of_bytes (drop 9 msg))) in
    if td.chunk_size == 0
    then none
    else some (to_int (chunk_offset / td.chunk_size), take chunk_size (drop 13 msg))

unfoldable pub received_chunk : TorrentData → List ℕ → Option (ℕ × List ℕ)
received_chunk td msg =
    received_in_piece td
      (torrent_data_get_piece_info td (extend64 (ntohl (u32_of_bytes (drop 5 msg))))) msg

unfoldable pub write_received : Env → TorrentData → Option (ℕ × List ℕ) → Disk → WriteResult
write_received env td none disk = write_fault
write_received env td (some (chunk_id, block)) disk =
    torrent_data_write_chunk env td chunk_id block disk

-- The chunk of a message goes to the data. What follows a success is in
-- Torrent/Progress.
unfoldable pub process_chunk : Env → TorrentData → List ℕ → Disk → WriteResult
process_chunk env td msg disk = write_received env td (received_chunk td msg) disk
