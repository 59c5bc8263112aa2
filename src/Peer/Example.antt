-- ===== src/Peer/Example.antt =====
-- A peer of src/peer/peer.h, for the tests.
use uvg_torrent_c.Prelude.{ℕ, true, List, [], none, some}
use uvg_torrent_c.BufferedSocket.{BufferedSocket, null}
use uvg_torrent_c.Queue.{queue_new}
use uvg_torrent_c.Peer.{Peer, peer_handshake_complete}

-- An open socket with these bytes to read.
abbrev pub holding_bytes : List ℕ → BufferedSocket
holding_bytes bs = record {
  is_open = true;
  write_buffers = [];
  write_buffer_tail = null;
  read_buffer = bs;
  last_download_rate_update = 0;
  last_upload_rate_update = 0;
}

-- A peer in the middle of its work, with these bytes to read.
abbrev pub peer_with : List ℕ → Peer
peer_with bs = record {
  socket = some (holding_bytes bs);
  ut_metadata = 0;
  ut_metadata_size = 0;
  running = 1;
  am_choking = 1;
  am_interested = 0;
  peer_choking = 1;
  peer_interested = 0;
  status = peer_handshake_complete;
  reconnect_deadline = 0;
  network_ordered_msg_length = 0;
  network_ordered_msg_length_loaded = 0;
  msg_id = 0;
  msg_id_loaded = 0;
  uploader = 0;
  msg_bitfield_sent = 0;
  pending_request_count = 0;
  peer_bitfield = none;
  ut_metadata_requested = none;
  progress_queue = queue_new;
}
