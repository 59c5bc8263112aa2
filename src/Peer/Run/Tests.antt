-- ===== src/Peer/Run/Tests.antt =====
-- A first run of a peer of src/peer/peer.c, and what it leaves.
use uvg_torrent_c.Prelude.{
  ℕ, ◌+◌, ◌≡◌, refl, Bool, true, false, List, [], ◌++◌, none, some, replicate, arith, if◌then◌else◌,
}
use uvg_torrent_c.BufferedSocket.{BufferedSocket, wrote, read_failed}
use uvg_torrent_c.BufferedSocket.Sending.{unsent}
use uvg_torrent_c.BufferedSocket.Connecting.{in_progress}
use uvg_torrent_c.Queue.{queue_new}
use uvg_torrent_c.TorrentData.Example.{torrent, seven, disk_ok, blank}
use uvg_torrent_c.Peer.{Peer, peer_unconnected, peer_connected, peer_handshake_sent}
use uvg_torrent_c.Peer.Example.{peer_with}
use uvg_torrent_c.Peer.Messages.{exit_success}
use uvg_torrent_c.Peer.Connect.{handshake}
use uvg_torrent_c.Peer.Network.{Answers}
use uvg_torrent_c.Peer.Bencode.{Bencode}
use uvg_torrent_c.Peer.Run.{RunEnv, RunState, opening, peer_run}
use uvg_torrent_c.Peer.Run.Linked.{IsLinked}
use uvg_torrent_c.Peer.Run.Ends.{IsDownOnFailure, peer_run_lem}
use uvg_torrent_c.Peer.Run.Dialing.{first_run}
use uvg_torrent_c.Peer.Run.Returns.{Returns, peer_run-Returns}
use uvg_torrent_c.Peer.Messages.{is_handshake_complete}
use uvg_torrent_c.Prelude.{◌⊎◌}

abbrev no_numbers : Bencode
no_numbers = record {
  be_decode = λ text. none;
  be_encode = λ d size. [];
  be_dict_lookup = λ d key. none;
  be_dict_lookup_num = λ d key. 0;
}

-- Nothing to read, and forty bytes of a write at a time.
abbrev quiet : Answers
quiet = record {
  has_hungup = false;
  can_network_read = false;
  writes = λ i. wrote 40;
  write_errno_passes = true;
  read = read_failed;
  read_errno_passes = true;
}

abbrev answered : RunEnv
answered = record {
  info_hash = replicate 20 7;
  clock = λ i. 20000 + i;
  claim_clock = λ i. 20000;
  dial = record {
    socket_ok = true;
    get_flags_ok = true;
    set_flags_ok = true;
    connect = in_progress;
  };
  polled_before = record { can_network_read = false; has_hungup = false };
  answers_before = quiet;
  writable = true;
  malloc_ok = true;
  node_ = none;
  polled_after = record { can_network_read = false; has_hungup = false };
  answers_after = quiet;
  bencode = no_numbers;
  fuel = 9;
  fs = disk_ok;
  disk = blank;
}

abbrev named : Peer
named = record (peer_with []) { status = peer_unconnected; socket = none }

abbrev before : RunState
before = record {
  peer = named;
  progress = λ a. none;
  metadata = torrent seven;
  data_ = torrent seven;
  metadata_queue = queue_new;
  metadata_nodes = λ a. none;
  data_queue = queue_new;
  data_nodes = λ a. none;
  wire = [];
}

-- After a run in which the socket becomes `s`, and the network takes `wire`.
abbrev after : Bool → BufferedSocket → List ℕ → RunState
after writable s wire = record before {
  peer = record named {
    status = if writable then peer_handshake_sent else peer_connected;
    socket = some s;
    running = 0;
  };
  wire = [] ++ wire;
}

abbrev Greets : RunEnv → Type 0
Greets env =
    (s : BufferedSocket) × (wire : List ℕ) × (peer_run env before
      ≡ some (exit_success, after env.writable s wire))
    × (wire ++ unsent s.write_buffers ≡ (if env.writable then handshake (replicate 20 7) else []))

greeted : Greets answered
greeted =
    first_run answered before refl (omega arith) refl refl refl (omega arith) (omega arith)
      (omega arith) refl refl refl refl refl

-- The connection is still in progress.
abbrev pending : RunEnv
pending = record answered { writable = false }

first_run_example : Greets pending
first_run_example =
    first_run pending before refl (omega arith) refl refl refl (omega arith) (omega arith)
      (omega arith) refl refl refl refl refl

peer_run_lem_example :
    let p = (after true greeted.0 greeted.1).peer in
    (p.running ≡ 0) × IsLinked p × IsDownOnFailure exit_success p
peer_run_lem_example =
    peer_run_lem answered before (after true greeted.0 greeted.1) exit_success refl greeted.2

peer_run-Returns_example :
    Returns (peer_run answered before)
    ⊎ ((st : RunState) × (opening answered before ≡ some (exit_success, st))
        × (is_handshake_complete st.peer.status ≡ true))
peer_run-Returns_example = peer_run-Returns answered before
