-- ===== src/Torrent/Progress.antt =====
-- `torrent_process_data_chunk` of src/torrent/torrent.c: when a chunk completes its piece, every peer
-- whose handshake is complete gets the id of the piece in its progress queue.
pub mod Telling
mod Tests
use uvg_torrent_c.Prelude.{
  ℕ, ◌≡◌, refl, sym, ap, ◌∙◌, Bool, true, false, List, [], ◌∷◌, ◌++◌, Option, none, some, ◌==◌,
  if◌then◌else◌, CString, arith, str_eq_refl, Bool-cases, inl, inr, drop,
}
use uvg_torrent_c.HashMap.{HashMap}
use uvg_torrent_c.HashMap.Laws.{IsValid}
use uvg_torrent_c.NetUtils.{ntohl, u32_of_bytes}
use uvg_torrent_c.Queue.{Queue, queue_push}
use uvg_torrent_c.Queue
use uvg_torrent_c.Queue.Heap.{Nodes}
use uvg_torrent_c.Queue.Laws.{Represents, Cells, queue_push_lem}
use uvg_torrent_c.Queue.Fifo.{Holds, Holds-pushed}
use uvg_torrent_c.TorrentData
use uvg_torrent_c.TorrentData.Disk.{Disk}
use uvg_torrent_c.TorrentData.Chunks.{Env, WriteResult, wrote, write_fault}
use uvg_torrent_c.Peer.Messages.{is_handshake_complete}
use uvg_torrent_c.Torrent.{PeerObject, Store, put, Torrent, Status, exit_success}
use uvg_torrent_c.Torrent.Peers.{find_peer}
use uvg_torrent_c.Torrent.Received.{process_chunk}
use uvg_torrent_c.Torrent.Selected.{AllStand, pick}
use uvg_torrent_c.Torrent.Table.{Stands, SameView, find_peer_lem, lists, IsDistinct, IsListed}
use uvg_torrent_c.Torrent.Updates.{Changed, step_store, moved, Changed-cons, Changed-Stands}

-- What the push returns is not read. `none` is a fault.
unfoldable pub after_progress :
    PeerObject → Option (Queue.Status × Queue × Nodes ℕ) → Option PeerObject
after_progress o none = none
after_progress o (some (status, q, h)) =
    some (record o { peer = record (o.peer) { progress_queue = q }; nodes = h })

-- `malloc` names the new node of the queue, or is NULL.
unfoldable pub push_progress : (malloc : Nodes ℕ → Option ℕ) → ℕ → PeerObject → Option PeerObject
push_progress malloc piece_id o =
    after_progress o (queue_push (malloc o.nodes) piece_id o.peer.progress_queue o.nodes)

unfoldable pub tell_peer : (malloc : Nodes ℕ → Option ℕ) → ℕ → ℕ → PeerObject → Store → Option Store
tell_peer malloc piece_id a o store =
    if is_handshake_complete o.peer.status
    then (elim (push_progress malloc piece_id o) [ none ↦ none | some o' ↦ some (put store a o') ])
    else some store

unfoldable pub tell_peers :
    (malloc : Nodes ℕ → Option ℕ)
    → ℕ
    → List CString
    → HashMap ℕ
    → Store
    → Option (HashMap ℕ × Store)
tell_peers malloc piece_id [] peers store = some (peers, store)
tell_peers malloc piece_id (ip ∷ ips) peers store = elim (find_peer store peers ip) [
  | none ↦ none
  | some (a, o, peers') ↦ elim (tell_peer malloc piece_id a o store) [
    | none ↦ none
    | some store' ↦ tell_peers malloc piece_id ips peers' store'
  ]
]

-- By what `torrent_data_write_chunk` returns, which is EXIT_SUCCESS when a piece is finished.
unfoldable pub after_chunk :
    (malloc : Nodes ℕ → Option ℕ)
    → ℕ
    → Torrent
    → Store
    → WriteResult
    → Option (Status × Torrent × Store × Disk)
after_chunk malloc piece_id t store write_fault = none
after_chunk malloc piece_id t store (wrote TorrentData.exit_failure td disk) =
    some (exit_success, record t { torrent_data = td }, store, disk)
after_chunk malloc piece_id t store (wrote TorrentData.exit_success td disk) =
    elim (tell_peers malloc piece_id t.peer_ips t.peers store) [
      | none ↦ none
      | some (peers, store') ↦
          some (exit_success, record t { torrent_data = td; peers = peers }, store', disk)
    ]

-- `data_msg->index`
abbrev pub piece_of : List ℕ → ℕ
piece_of msg = ntohl (u32_of_bytes (drop 5 msg))

unfoldable pub torrent_process_data_chunk :
    Env
    → (malloc : Nodes ℕ → Option ℕ) → Torrent
    → Store
    → List ℕ
    → Disk
    → Option (Status × Torrent × Store × Disk)
torrent_process_data_chunk env malloc t store msg disk =
    after_chunk malloc (piece_of msg) t store (process_chunk env t.torrent_data msg disk)
