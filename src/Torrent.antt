-- ===== src/Torrent.antt =====
-- The torrent of src/torrent/torrent.h and torrent.c: its trackers and its peers. The peers are shared
-- objects: the map holds addresses, and what stands at an address is in a store. The result `none` is
-- a fault. The magnet link, the paths and the port are not kept.
pub mod Received
pub mod Peers
pub mod Table
pub mod Selected
pub mod Updates
pub mod Progress
pub mod Running
pub mod Ranking
pub mod Slots
pub mod Example
pub mod Magnet
pub mod Metadata
mod Tests
use uvg_torrent_c.Prelude.{
  ℕ, zero, suc, ◌+◌, Bool, true, false, List, [], ◌∷◌, ◌++◌, Option, none, some, ltb, ◌==◌,
  if◌then◌else◌, CString, length,
}
use uvg_torrent_c.Prelude.Words.{to_int}
use uvg_torrent_c.HashMap.{HashMap, hashmap_get, hashmap_set, hashmap_has_key, hashmap_new}
use uvg_torrent_c.Queue.Heap.{Nodes}
use uvg_torrent_c.TorrentData.{TorrentData}
use uvg_torrent_c.Peer.{Peer}
use uvg_torrent_c.Tracker.{Tracker, tracker_should_run}

-- A peer in memory, with the key that it has in the map, and the nodes of its progress queue.
pub record PeerObject : Type 0 where
  pub str_ip : CString
  pub peer : Peer
  pub nodes : Nodes ℕ

abbrev pub Store : Type 0
Store = ℕ → Option PeerObject

abbrev pub put : Store → ℕ → PeerObject → Store
put store a o b = if a == b then some o else store b

-- `free`
abbrev pub free : Store → ℕ → Store
free store a b = if a == b then none else store b

-- `tracker_count` is the length of `trackers`, and `peer_ips` the linked list of the keys.
pub record Torrent : Type 0 where
  pub trackers : List Tracker
  pub peers : HashMap ℕ
  pub peer_ips : List CString
  pub peer_count : ℕ
  pub assign_upload_slots_deadline : ℕ
  pub torrent_metadata : TorrentData
  pub torrent_data : TorrentData

pub data Status : Type 0 where
  exit_success exit_failure : Status

abbrev pub max_trackers : ℕ
max_trackers = 5

-- `tracker_new` has made a tracker, or NULL.
unfoldable pub torrent_add_tracker : Option Tracker → Torrent → Status × Torrent
torrent_add_tracker made t =
    if ltb (length t.trackers) max_trackers
    then (elim made [
      | none ↦ (exit_failure, t)
      | some tr ↦ (exit_success, record t { trackers = t.trackers ++ (tr ∷ []) })
    ])
    else (exit_success, t)

-- `ok i` is whether the `i`th job is made and added to the pool. The result has the trackers, and the
-- indices of those whose job was added.
unfoldable pub run_trackers :
    (ok : ℕ → Bool) (now later : ℕ) → ℕ → List Tracker → List ℕ → Status × List Tracker × List ℕ
run_trackers ok now later i [] jobs = (exit_success, [], jobs)
run_trackers ok now later i (tr ∷ trackers) jobs =
    let should = tracker_should_run now later tr in
    let tr' = if should then record tr { running = 1 } else tr in
    let jobs' = if should then jobs ++ (i ∷ []) else jobs in
    let (status, rest, all) = run_trackers ok now later (i + 1) trackers jobs' in
    if should
    then (if ok (length jobs)
        then (status, tr' ∷ rest, all)
        else (exit_failure, tr' ∷ trackers, jobs))
    else (status, tr' ∷ rest, all)

unfoldable pub torrent_run_trackers :
    (ok : ℕ → Bool) (now later : ℕ) → Torrent → Status × Torrent × List ℕ
torrent_run_trackers ok now later t =
    let (status, trackers, jobs) = run_trackers ok now later 0 t.trackers [] in
    (status, record t { trackers = trackers }, jobs)

-- `malloc_ok` is whether there is memory for the new `struct PeerIp`. A peer whose key is in the map
-- is freed.
unfoldable pub add_object : Bool → Torrent → Store → ℕ → PeerObject → Status × Torrent × Store
add_object malloc_ok t store a o =
    let peers = (hashmap_set t.peers o.str_ip a).1 in
    if hashmap_has_key t.peers o.str_ip
    then (exit_success, t, free store a)
    else if malloc_ok
    then (
      exit_success,
      record t {
        peers = peers;
        peer_ips = t.peer_ips ++ (o.str_ip ∷ []);
        peer_count = to_int (t.peer_count + 1);
      },
      store,
    )
    else (exit_failure, record t { peers = peers }, store)

unfoldable pub torrent_add_peer : Bool → Torrent → Store → ℕ → Option (Status × Torrent × Store)
torrent_add_peer malloc_ok t store a = elim (store a) [
  | none ↦ none
  | some o ↦ some (add_object malloc_ok t store a o)
]
