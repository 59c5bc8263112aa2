-- ===== src/Torrent/Peers.antt =====
-- The loops of src/torrent/torrent.c over the peers: `torrent_run_peers`, `torrent_assign_upload_slots`
-- and the end of `torrent_process_data_chunk`. Each takes a peer out of the map and puts it back.
use uvg_torrent_c.Prelude.{
  ℕ, ◌+◌, ◌*◌, Bool, ◌&&◌, List, [], ◌∷◌, ◌++◌, Option, none, some, ltb, ◌==◌, if◌then◌else◌,
  CString, length,
}
use uvg_torrent_c.HashMap.{HashMap, hashmap_get, hashmap_set}
use uvg_torrent_c.Peer.{Peer}
use uvg_torrent_c.Peer.Messages.{is_handshake_complete}
use uvg_torrent_c.Torrent.{PeerObject, Store, put, Torrent, Status, exit_success, exit_failure}

-- `hashmap_set(t->peers, p->str_ip, p)` for the `p` that `hashmap_get` returned.
unfoldable pub put_back : Store → Option ℕ × HashMap ℕ → Option (ℕ × PeerObject × HashMap ℕ)
put_back store (none, peers) = none
put_back store (some a, peers) = elim (store a) [
  | none ↦ none
  | some o ↦ some (a, o, (hashmap_set peers o.str_ip a).1)
]

unfoldable pub find_peer : Store → HashMap ℕ → CString → Option (ℕ × PeerObject × HashMap ℕ)
find_peer store peers ip = put_back store (hashmap_get peers ip)

abbrev pub set_running : PeerObject → PeerObject
set_running o = record o { peer = record (o.peer) { running = 1 } }

-- The peers, the store and the jobs after the loop.
abbrev pub Ran : Type 0
Ran = Option (Status × HashMap ℕ × Store × List ℕ)

-- One peer, by `p->running`. `ok i` is whether the `i`th job is made and added to the pool.
unfoldable pub run_peer :
    (ok : ℕ → Bool) → ℕ → PeerObject → HashMap ℕ → Store → List ℕ → (Store → List ℕ → Ran) → Ran
run_peer ok a o peers store jobs next =
    let started = put store a (set_running o) in
    if o.peer.running == 0
    then (if ok (length jobs)
        then next started (jobs ++ (a ∷ []))
        else some (exit_failure, peers, started, jobs))
    else next store jobs

unfoldable pub run_peers : (ok : ℕ → Bool) → List CString → HashMap ℕ → Store → List ℕ → Ran
run_peers ok [] peers store jobs = some (exit_success, peers, store, jobs)
run_peers ok (ip ∷ ips) peers store jobs = elim (find_peer store peers ip) [
  | none ↦ none
  | some (a, o, peers') ↦
      run_peer ok a o peers' store jobs (λ store' jobs'. run_peers ok ips peers' store' jobs')
]

unfoldable pub torrent_run_peers :
    (ok : ℕ → Bool) → Torrent → Store → Option (Status × Torrent × Store × List ℕ)
torrent_run_peers ok t store = elim (run_peers ok t.peer_ips t.peers store []) [
  | none ↦ none
  | some (status, peers, store', jobs) ↦ some (status, record t { peers = peers }, store', jobs)
]

-- `p->peer_interested == 1 && p->status == PEER_HANDSHAKE_COMPLETE`
abbrev pub is_interested : Peer → Bool
is_interested p = (p.peer_interested == 1) && is_handshake_complete p.status

-- The array of the interested peers, in the order of the list.
unfoldable pub interested_peers : Store → List CString → HashMap ℕ → Option (List ℕ × HashMap ℕ)
interested_peers store [] peers = some ([], peers)
interested_peers store (ip ∷ ips) peers = elim (find_peer store peers ip) [
  | none ↦ none
  | some (a, o, peers') ↦ elim (interested_peers store ips peers') [
    | none ↦ none
    | some (found, peers'') ↦ some (if is_interested o.peer then a ∷ found else found, peers'')
  ]
]

abbrev pub regular_upload_slots : ℕ
regular_upload_slots = 3

abbrev pub with_slot : ℕ → Option PeerObject → Option PeerObject
with_slot slot none = none
with_slot slot (some o) = some (record o { peer = record (o.peer) { uploader = slot } })

-- `peers[i]->uploader = slot`
abbrev pub set_uploader : Store → ℕ → ℕ → Store
set_uploader store a slot b = if a == b then with_slot slot (store a) else store b

-- What the peer at index `i` gets; -1 is `none`.
abbrev pub slot_of : Option ℕ → ℕ → ℕ
slot_of optimistic i =
    if ltb i regular_upload_slots
    then 1
    else (elim optimistic [ none ↦ 0 | some k ↦ if i == k then 1 else 0 ])

-- The loop over the sorted peers, from index `i` on. `uploading_peers` is `i` up to three.
unfoldable pub assign_slots : Option ℕ → ℕ → List ℕ → Store → Store
assign_slots optimistic i [] store = store
assign_slots optimistic i (a ∷ order) store =
    assign_slots optimistic (i + 1) order (set_uploader store a (slot_of optimistic i))

-- `randr(3, n)`; `random low high` is what it returns.
abbrev pub optimistic_index : (random : ℕ → ℕ → ℕ) → ℕ → Option ℕ
optimistic_index random n =
    if ltb regular_upload_slots n then some (random regular_upload_slots n) else none

-- `sort` is `qsort` with `peer_compare_upload_speed`, on the addresses. The clock is read twice.
unfoldable pub torrent_assign_upload_slots :
    (sort : List ℕ → List ℕ) (random : ℕ → ℕ → ℕ) (now later : ℕ)
    → Torrent
    → Store
    → Option (Torrent × Store)
torrent_assign_upload_slots sort random now later t store =
    if ltb now t.assign_upload_slots_deadline
    then some (t, store)
    else if ltb 0 t.peer_count
    then (elim (interested_peers store t.peer_ips t.peers) [
      | none ↦ none
      | some (found, peers) ↦ some (
        record t { peers = peers; assign_upload_slots_deadline = later + 10 * 1000 },
        assign_slots (optimistic_index random (length found)) 0 (sort found) store,
      )
    ])
    else some (t, store)
