-- ===== src/Torrent/Progress/Telling.antt =====
-- What `torrent_process_data_chunk` of src/torrent/torrent.c tells the peers when a piece is finished.
use uvg_torrent_c.Prelude.{
  ℕ, ◌≡◌, refl, sym, ◌∙◌, Bool, true, List, [], ◌∷◌, ◌++◌, Option, none, some, CString, arith,
  str_eq_refl, Bool-cases, inl, inr,
}
use uvg_torrent_c.HashMap.{HashMap}
use uvg_torrent_c.HashMap.Laws.{IsValid, view}
use uvg_torrent_c.Queue.{Queue, queue_push}
use uvg_torrent_c.Queue
use uvg_torrent_c.Queue.Heap.{Nodes}
use uvg_torrent_c.Queue.Laws.{Represents, Cells, queue_push_lem}
use uvg_torrent_c.Queue.Fifo.{Holds, Holds-pushed}
use uvg_torrent_c.TorrentData
use uvg_torrent_c.TorrentData.Disk.{Disk}
use uvg_torrent_c.TorrentData.Chunks.{Env, wrote}
use uvg_torrent_c.Peer.Messages.{is_handshake_complete}
use uvg_torrent_c.Torrent.{PeerObject, Store, Torrent, exit_success}
use uvg_torrent_c.Torrent.Peers.{find_peer}
use uvg_torrent_c.Torrent.Received.{process_chunk}
use uvg_torrent_c.Torrent.Selected.{AllStand, pick}
use uvg_torrent_c.Torrent.Table.{SameView, find_peer_lem, lists, IsDistinct, IsListed}
use uvg_torrent_c.Torrent.Updates.{Changed, step_store, kept, moved, Changed-cons, Changed-Stands}
use uvg_torrent_c.Torrent.Progress.{
  push_progress, after_progress, tell_peer, tell_peers, after_chunk, piece_of,
  torrent_process_data_chunk,
}

-- The progress queue of a peer is in order.
abbrev pub HasQueue : PeerObject → Type 0
HasQueue o = (ns : Cells ℕ) × Represents o.peer.progress_queue o.nodes ns

abbrev pub is_ready : PeerObject → Bool
is_ready o = is_handshake_complete o.peer.status

-- The peers that are told, in the order of the list.
abbrev pub ready : Store → HashMap ℕ → List CString → List ℕ
ready = pick is_ready

some_inj : (x y : PeerObject) → ◌≡◌ {A = Option PeerObject} (some x) (some y) → x ≡ y
some_inj x y e = cc e

abbrev object_or : PeerObject → Option PeerObject → PeerObject
object_or o none = o
object_or o (some o') = o'

module _ (malloc : Nodes ℕ → Option ℕ) (piece_id : ℕ) where
  abbrev pub told : PeerObject → PeerObject
  told o = object_or o (push_progress malloc piece_id o)

  after_progress_named :
      (o : PeerObject) (r : Option (Queue.Status × Queue × Nodes ℕ))
      → (object_or o (after_progress o r)).str_ip ≡ o.str_ip
  unfolding after_progress
  after_progress_named o none = refl
  after_progress_named o (some (status, q, h)) = refl

  told_named : (o : PeerObject) → (told o).str_ip ≡ o.str_ip
  unfolding push_progress
  told_named o =
      after_progress_named o (queue_push (malloc o.nodes) piece_id o.peer.progress_queue o.nodes)

  -- `malloc` has a new node for the progress queue of a peer.
  abbrev pub HasRoom : PeerObject → Type 0
  HasRoom o = (a : ℕ) × (malloc o.nodes ≡ some a) × (o.nodes a ≡ none)

  abbrev IsReady : PeerObject → Type 0
  IsReady o = HasQueue o × HasRoom o

  -- A peer in order takes the piece behind what its queue has, and stays in order.
  push_told :
      (o : PeerObject)
      → IsReady o
      → (push_progress malloc piece_id o ≡ some (told o))
        × ((ins outs : List ℕ)
            → Holds ins outs o.peer.progress_queue o.nodes
            → Holds (ins ++ (piece_id ∷ [])) outs (told o).peer.progress_queue (told o).nodes)
  unfolding push_progress after_progress
  push_told o ((ns, r), (a, named, free)) =
      let (q', h', run, r') = queue_push_lem a piece_id o.peer.progress_queue o.nodes ns free r in
      rw (named, run)
        (
          refl,
          λ ins outs w.
              Holds-pushed ins outs o.peer.progress_queue q' o.nodes h' a piece_id free run w,
        )

  tell_peer_lem :
      (a : ℕ) (o : PeerObject) (store : Store)
      → IsReady o
      → tell_peer malloc piece_id a o store ≡ some (step_store is_ready told store a o)
  unfolding tell_peer step_store
  tell_peer_lem a o store q = elim (Bool-cases (is_ready o)) [
    | inl e ↦ rw e (rw ((push_told o q).0) refl)
    | inr e ↦ rw e refl
  ]

  -- The peers to which the keys lead are ready.
  AllReady : Store → HashMap ℕ → List CString → Type 0
  AllReady store peers ips =
      (q : CString)
      → lists q ips ≡ true
      → (b : ℕ) (x : PeerObject) → view peers q ≡ some b
      → store b ≡ some x
      → IsReady x

  -- What the loop returns.
  record Tells (ips : List CString) (peers : HashMap ℕ) (store : Store) : Type 0 where
    peers' : HashMap ℕ
    store' : Store
    runs : tell_peers malloc piece_id ips peers store ≡ some (peers', store')
    same : SameView peers peers'
    valid : IsValid peers'
    changed : Changed told store (ready store peers ips) store'

  tell_peers_cons :
      (ip : CString) (ips : List CString) (peers m : HashMap ℕ) (store : Store) (a : ℕ)
      (o : PeerObject)
      → find_peer store peers ip ≡ some (a, o, m)
      → IsReady o
      → tell_peers malloc piece_id (ip ∷ ips) peers store
        ≡ tell_peers malloc piece_id ips m (step_store is_ready told store a o)
  unfolding tell_peers
  tell_peers_cons ip ips peers m store a o found q =
      rw (tell_peers, found, tell_peer_lem a o store q) refl

  tell_peers_lem :
      (ips : List CString) (peers : HashMap ℕ) (store : Store)
      → IsValid peers
      → IsDistinct ips
      → AllStand store peers ips
      → AllReady store peers ips
      → Tells ips peers store
  unfolding tell_peers pick AllReady
  tell_peers_lem [] peers store w d all sound = record {
    peers' = peers;
    store' = store;
    runs = refl;
    same = λ q. refl;
    valid = w;
    changed = λ b. refl;
  }
  tell_peers_lem (ip ∷ ips) peers store w d all sound =
      let s = all ip (ground (arith, str_eq_refl ip)) in
      let (m, found, same, valid) = find_peer_lem store w ip s in
      let rest : AllStand store peers ips = λ q h. all q (ground arith) in
      let queue = sound ip (ground (arith, str_eq_refl ip)) s.address s.object s.found s.stored in
      let store1 = step_store is_ready told store s.address s.object in
      let r =
        tell_peers_lem ips m store1 valid d.1
          (moved is_ready told store peers m ip ips s d.0 same rest)
          (λ q h b x found stored.
            let (same_view, same_at) =
              kept is_ready told store peers m ip ips s d.0 same rest q h in
            let before : view peers q ≡ some b = sym same_view ∙ found in
            sound q (ground arith) b x before (sym (same_at b before) ∙ stored)) in
      record {
        peers' = r.peers';
        store' = r.store';
        runs = tell_peers_cons ip ips peers m store s.address s.object found queue ∙ r.runs;
        same = λ q. r.same q ∙ same q;
        valid = r.valid;
        changed =
            Changed-cons is_ready told store peers m ip ips s d.0 same rest r.store' r.changed;
      }

  -- A message with a chunk, such that writing the chunk succeeds, which it does when it finishes a
  -- piece: `torrent_process_data_chunk` succeeds, and has the data and the files that the write
  -- leaves. Each peer of the list whose handshake is complete has the id of the piece behind what
  -- its progress queue held; no other object is changed, and the list and the map hold what they
  -- held. Before the call the list has the keys of the map and all queues are in order, and there
  -- is memory for the new nodes.
  pub process_data_chunk_lem :
      (env : Env) (t : Torrent) (store : Store) (msg : List ℕ) (disk : Disk)
      (td : TorrentData.TorrentData) (disk' : Disk)
      → IsListed t store
      → ((b : ℕ) (x : PeerObject) → store b ≡ some x → HasQueue x × HasRoom x)
      → piece_of msg ≡ piece_id
      → process_chunk env t.torrent_data msg disk ≡ wrote TorrentData.exit_success td disk'
      → (t' : Torrent) × (store' : Store) × (torrent_process_data_chunk env malloc t store msg disk
          ≡ some (exit_success, t', store', disk'))
        × (t'.torrent_data ≡ td)
        × Changed told store (ready store t.peers t.peer_ips) store'
        × ((o : PeerObject)
            → HasQueue o
            → HasRoom o
            → (ins outs : List ℕ) → Holds ins outs o.peer.progress_queue o.nodes
            → Holds (ins ++ (piece_id ∷ [])) outs (told o).peer.progress_queue (told o).nodes)
        × SameView t.peers t'.peers
        × IsListed t' store'
  unfolding torrent_process_data_chunk after_chunk AllReady
  process_data_chunk_lem env t store msg disk td disk' w sound piece written =
      let r =
        tell_peers_lem t.peer_ips t.peers store w.valid w.distinct w.present
          (λ q h b x found stored. sound b x stored) in
      (
        record t { torrent_data = td; peers = r.peers' },
        r.store',
        rw (torrent_process_data_chunk, written, piece) (rw (after_chunk, r.runs) refl),
        refl,
        r.changed,
        λ o q room. (push_told o (q, room)).1,
        r.same,
        record {
          valid = r.valid;
          counted = w.counted;
          distinct = w.distinct;
          present = λ ip h.
              Changed-Stands is_ready told store r.store' t.peers r.peers'
                (ready store t.peers t.peer_ips) ip told_named r.same r.changed (w.present ip h);
          absent = λ ip h. r.same ip ∙ w.absent ip h;
        },
      )
