-- ===== src/Torrent/Running.antt =====
-- `torrent_run_peers` of src/torrent/torrent.c: a job for each peer that is not running.
use uvg_torrent_c.Prelude.{
  ℕ, ◌≡◌, refl, sym, ap, ◌∙◌, Bool, true, List, [], ◌∷◌, ◌++◌, append_assoc, append-nil, some, ◌==◌,
  if◌then◌else◌, CString, length, arith, str_eq_refl, Bool-cases, inl, inr,
}
use uvg_torrent_c.HashMap.{HashMap}
use uvg_torrent_c.HashMap.Laws.{IsValid}
use uvg_torrent_c.Torrent.{PeerObject, Store, Torrent, exit_success}
use uvg_torrent_c.Torrent.Peers.{find_peer, set_running, run_peer, run_peers, torrent_run_peers}
use uvg_torrent_c.Torrent.Selected.{AllStand, pick, pick_object, pick-cons}
use uvg_torrent_c.Torrent.Updates.{
  Changed, step_store, moved, picked_lem, Changed-cons, Changed-Stands,
}
use uvg_torrent_c.Torrent.Table.{SameView, find_peer_lem, IsDistinct, IsListed}

abbrev is_idle : PeerObject → Bool
is_idle o = o.peer.running == 0

-- The peers that do not run, in the order of the list.
abbrev pub idle : Store → HashMap ℕ → List CString → List ℕ
idle = pick is_idle

-- The store in which the peers of the jobs run.
abbrev pub Started : Store → List ℕ → Store → Type 0
Started = Changed set_running

-- What the loop returns when every job is added.
record Runs (ok : ℕ → Bool) (ips : List CString) (peers : HashMap ℕ) (store : Store) (jobs : List ℕ)
    : Type 0 where
  peers' : HashMap ℕ
  store' : Store
  runs :
      run_peers ok ips peers store jobs
      ≡ some (exit_success, peers', store', jobs ++ idle store peers ips)
  same : SameView peers peers'
  valid : IsValid peers'
  started : Started store (idle store peers ips) store'

module _ (ok : ℕ → Bool) (ready : (i : ℕ) → ok i ≡ true) where
  run_peer-ok :
      (a : ℕ) (o : PeerObject) (peers : HashMap ℕ) (store : Store) (jobs : List ℕ)
      (next : Store → List ℕ → _)
      → run_peer ok a o peers store jobs next
        ≡ next
            (step_store is_idle set_running store a o)
            (if o.peer.running == 0 then jobs ++ (a ∷ []) else jobs)
  unfolding run_peer step_store
  run_peer-ok a o peers store jobs next = elim (Bool-cases (o.peer.running == 0)) [
    | inl e ↦ rw (e, ready (length jobs)) refl
    | inr e ↦ rw e refl
  ]

  jobs_lem :
      (a : ℕ) (o : PeerObject) (jobs rest : List ℕ)
      → (if o.peer.running == 0 then jobs ++ (a ∷ []) else jobs) ++ rest
        ≡ jobs ++ pick_object is_idle a (some o) rest
  jobs_lem a o jobs rest = elim (Bool-cases (o.peer.running == 0)) [
    | inl e ↦ rw e (append_assoc jobs (a ∷ []) rest)
    | inr e ↦ rw e refl
  ]

  run_peers-cons :
      (ip : CString) (ips : List CString) (peers m : HashMap ℕ) (store : Store) (jobs : List ℕ)
      (a : ℕ) (o : PeerObject)
      → find_peer store peers ip ≡ some (a, o, m)
      → run_peers ok (ip ∷ ips) peers store jobs
        ≡ run_peers ok ips m
            (step_store is_idle set_running store a o)
            (if o.peer.running == 0 then jobs ++ (a ∷ []) else jobs)
  unfolding run_peers
  run_peers-cons ip ips peers m store jobs a o found =
      rw (run_peers, found) (run_peer-ok a o m store jobs _)

  -- The loop, from any key on.
  run_peers-ok :
      (ips : List CString) (peers : HashMap ℕ) (store : Store) (jobs : List ℕ)
      → IsValid peers
      → IsDistinct ips
      → AllStand store peers ips
      → Runs ok ips peers store jobs
  unfolding pick run_peers
  run_peers-ok [] peers store jobs w d all = record {
    peers' = peers;
    store' = store;
    runs = ap (λ l. some (exit_success, peers, store, l)) (sym (append-nil jobs));
    same = λ q. refl;
    valid = w;
    started = λ b. refl;
  }
  run_peers-ok (ip ∷ ips) peers store jobs w d all =
      let s = all ip (ground (arith, str_eq_refl ip)) in
      let (m, found, same, valid) = find_peer_lem store w ip s in
      let rest : AllStand store peers ips = λ q h. all q (ground arith) in
      let store1 = step_store is_idle set_running store s.address s.object in
      let jobs1 = if s.object.peer.running == 0 then jobs ++ (s.address ∷ []) else jobs in
      let r =
        run_peers-ok ips m store1 jobs1 valid d.1
          (moved is_idle set_running store peers m ip ips s d.0 same rest) in
      let all_idle = pick-cons is_idle store peers ip ips s in
      let cong = picked_lem is_idle set_running store peers m ip ips s d.0 same rest in
      record {
        peers' = r.peers';
        store' = r.store';
        runs =
            run_peers-cons ip ips peers m store jobs s.address s.object found
            ∙ r.runs
            ∙ ap (λ l. some (exit_success, r.peers', r.store', l))
                (ap (λ l. jobs1 ++ l) cong
                  ∙ jobs_lem s.address s.object jobs (idle store peers ips)
                  ∙ ap (λ l. jobs ++ l) (sym all_idle));
        same = λ q. r.same q ∙ same q;
        valid = r.valid;
        started =
            Changed-cons is_idle set_running store peers m ip ips s d.0 same rest r.store'
              r.started;
      }

  -- When the keys of the list are those of the map and every job can be added, `torrent_run_peers`
  -- succeeds. It adds one job for each peer that does not run, in the order of the list, and sets
  -- these peers running; it changes no other object, and the list and the map hold what they held.
  pub torrent_run_peers_lem :
      (t : Torrent) (store : Store)
      → IsListed t store
      → (t' : Torrent) × (store' : Store) × (torrent_run_peers ok t store
          ≡ some (exit_success, t', store', idle store t.peers t.peer_ips))
        × Started store (idle store t.peers t.peer_ips) store'
        × (t'.peer_ips ≡ t.peer_ips)
        × SameView t.peers t'.peers
        × IsListed t' store'
  unfolding torrent_run_peers
  torrent_run_peers_lem t store w =
      let r = run_peers-ok t.peer_ips t.peers store [] w.valid w.distinct w.present in
      (
        record t { peers = r.peers' },
        r.store',
        rw (torrent_run_peers, r.runs) refl,
        r.started,
        refl,
        r.same,
        record {
          valid = r.valid;
          counted = w.counted;
          distinct = w.distinct;
          present = λ ip h.
              Changed-Stands is_idle set_running store r.store' t.peers r.peers'
                (idle store t.peers t.peer_ips) ip (λ o. refl) r.same r.started (w.present ip h);
          absent = λ ip h. r.same ip ∙ w.absent ip h;
        },
      )
