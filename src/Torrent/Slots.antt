-- ===== src/Torrent/Slots.antt =====
-- `torrent_assign_upload_slots` of src/torrent/torrent.c: which peers are uploaded to.
use mathlib.Core.List.{Permᴰ}
use uvg_torrent_c.Prelude.{
  ℕ, ◌≤◌, ◌+◌, ◌<◌, ◌≡◌, refl, sym, ap, ◌∙◌, Bool, true, false, ◌&&◌, ◌==◌, List, [], ◌∷◌, Option,
  none, some, ltb, if◌then◌else◌, CString, length, arith, str_eq_refl,
}
use uvg_torrent_c.HashMap.{HashMap}
use uvg_torrent_c.HashMap.Laws.{IsValid}
use uvg_torrent_c.Torrent.{PeerObject, Store, Torrent}
use uvg_torrent_c.Peer.Messages.{is_handshake_complete}
use uvg_torrent_c.Torrent.Peers.{
  find_peer, interested_peers, assign_slots, torrent_assign_upload_slots,
}
use uvg_torrent_c.Torrent.Selected.{
  pick-IsNodup, AllStand, pick, pick-congr, pick-cons, pick_object,
}
use uvg_torrent_c.Torrent.Table.{SameView, find_peer_lem, IsListed}
use uvg_torrent_c.Torrent.Ranking.{
  perm-IsNodup, Assigned, assign_slots-Assigned, assign_slots-named,
}

-- The peer is interested, and its handshake is complete.
abbrev is_candidate : PeerObject → Bool
is_candidate o = (o.peer.peer_interested == 1) && is_handshake_complete o.peer.status

-- The interested peers whose handshake is complete, in the order of the list.
abbrev pub candidates : Store → HashMap ℕ → List CString → List ℕ
candidates = pick is_candidate

interested_peers-cons :
    (store : Store) (ip : CString) (ips : List CString) (peers m m' : HashMap ℕ) (a : ℕ)
    (o : PeerObject) (found : List ℕ)
    → find_peer store peers ip ≡ some (a, o, m)
    → interested_peers store ips m ≡ some (found, m')
    → interested_peers store (ip ∷ ips) peers ≡ some (pick_object is_candidate a (some o) found, m')
unfolding interested_peers
interested_peers-cons store ip ips peers m m' a o found e r = rw (interested_peers, e, r) refl

-- The loop that fills the array.
interested_peers_lem :
    (store : Store) (ips : List CString) (peers : HashMap ℕ)
    → IsValid peers
    → AllStand store peers ips
    → (peers' : HashMap ℕ) × (interested_peers store ips peers
        ≡ some (candidates store peers ips, peers'))
      × SameView peers peers'
      × IsValid peers'
unfolding interested_peers pick
interested_peers_lem store [] peers w all = (peers, refl, λ q. refl, w)
interested_peers_lem store (ip ∷ ips) peers w all =
    let s = all ip (ground (arith, str_eq_refl ip)) in
    let (m, found, same, valid) = find_peer_lem store w ip s in
    let moved : AllStand store m ips = λ q h.
      let r = all q (ground arith) in
      record {
        address = r.address;
        object = r.object;
        found = same q ∙ r.found;
        stored = r.stored;
        named = r.named;
      } in
    let (m', rest, same', valid') = interested_peers_lem store ips m valid moved in
    (
      m',
      interested_peers-cons store ip ips peers m m' s.address s.object _ found rest
          ∙ ap (λ l. some (l, m'))
              (ap (pick_object is_candidate s.address (some s.object))
                  (pick-congr is_candidate store store peers m ips (λ q h. (same q, λ b e. refl)))
                ∙ sym (pick-cons is_candidate store peers ip ips s)),
      λ q. same' q ∙ same q,
      valid',
    )

-- An index from 3 on, if more than three peers are interested.
abbrev pub random_index : (random : ℕ → ℕ → ℕ) → Torrent → Store → Option ℕ
random_index random t store =
    let n = length (candidates store t.peers t.peer_ips) in
    if ltb 3 n then some (random 3 n) else none

module _ (sort : List ℕ → List ℕ) (sorts : (l : List ℕ) → Permᴰ l (sort l)) where
  -- The array, sorted.
  abbrev pub ranking : Torrent → Store → List ℕ
  ranking t store = sort (candidates store t.peers t.peer_ips)

  -- When the deadline has passed, there is a peer, and the keys of the list are those of the map,
  -- `torrent_assign_upload_slots` sorts the interested peers whose handshake is complete, each once.
  -- The first three get an upload slot, and so does, if there are more, the one at the index that
  -- `random` gives from 3 on; the others of them lose theirs, so that at most four have one. Every
  -- other peer keeps what it has. The list and the
  -- map hold what they held, and the next turn is ten seconds later. `sort` only reorders.
  pub torrent_assign_upload_slots_lem :
      (random : ℕ → ℕ → ℕ) (now later : ℕ) (t : Torrent) (store : Store)
      → IsListed t store
      → t.assign_upload_slots_deadline ≤ now
      → 0 < t.peer_count
      → (t' : Torrent) × (store' : Store) × (torrent_assign_upload_slots sort random now later t
            store
          ≡ some (t', store'))
        × Assigned (random_index random t store) (ranking t store) store store'
        × (t'.assign_upload_slots_deadline ≡ later + 10000)
        × SameView t.peers t'.peers
        × IsListed t' store'
  unfolding torrent_assign_upload_slots
  torrent_assign_upload_slots_lem random now later t store w due some_peer =
      let (peers', found, same, valid) =
        interested_peers_lem store t.peer_ips t.peers w.valid w.present in
      let opt = random_index random t store in
      let order = ranking t store in
      let store' = assign_slots opt 0 order store in
      let early : ltb now t.assign_upload_slots_deadline ≡ false = ground arith in
      let has_peers : ltb 0 t.peer_count ≡ true = ground arith in
      let d =
        perm-IsNodup (sorts _)
          (pick-IsNodup is_candidate store t.peers t.peer_ips w.distinct w.present) in
      (
        record t { peers = peers'; assign_upload_slots_deadline = later + 10000 },
        store',
        rw (early, has_peers, found) refl,
        assign_slots-Assigned opt order store d,
        refl,
        same,
        record {
          valid = valid;
          counted = w.counted;
          distinct = w.distinct;
          present = λ ip h.
              let s = w.present ip h in
              let (o', stored, named) =
                assign_slots-named opt 0 order store s.address s.object s.stored in
              record {
                address = s.address;
                object = o';
                found = same ip ∙ s.found;
                stored = stored;
                named = named ∙ s.named;
              };
          absent = λ ip h. same ip ∙ w.absent ip h;
        },
      )
