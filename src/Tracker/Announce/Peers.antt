-- ===== src/Tracker/Announce/Peers.antt =====
-- The peers of an announce reply of src/tracker/tracker.c, on their way to the queue.
use uvg_torrent_c.Prelude.{
  ℕ, zero, suc, ◌^◌, ◌≤◌, ◌<◌, ◌≡◌, ◌≢◌, refl, ap, ◌∙◌, inl, inr, false, List, [], ◌∷◌, ◌++◌, map,
  append-nil, append_assoc, Option, none, some, Option-cases, ◌==◌, arith, length,
}
use uvg_torrent_c.NetUtils.{
  ntohl, htonl, u32_bytes, u32_of_bytes, ntohl-htonl, htonl-lt, u32_of_bytes-u32_bytes,
}
use uvg_torrent_c.NetUtils.Wide.{
  ntohs, htons, u16_bytes, u16_of_bytes, ntohs-htons, htons-lt, u16_of_bytes-u16_bytes,
}
use uvg_torrent_c.Queue.Heap.{Nodes}
use uvg_torrent_c.Queue.{Queue, Status, exit_success, exit_failure, queue_push}
use uvg_torrent_c.Queue.Laws.{Cells, Represents, queue_push_lem}
use uvg_torrent_c.Queue.Fifo.{elements}
use uvg_torrent_c.Peer.{peer_new}
use uvg_torrent_c.Tracker.Announce.{FoundPeer, Pushed, read_peer, after_push, push_peers}

-- What a tracker says of a peer: `struct TRACKER_UDP_ANNOUNCE_RECEIVE_PEER` in the host's order.
pub record Endpoint : Type 0 where
  pub ip : ℕ
  pub port : ℕ

abbrev pub peer_bytes : Endpoint → List ℕ
peer_bytes e = u32_bytes (htonl e.ip) ++ u16_bytes (htons e.port)

abbrev pub peers_bytes : List Endpoint → List ℕ
peers_bytes [] = []
peers_bytes (e ∷ es) = peer_bytes e ++ peers_bytes es

abbrev pub IsEndpoint : Endpoint → Type 0
IsEndpoint e = (e.ip ≢ 0) × (e.ip < 2 ^ 32) × (e.port < 2 ^ 16)

abbrev pub AreEndpoints : List Endpoint → Type 0
AreEndpoints [] = Unit
AreEndpoints (e ∷ es) = IsEndpoint e × AreEndpoints es

pub length-peers_bytes : (es : List Endpoint) → length es ≤ length (peers_bytes es)
unfolding u32_bytes u16_bytes
length-peers_bytes [] = omega arith
length-peers_bytes (e ∷ es) = omega (arith, length-peers_bytes es)

-- Memory that `malloc` gives is not in use.
abbrev pub IsMalloc : (Nodes FoundPeer → Option ℕ) → Type 0
IsMalloc malloc = (h : Nodes FoundPeer) (a : ℕ) → malloc h ≡ some a → h a ≡ none

module _ (now : ℕ) (malloc : Nodes FoundPeer → Option ℕ) (lawful : IsMalloc malloc) where
  abbrev pub found_at : Endpoint → FoundPeer
  found_at e = record { ip = e.ip; port = e.port; peer = peer_new now }

  abbrev pub IsDone : Status → List Endpoint → Nodes FoundPeer → Type 0
  IsDone exit_success later h = later ≡ []
  IsDone exit_failure later h = malloc h ≡ none

  -- The queue has got some of the peers, in their order, and all of them unless memory ran out.
  pub record Arrived (es : List Endpoint) (ns : Cells FoundPeer) (result : Pushed) : Type 0 where
    pub got : List Endpoint
    pub later : List Endpoint
    pub cells : Cells FoundPeer
    pub parts : es ≡ got ++ later
    pub holds : Represents result.1 result.2 (ns ++ cells)
    pub values : elements cells ≡ map found_at got
    pub done : IsDone result.0 later result.2

  read_peer-peer_bytes :
      (e : Endpoint) (rest : List ℕ)
      → IsEndpoint e
      → read_peer now (peer_bytes e ++ rest) ≡ found_at e
  unfolding read_peer u32_bytes u16_bytes
  read_peer-peer_bytes e rest (nonzero, ip_bound, port_bound) =
      let ip : ntohl (u32_of_bytes (peer_bytes e ++ rest)) ≡ e.ip =
        ap ntohl
          (u32_of_bytes-u32_bytes (htonl e.ip) (u16_bytes (htons e.port) ++ rest) (htonl-lt e.ip))
        ∙ ntohl-htonl e.ip ip_bound in
      let port : ntohs (u16_of_bytes (u16_bytes (htons e.port) ++ rest)) ≡ e.port =
        ap ntohs (u16_of_bytes-u16_bytes (htons e.port) rest (htons-lt e.port))
        ∙ ntohs-htons e.port port_bound in
      λ i. record { ip = ip i; port = port i; peer = peer_new now }

  push_peers-peer :
      (fuel : ℕ) (e : Endpoint) (rest : List ℕ) (q : Queue) (h : Nodes FoundPeer)
      → IsEndpoint e
      → push_peers (suc fuel) now malloc (peer_bytes e ++ rest) q h
        ≡ after_push
            (queue_push (malloc h) (found_at e) q h)
            (λ q' h'. push_peers fuel now malloc rest q' h')
  unfolding push_peers u32_bytes u16_bytes
  push_peers-peer fuel e rest q h valid =
      let nonzero : (e.ip == 0) ≡ false = ground (arith, valid.0) in
      rw (read_peer-peer_bytes e rest valid, nonzero) refl

  -- The peers of a reply, each of them valid, come to the queue in their order and as they were
  -- sent; where `malloc` returns NULL those before it have come.
  pub push_peers_lem :
      (fuel : ℕ) (es : List Endpoint) (q : Queue) (h : Nodes FoundPeer) (ns : Cells FoundPeer)
      → length es ≤ fuel
      → AreEndpoints es
      → Represents q h ns
      → (result : Pushed) × (push_peers fuel now malloc (peers_bytes es) q h ≡ some result)
        × Arrived es ns result
  unfolding push_peers after_push queue_push
  push_peers_lem fuel [] q h ns enough valid r = (
    (exit_success, q, h),
    refl,
    record {
      got = [];
      later = [];
      cells = [];
      parts = refl;
      holds = rw (append-nil ns) r;
      values = refl;
      done = refl;
    },
  )
  push_peers_lem zero (e ∷ es) q h ns enough valid r = absurd (omega arith)
  push_peers_lem (suc fuel) (e ∷ es) q h ns enough valid r = elim (Option-cases (malloc h)) [
    | inl full ↦ (
      (exit_failure, q, h),
      push_peers-peer fuel e (peers_bytes es) q h valid.0 ∙ rw full refl,
      record {
        got = [];
        later = e ∷ es;
        cells = [];
        parts = refl;
        holds = rw (append-nil ns) r;
        values = refl;
        done = full;
      },
    )
    | inr (a, given) ↦
        let (q', h', run, r') = queue_push_lem a (found_at e) q h ns (lawful h a given) r in
        let (result, runs, arrived) =
          push_peers_lem fuel es q' h' (ns ++ ((a, found_at e) ∷ [])) (omega arith) valid.1 r' in
        (
          result,
          push_peers-peer fuel e (peers_bytes es) q h valid.0 ∙ rw (given, run) runs,
          record {
            got = e ∷ arrived.got;
            later = arrived.later;
            cells = (a, found_at e) ∷ arrived.cells;
            parts = ap (λ l. e ∷ l) arrived.parts;
            holds = rw (← append_assoc ns ((a, found_at e) ∷ []) arrived.cells) arrived.holds;
            values = ap (λ l. found_at e ∷ l) arrived.values;
            done = arrived.done;
          },
        )
  ]
