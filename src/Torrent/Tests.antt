-- ===== src/Torrent/Tests.antt =====
-- The loops over the peers of src/torrent/torrent.c at a torrent with one peer.
use mathlib.Core.List.Permᴰ
use uvg_torrent_c.Prelude.{ℕ, ◌≡◌, ◌≢◌, refl, true, [], ◌∷◌, some, CString, arith}
use uvg_torrent_c.HashMap.Laws.{view, hashmap_new_lem}
use uvg_torrent_c.Torrent.{Store, Torrent, exit_success, torrent_add_peer}
use uvg_torrent_c.Torrent.Peers.{torrent_run_peers, torrent_assign_upload_slots}
use uvg_torrent_c.Torrent.Table.{SameView, IsListed, Added, torrent_add_peer_lem}
use uvg_torrent_c.Torrent.Running.{idle, Started, torrent_run_peers_lem}
use uvg_torrent_c.Torrent.Ranking.{Assigned}
use uvg_torrent_c.Torrent.Slots.{ranking, random_index, torrent_assign_upload_slots_lem}
use uvg_torrent_c.Torrent.Example.{
  no_peers, no_peers-IsListed, one_peer, one_peer-IsListed, key, object, memory,
}

unlisted : (q : CString) → view no_peers.peers q ≢ some 5
unlisted q e = ground (arith, (hashmap_new_lem ℕ 500 (omega arith)).1 q)

torrent_add_peer_lem_example :
    (t' : Torrent) × (store' : Store) × (torrent_add_peer true no_peers memory 5
      ≡ some (exit_success, t', store'))
    × Added no_peers-IsListed 5 object t' store'
    × IsListed t' store'
torrent_add_peer_lem_example =
    torrent_add_peer_lem no_peers-IsListed 5 object refl unlisted (omega arith)

torrent_run_peers_lem_example :
    (t' : Torrent) × (store' : Store) × (torrent_run_peers (λ i. true) one_peer memory
      ≡ some (exit_success, t', store', idle memory one_peer.peers (key ∷ [])))
    × Started memory (idle memory one_peer.peers (key ∷ [])) store'
    × (t'.peer_ips ≡ key ∷ [])
    × SameView one_peer.peers t'.peers
    × IsListed t' store'
torrent_run_peers_lem_example =
    torrent_run_peers_lem (λ i. true) (λ i. refl) one_peer memory one_peer-IsListed

torrent_assign_upload_slots_lem_example :
    (t' : Torrent) × (store' : Store) × (torrent_assign_upload_slots
        (λ l. l)
        (λ low high. low)
        3
        4
        one_peer
        memory
      ≡ some (t', store'))
    × Assigned
        (random_index (λ low high. low) one_peer memory)
        (ranking (λ l. l) Permᴰ.refl one_peer memory)
        memory
        store'
    × (t'.assign_upload_slots_deadline ≡ 10004)
    × SameView one_peer.peers t'.peers
    × IsListed t' store'
torrent_assign_upload_slots_lem_example =
    torrent_assign_upload_slots_lem (λ l. l) Permᴰ.refl (λ low high. low) 3 4 one_peer memory
      one_peer-IsListed (omega arith) (omega arith)
