-- ===== src/Torrent/Example.antt =====
-- A torrent of src/torrent/torrent.h with no peer, and with one, for the tests.
use uvg_torrent_c.Prelude.{ℕ, refl, [], ◌∷◌, none, some, CString, arith, ◌==◌, if◌then◌else◌}
use uvg_torrent_c.HashMap.{hashmap_new, hashmap_set}
use uvg_torrent_c.HashMap.Laws.{hashmap_new_lem, has_key-view}
use uvg_torrent_c.TorrentData.Example.{torrent, seven}
use uvg_torrent_c.Peer.Example.{peer_with}
use uvg_torrent_c.Torrent.{PeerObject, Store, Torrent}
use uvg_torrent_c.Torrent.Table.{IsListed, append-IsListed}

abbrev pub no_peers : Torrent
no_peers = record {
  trackers = [];
  peers = hashmap_new 500;
  peer_ips = [];
  peer_count = 0;
  assign_upload_slots_deadline = 0;
  torrent_metadata = torrent seven;
  torrent_data = torrent seven;
}

abbrev pub key : CString
key = 0x31 ∷ 0x2E ∷ 0x32 ∷ []

abbrev pub object : PeerObject
object = record {
  str_ip = key;
  peer = record (peer_with []) { running = 0; peer_interested = 1 };
  nodes = λ a. none;
}

-- One object in memory, at 5.
abbrev pub memory : Store
memory a = if a == 5 then some object else none

pub no_peers-IsListed : IsListed no_peers memory
no_peers-IsListed =
    let (valid, empty) = hashmap_new_lem ℕ 500 (omega arith) in
    record {
      valid = valid;
      counted = refl;
      distinct = tt;
      present = λ ip h. absurd (ground arith);
      absent = λ ip h. empty ip;
    }

-- The torrent with the peer.
abbrev pub one_peer : Torrent
one_peer = record no_peers {
  peers = (hashmap_set (hashmap_new 500) key 5).1;
  peer_ips = key ∷ [];
  peer_count = 1;
}

pub one_peer-IsListed : IsListed one_peer memory
one_peer-IsListed = append-IsListed no_peers-IsListed 5 object refl (omega arith) (
    let (valid, empty) = hashmap_new_lem ℕ 500 (omega arith) in
    (has_key-view valid key).1 (empty key))
