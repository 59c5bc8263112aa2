-- ===== src/Peer/Metadata/Tests.antt =====
-- An extended handshake and a request for metadata of src/peer/peer_ut_metadata.c at a concrete peer.
use uvg_torrent_c.Prelude.{
  ℕ, ◌-◌, ◌^◌, ◌≡◌, refl, List, [], ◌∷◌, ◌++◌, replicate, Option, none, some, if◌then◌else◌, get_or,
  arith, inr, CString, str_eq, str_eq_refl,
}
use uvg_torrent_c.Queue.Heap.{Nodes}
use uvg_torrent_c.Queue.{queue_new}
use uvg_torrent_c.TorrentData.Example.{torrent, seven, disk_ok, blank}
use uvg_torrent_c.Peer.Example.{peer_with, holding_bytes}
use uvg_torrent_c.BufferedSocket.{BufferedSocket}
use uvg_torrent_c.BufferedSocket.Sending.{unsent}
use uvg_torrent_c.Peer.Messages.{Status, exit_success}
use uvg_torrent_c.Peer.Connect.{handshake, handshake_dict, peer_handle_handshake}
use uvg_torrent_c.TorrentData.{TorrentData}
use uvg_torrent_c.Peer.Bencode.{BeNode, be_num, be_dict_add, Bencode, LooksUp, metadata_size_key}
use uvg_torrent_c.Peer.Metadata.{peer_handle_msg_extension}
use uvg_torrent_c.Peer.Metadata.Handshake.{extended_handshake_arrives}
use uvg_torrent_c.Bitfield.{Bitfield, new}
use uvg_torrent_c.Bitfield.Fresh.{counts-new}
use uvg_torrent_c.Peer.{Peer}
use uvg_torrent_c.Peer.Metadata.Request.{peer_send_ut_metadata_request}
use uvg_torrent_c.Peer.Metadata.Asking.{IsAsked, metadata_layout, metadata_request_lem}

-- The first entry with a key.
abbrev lookup : BeNode → CString → Option BeNode
lookup (be_dict_add d key val) other = elim (lookup d other) [
  | some found ↦ some found
  | none ↦ if str_eq other key then some val else none
]
lookup _ other = none

abbrev number : Option BeNode → ℕ
number (some (be_num n)) = n
number _ = 2 ^ 64 - 1

-- A text is the size in the dictionary of an extended handshake.
abbrev dictionaries : Bencode
dictionaries = record {
  be_decode = λ text. some (handshake_dict (get_or text 0 0));
  be_encode = λ d size. number (lookup d metadata_size_key) ∷ [];
  be_dict_lookup = lookup;
  be_dict_lookup_num = λ d key. number (lookup d key);
}

dictionaries-LooksUp : LooksUp dictionaries
dictionaries-LooksUp = record {
  empty = λ key. refl;
  added = λ d key val h. rw (h, str_eq_refl key) refl;
  others = λ d key other val h. ground (arith, h);
  numbers = λ d key n h. rw h refl;
}

abbrev no_nodes : Nodes (List ℕ)
no_nodes a = none

abbrev hash : List ℕ
hash = replicate 20 7

-- The answer to a handshake with the same hash.
abbrev replied : Status × Peer
replied =
    peer_handle_handshake dictionaries.be_encode hash (torrent seven)
      (peer_with (handshake hash ++ []))

extended_handshake_arrives_example :
    (s' : BufferedSocket) × (replied.0 ≡ exit_success)
    × (replied.1.socket ≡ some s')
    × (peer_handle_msg_extension dictionaries 7 9 disk_ok blank none
          (peer_with [])
          (unsent s'.write_buffers)
          (torrent seven)
          queue_new
          no_nodes
        ≡ some (
          exit_success,
          record (peer_with []) { ut_metadata = 3; ut_metadata_size = 32 },
          queue_new,
          no_nodes,
        ))
unfolding handshake_dict str_eq
extended_handshake_arrives_example =
    extended_handshake_arrives dictionaries dictionaries-LooksUp hash hash [] (torrent seven)
      (peer_with []) (holding_bytes []) refl refl (λ j h. refl) refl refl (omega arith) 7 9 disk_ok
      blank none (peer_with []) (torrent seven) queue_new no_nodes

-- The first request of all, for metadata of 40000 bytes.
abbrev asking : Peer
asking = record (peer_with []) { ut_metadata_requested = none; ut_metadata_size = 40000 }

abbrev all_chunks : Bitfield
all_chunks = new 3 1 0xFF

abbrev unknown : TorrentData
unknown = record (torrent seven) { initialized = 0; files = []; files_size = 0 }

metadata_request_lem_example :
    IsAsked
      (λ d size. [])
      asking
      (metadata_layout 40000 unknown)
      all_chunks
      (peer_send_ut_metadata_request (λ i. 7) (λ d size. []) asking unknown)
metadata_request_lem_example =
    metadata_request_lem (λ i. 7) (λ d size. []) asking unknown (metadata_layout 40000 unknown)
      all_chunks (inr (refl, omega arith, refl)) (inr (refl, refl, refl, omega arith, refl))
      (omega (arith, (counts-new 3 0 0xFF).0, (counts-new 3 1 0xFF).0))
