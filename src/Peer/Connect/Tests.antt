-- ===== src/Peer/Connect/Tests.antt =====
-- Connections and handshakes of src/peer/peer_connect.c at concrete peers.
use uvg_torrent_c.Prelude.{ℕ, ◌≡◌, refl, true, List, [], ◌∷◌, ◌++◌, some, replicate}
use uvg_torrent_c.BufferedSocket.{BufferedSocket}
use uvg_torrent_c.BufferedSocket.Sending.{unsent}
use uvg_torrent_c.BufferedSocket.Connecting.{Dial, refuses}
use uvg_torrent_c.TorrentData.Example.{torrent, seven}
use uvg_torrent_c.Peer.Example.{holding_bytes, peer_with}
use uvg_torrent_c.Peer.Messages.{exit_success}
use uvg_torrent_c.Peer.Connect.{peer_send_handshake, peer_handle_handshake}
use uvg_torrent_c.Peer.Connect.Handshake.{handshake_meets, Accepts}

-- The other side refuses the connection.
abbrev refused : Dial
refused = record { socket_ok = true; get_flags_ok = true; set_flags_ok = true; connect = refuses }

-- Two hashes that differ from the ninth byte on.
abbrev eight : List ℕ
eight = 1 ∷ 2 ∷ 3 ∷ 4 ∷ 5 ∷ 6 ∷ 7 ∷ 8 ∷ []

abbrev theirs : List ℕ
theirs = eight ++ replicate 12 9

abbrev own : List ℕ
own = eight ++ replicate 12 0

handshake_meets_example :
    (s' : BufferedSocket) × ((peer_send_handshake theirs (peer_with [])).0 ≡ exit_success)
    × ((peer_send_handshake theirs (peer_with [])).1.socket ≡ some s')
    × Accepts
        (λ d size. [])
        own
        (torrent seven)
        (peer_with [])
        (holding_bytes [])
        refl
        theirs
        []
        refl
        (peer_handle_handshake
          (λ d size. [])
          own
          (torrent seven)
          (peer_with (unsent s'.write_buffers ++ [])))
handshake_meets_example =
    handshake_meets (λ d size. []) own (torrent seven) (peer_with []) (holding_bytes []) refl theirs
      [] refl (peer_with []) (holding_bytes []) refl refl refl
