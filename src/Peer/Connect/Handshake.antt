-- ===== src/Peer/Connect/Handshake.antt =====
-- What the connection and the handshake of src/peer/peer_connect.c come to.
use uvg_torrent_c.Prelude.{
  dec_lt, false, ℕ, zero, suc, ◌+◌, ◌≤◌, ◌<◌, ◌≡◌, ◌↔◌, refl, sym, ◌∙◌, inr, true, false,
  Bool-cases, inl, List, [], ◌++◌, some, get_or, drop, length, length-append, get_or-append_left,
  arith,
}
use uvg_torrent_c.BufferedSocket.{BufferedSocket, buffered_socket_new, buffered_socket_write}
use uvg_torrent_c.BufferedSocket.Connecting
use uvg_torrent_c.BufferedSocket.Connecting.{Dial, buffered_socket_connect}
use uvg_torrent_c.BufferedSocket.Receiving.{read_front}
use uvg_torrent_c.BufferedSocket.Sending.{unsent}
use uvg_torrent_c.TorrentData.{TorrentData}
use uvg_torrent_c.Peer.{
  Peer, PeerStatus, peer_connected, peer_handshake_sent, peer_handshake_complete,
}
use uvg_torrent_c.Peer.Bencode.{BeNode}
use uvg_torrent_c.Peer.Messages.{
  exit_success, exit_failure, Status, send_bytes, send_from, sent_all,
}
use uvg_torrent_c.Peer.Arriving.{send_bytes_lem}
use uvg_torrent_c.Peer.Connect.{
  connected, status_value, is_failed, peer_connect, handshake, own_peer_id, after_sending,
  peer_send_handshake, same_hash, handshake_dict, extended_handshake, answer_handshake,
  after_receiving, handshake_from, peer_handle_handshake,
}

pub never_failed : (status : Connecting.Status) → is_failed (status_value status) ≡ false
never_failed Connecting.exit_success = refl
never_failed Connecting.exit_failure = refl

dial_opens :
    (dial : Dial) (s : BufferedSocket) → (buffered_socket_connect dial s).1.is_open ≡ dial.socket_ok
unfolding buffered_socket_connect
dial_opens dial s = ground arith

-- `peer_connect` takes a connection for made whatever the system answers, also where no socket could
-- be made or the connection is refused: the peer is connected, to a socket that is open exactly if
-- `socket` made one.
pub connect_never_fails :
    (dial : Dial) (now : ℕ) (p : Peer)
    → (s : BufferedSocket) × (peer_connect dial now p
        ≡ connected (record p { status = peer_connected; socket = some s }))
      × (s.is_open ≡ dial.socket_ok)
unfolding peer_connect
connect_never_fails dial now p = (
  (buffered_socket_connect dial (buffered_socket_new now)).1,
  rw (never_failed (buffered_socket_connect dial (buffered_socket_new now)).0),
  dial_opens dial (buffered_socket_new now),
)

-- Two hashes agree on the first bytes.
same_hash_iff :
    (a b : List ℕ) (i rounds : ℕ)
    → (same_hash a b i rounds ≡ true)
      ↔ ((j : ℕ) → i ≤ j → j < i + rounds → get_or a j 0 ≡ get_or b j 0)
unfolding same_hash
same_hash_iff a b i zero = ((λ e j lo hi. absurd (omega arith)), λ h. refl)
same_hash_iff a b i (suc rounds) =
    let (fwd, bwd) = same_hash_iff a b (i + 1) rounds in
    (
      (λ e j lo hi. elim (dec_lt i j) [
        | yes lt ↦ fwd (ground arith) j (omega arith) (omega arith)
        | no n ↦ let here : i ≡ j = omega arith in ground arith
      ]),
      λ h.
          let later = bwd (λ j lo hi. h j (omega arith) (omega arith)) in
          ground (arith, h i (omega arith) (omega arith)),
    )

after_sending_status :
    (next : PeerStatus) (sent : Status × Peer) → (after_sending next sent).0 ≡ sent.0
unfolding after_sending
after_sending_status next (exit_success, p) = refl
after_sending_status next (exit_failure, p) = refl

after_sending_socket :
    (next : PeerStatus) (sent : Status × Peer) → (after_sending next sent).1.socket ≡ sent.1.socket
unfolding after_sending
after_sending_socket next (exit_success, p) = refl
after_sending_socket next (exit_failure, p) = refl

after_sending_next :
    (next : PeerStatus) (sent : Status × Peer)
    → sent.0 ≡ exit_success
    → (after_sending next sent).1.status ≡ next
unfolding after_sending
after_sending_next next (exit_success, p) e = refl
after_sending_next next (exit_failure, p) e = absurd (cc e)

-- Two hashes with the same first eight bytes.
abbrev pub AgreeOnEight : List ℕ → List ℕ → Type 0
AgreeOnEight a b = (j : ℕ) → j < 8 → get_or a j 0 ≡ get_or b j 0

module _ (encode : BeNode → ℕ → List ℕ) (own : List ℕ) (metadata : TorrentData) (p : Peer)
    (t : BufferedSocket) (open_ : t.is_open ≡ true) (theirs rest : List ℕ)
    (sized : length theirs ≡ 20) where
  -- The reader of the handshake, with these bytes in the buffer of its socket.
  abbrev pub reader : List ℕ → Peer
  reader bs = record p { socket = some (record t { read_buffer = bs }) }

  handshake_size : length (handshake theirs) ≡ 68
  handshake_size = omega (arith, length-append theirs own_peer_id, sized)

  hash_byte : (j : ℕ) → j < 8 → get_or (drop 28 (handshake theirs)) j 0 ≡ get_or theirs j 0
  hash_byte j h = get_or-append_left theirs own_peer_id j 0 (omega arith)

  received_lem :
      peer_handle_handshake encode own metadata (reader (handshake theirs ++ rest))
      ≡ answer_handshake encode own metadata (handshake theirs) (reader rest)
  unfolding peer_handle_handshake handshake_from after_receiving
  received_lem = rw (read_front t (handshake theirs) rest 68 open_ handshake_size)

  extended_sent : (bytes : List ℕ) → (send_bytes (reader rest) bytes).0 ≡ exit_success
  unfolding send_from sent_all buffered_socket_write
  extended_sent bytes = rw open_ (ground arith)

  -- An accepted handshake, and what it takes.
  abbrev pub Accepts : Status × Peer → Type 0
  Accepts (status, p') =
      ((status ≡ exit_success) ↔ AgreeOnEight theirs own)
      × (status ≡ exit_success → p'.status ≡ peer_handshake_complete)

  answer_Accepts : Accepts (answer_handshake encode own metadata (handshake theirs) (reader rest))
  unfolding answer_handshake
  answer_Accepts =
      let same = same_hash_iff (drop 28 (handshake theirs)) own 0 8 in
      elim (Bool-cases (same_hash (drop 28 (handshake theirs)) own 0 8)) [
        | inl agree ↦ rw agree (
          (
            (λ e j h. sym (hash_byte j h) ∙ same.0 agree j (omega arith) h),
            λ h. after_sending_status peer_handshake_complete _ ∙ extended_sent _,
          ),
          λ e. after_sending_next peer_handshake_complete _ (extended_sent _),
        )
        | inr differ ↦ rw differ (
          (
            (λ e. absurd (cc e)),
            λ h. let agree = same.1 (λ j lo hi. hash_byte j hi ∙ h j hi) in cc,
          ),
          λ e. absurd (cc e),
        )
      ]

  -- What an accepted handshake of this program is answered with.
  pub replies_lem :
      AgreeOnEight theirs own
      → t.write_buffers ≡ []
      → let r = peer_handle_handshake encode own metadata (reader (handshake theirs ++ rest)) in
        (s' : BufferedSocket) × (r.0 ≡ exit_success)
        × (r.1.socket ≡ some s')
        × (unsent s'.write_buffers
            ≡ extended_handshake (encode (handshake_dict metadata.data_size) 1000))
  unfolding answer_handshake
  replies_lem agree empty =
      let same =
        (same_hash_iff (drop 28 (handshake theirs)) own 0 8).1
          (λ j lo hi. hash_byte j hi ∙ agree j hi) in
      let text = extended_handshake (encode (handshake_dict metadata.data_size) 1000) in
      let (s', sent, socket, waits) =
        send_bytes_lem (reader rest) (record t { read_buffer = rest }) text refl open_ empty in
      (
        s',
        rw (received_lem, same) (after_sending_status peer_handshake_complete _ ∙ sent),
        rw (received_lem, same) (after_sending_socket peer_handshake_complete _ ∙ socket),
        waits,
      )

  -- A peer with an open socket on which nothing waits sends its handshake with a hash of 20 bytes.
  -- Another peer with an open socket, to whose buffer these bytes come first, accepts the handshake
  -- exactly if the first eight bytes of the hash are those of its own, and its handshake is then
  -- complete; the other twelve bytes of the hash count for nothing.
  pub handshake_meets :
      (q : Peer) (s : BufferedSocket)
      → q.socket ≡ some s
      → s.is_open ≡ true
      → s.write_buffers ≡ []
      → (s' : BufferedSocket) × ((peer_send_handshake theirs q).0 ≡ exit_success)
        × ((peer_send_handshake theirs q).1.socket ≡ some s')
        × Accepts
            (peer_handle_handshake encode own metadata (reader (unsent s'.write_buffers ++ rest)))
  unfolding peer_send_handshake
  handshake_meets q s e o empty =
      let (s', sent, socket, waits) = send_bytes_lem q s (handshake theirs) e o empty in
      (
        s',
        after_sending_status peer_handshake_sent _ ∙ sent,
        after_sending_socket peer_handshake_sent _ ∙ socket,
        rw (waits, received_lem) answer_Accepts,
      )
