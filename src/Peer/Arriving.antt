-- ===== src/Peer/Arriving.antt =====
-- A message of src/peer/peer_messages.c that one peer sends and another reads.
use uvg_torrent_c.Prelude.{ℕ, ◌≡◌, inr, refl, ap, ◌∙◌, true, List, [], ◌++◌, some, arith}
use uvg_torrent_c.BufferedSocket.{BufferedSocket, buffered_socket_write}
use uvg_torrent_c.BufferedSocket.Sending.{unsent, write-unsent}
use uvg_torrent_c.NetUtils.{u32_bytes}
use uvg_torrent_c.Peer.{Peer, message, forget_message, peer_read_message, is_valid_msg_id}
use uvg_torrent_c.Peer.Progress.{read_whole_message}
use uvg_torrent_c.Peer.Messages.{
  Status, exit_success, send_from, sent_all, send_bytes, basic_msg, get_msg_id, peer_send_msg_choke,
  peer_send_msg_unchoke, peer_send_msg_interested, peer_send_msg_not_interested,
}

-- The four messages without a body.
pub data Basic : Type 0 where
  choke unchoke interested not_interested : Basic

abbrev pub id_of : Basic → ℕ
id_of choke = 0
id_of unchoke = 1
id_of interested = 2
id_of not_interested = 3

abbrev pub send : Basic → Peer → Status × Peer
send choke p = peer_send_msg_choke p
send unchoke p = peer_send_msg_unchoke p
send interested p = peer_send_msg_interested p
send not_interested p = peer_send_msg_not_interested p

pub send_bytes_lem :
    (p : Peer) (s : BufferedSocket) (bytes : List ℕ)
    → p.socket ≡ some s
    → s.is_open ≡ true
    → s.write_buffers ≡ []
    → (s' : BufferedSocket) × ((send_bytes p bytes).0 ≡ exit_success)
      × ((send_bytes p bytes).1.socket ≡ some s')
      × (unsent s'.write_buffers ≡ bytes)
unfolding send_from sent_all unsent
send_bytes_lem p s bytes e o empty =
    let (all, waits) = write-unsent s bytes o (inr empty) in
    (
      (buffered_socket_write s bytes).1,
      ap (λ socket. (send_from p socket bytes).0) e ∙ rw all (ground arith),
      ap (λ socket. (send_from p socket bytes).1.socket) e,
      waits ∙ (λ j. unsent (empty j) ++ bytes),
    )

module _ (q : Peer) (t : BufferedSocket) (o : t.is_open ≡ true)
    (l : q.network_ordered_msg_length_loaded ≡ 0) (i : q.msg_id_loaded ≡ 0) (now : ℕ)
    (rest : List ℕ) where
  -- The reader, with these bytes in the buffer of its socket.
  abbrev reader : List ℕ → Peer
  reader bs = record q { socket = some (record t { read_buffer = bs }) }

  -- The sender's part and the reader's part, for one id.
  arrives :
      (p : Peer) (s : BufferedSocket) (msg_id : ℕ)
      → p.socket ≡ some s
      → s.is_open ≡ true
      → s.write_buffers ≡ []
      → is_valid_msg_id msg_id ≡ true
      → (s' : BufferedSocket) × ((send_bytes p (basic_msg msg_id)).0 ≡ exit_success)
        × ((send_bytes p (basic_msg msg_id)).1.socket ≡ some s')
        × (peer_read_message true now (reader (unsent s'.write_buffers ++ rest))
            ≡ (message (basic_msg msg_id), forget_message (reader rest)))
        × (get_msg_id (basic_msg msg_id) ≡ msg_id)
  unfolding get_msg_id u32_bytes
  arrives p s msg_id e open_ empty valid =
      let (s', sent, socket, waits) = send_bytes_lem p s (basic_msg msg_id) e open_ empty in
      (
        s',
        sent,
        socket,
        (λ j. peer_read_message true now (reader (waits j ++ rest)))
            ∙ read_whole_message now (reader (basic_msg msg_id ++ rest)) t o 0 msg_id [] rest refl
                (omega arith) valid refl l i,
        refl,
      )

  -- A peer with an open socket on which nothing waits sends one of the four messages: it succeeds,
  -- and another peer, at the beginning of a message, that receives what then waits on the socket
  -- reads the message with the id that was sent, and leaves the bytes that follow.
  pub basic_arrives :
      (m : Basic) (p : Peer) (s : BufferedSocket)
      → p.socket ≡ some s
      → s.is_open ≡ true
      → s.write_buffers ≡ []
      → (s' : BufferedSocket) × ((send m p).0 ≡ exit_success)
        × ((send m p).1.socket ≡ some s')
        × (peer_read_message true now (reader (unsent s'.write_buffers ++ rest))
            ≡ (message (basic_msg (id_of m)), forget_message (reader rest)))
        × (get_msg_id (basic_msg (id_of m)) ≡ id_of m)
  unfolding peer_send_msg_choke peer_send_msg_unchoke peer_send_msg_interested
      peer_send_msg_not_interested is_valid_msg_id
  basic_arrives choke p s e open_ empty =
      arrives (record p { am_choking = 1 }) s 0 e open_ empty refl
  basic_arrives unchoke p s e open_ empty =
      arrives (record p { am_choking = 0 }) s 1 e open_ empty refl
  basic_arrives interested p s e open_ empty =
      arrives (record p { am_interested = 1 }) s 2 e open_ empty refl
  basic_arrives not_interested p s e open_ empty =
      arrives (record p { am_interested = 0 }) s 3 e open_ empty refl
