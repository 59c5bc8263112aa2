-- ===== src/Peer/Run/Reading.antt =====
-- What `peer_read_message` of src/peer/peer_messages.c leaves as it is: the status of the peer, and
-- whether it has a socket. Only a message that cannot be read disconnects the peer.

use uvg_torrent_c.Prelude.{
  ℕ, ◌+◌, ◌≡◌, refl, Bool, true, Option, none, some, ltb, ◌==◌, Bool-cases, inl, inr, get_or, sym,
}
use uvg_torrent_c.Prelude.Words.{to_int, sub64}
use uvg_torrent_c.NetUtils.{ntohl, u32_of_bytes}
use uvg_torrent_c.BufferedSocket.{BufferedSocket, ReadResult, disconnected, not_enough, bytes_read}
use uvg_torrent_c.Peer.{
  Peer, after_body, read_body, check_id, after_id, read_id, after_length, read_from,
  peer_read_message, is_valid_msg_id,
}
use uvg_torrent_c.Peer.Run.Sending.{has_socket, IsSameOrDown, disconnect-IsDown}

-- The reader of messages. A socket that was there is kept, or the peer is disconnected.
module _ (now : ℕ) (p : Peer) (there : has_socket p.socket ≡ true) where
  after_body-kept :
      (q : Peer)
      → q.status ≡ p.status
      → (r : ReadResult × BufferedSocket) → IsSameOrDown p (after_body now q r).1
  unfolding after_body
  after_body-kept q e (disconnected, s) = inr (disconnect-IsDown now q)
  after_body-kept q e (not_enough, s) = inl (e, sym there)
  after_body-kept q e (bytes_read bs, s) = inl (e, sym there)

  read_body-kept :
      (malloc_ok : Bool) (q : Peer) (s : BufferedSocket)
      → q.status ≡ p.status
      → IsSameOrDown p (read_body malloc_ok now q s).1
  unfolding read_body
  read_body-kept malloc_ok q s e = elim (Bool-cases (ntohl q.network_ordered_msg_length == 0)) [
    | inl t ↦ rw t (inl (e, sym there))
    | inr f ↦ elim (Bool-cases malloc_ok) [
      | inr g ↦ rw (f, g) (inr (disconnect-IsDown now q))
      | inl m ↦
          elim (Bool-cases (ltb 0 (to_int (sub64 (4 + ntohl q.network_ordered_msg_length) 5)))) [
            | inl t ↦ rw (f, m, t) (after_body-kept q e _)
            | inr g ↦ rw (f, m, g) (inl (e, sym there))
          ]
    ]
  ]

  check_id-kept :
      (malloc_ok : Bool) (q : Peer) (s : BufferedSocket)
      → q.status ≡ p.status
      → IsSameOrDown p (check_id malloc_ok now q s).1
  unfolding check_id
  check_id-kept malloc_ok q s e = elim (Bool-cases (is_valid_msg_id q.msg_id)) [
    | inl t ↦ rw t (read_body-kept malloc_ok q s e)
    | inr f ↦ rw f (inr (disconnect-IsDown now q))
  ]

  after_id-kept :
      (malloc_ok : Bool) (q : Peer)
      → q.status ≡ p.status
      → (r : ReadResult × BufferedSocket) → IsSameOrDown p (after_id malloc_ok now q r).1
  unfolding after_id
  after_id-kept malloc_ok q e (disconnected, s) = inr (disconnect-IsDown now q)
  after_id-kept malloc_ok q e (not_enough, s) = inl (e, sym there)
  after_id-kept malloc_ok q e (bytes_read bs, s) =
      check_id-kept malloc_ok (record q { msg_id = get_or bs 0 0; msg_id_loaded = 1 }) s e

  read_id-kept :
      (malloc_ok : Bool) (q : Peer) (s : BufferedSocket)
      → q.status ≡ p.status
      → IsSameOrDown p (read_id malloc_ok now q s).1
  unfolding read_id
  read_id-kept malloc_ok q s e = elim (Bool-cases (q.msg_id_loaded == 0)) [
    | inl t ↦ rw t (after_id-kept malloc_ok q e _)
    | inr f ↦ rw f (check_id-kept malloc_ok q s e)
  ]

  after_length-kept :
      (malloc_ok : Bool) (r : ReadResult × BufferedSocket)
      → IsSameOrDown p (after_length malloc_ok now p r).1
  unfolding after_length
  after_length-kept malloc_ok (disconnected, s) = inr (disconnect-IsDown now p)
  after_length-kept malloc_ok (not_enough, s) = inl (refl, sym there)
  after_length-kept malloc_ok (bytes_read bs, s) =
      read_id-kept malloc_ok
        (record p {
          network_ordered_msg_length = u32_of_bytes bs;
          network_ordered_msg_length_loaded = 1;
        })
        s refl

  read_from-kept :
      (malloc_ok : Bool) (o : Option BufferedSocket)
      → p.socket ≡ o
      → IsSameOrDown p (read_from malloc_ok now p o).1
  unfolding read_from
  read_from-kept malloc_ok none e = inl (refl, refl)
  read_from-kept malloc_ok (some s) e =
      elim (Bool-cases (p.network_ordered_msg_length_loaded == 0)) [
        | inl t ↦ rw t (after_length-kept malloc_ok _)
        | inr f ↦ rw f (read_id-kept malloc_ok p s refl)
      ]

  pub read_message-kept : (malloc_ok : Bool) → IsSameOrDown p (peer_read_message malloc_ok now p).1
  unfolding peer_read_message
  read_message-kept malloc_ok = read_from-kept malloc_ok p.socket refl
