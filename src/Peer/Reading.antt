-- ===== src/Peer/Reading.antt =====
-- `peer_read_message` of src/peer/peer_messages.c and the stream of bytes that it cuts into messages.
use uvg_torrent_c.Prelude.{
  ℕ, ◌+◌, ◌≤◌, ◌<◌, ◌≡◌, ◌⊎◌, inl, inr, refl, sym, ap, ◌∙◌, Bool, true, false, Bool-cases, List, [],
  ◌∷◌, ◌++◌, append-nil, append_assoc, some, ltb, ◌==◌, if◌then◌else◌, get_or, length, take, drop,
  take-append-drop, arith,
}
use mathlib.Core.Path.{subst}
use uvg_torrent_c.BufferedSocket.{BufferedSocket, buffered_socket_read}
use uvg_torrent_c.BufferedSocket.Receiving.{read_all_or_nothing}
use uvg_torrent_c.NetUtils.{ntohl, ntohl-lt, u32_bytes, u32_of_bytes}
use uvg_torrent_c.Peer.{
  Peer, ReadMessage, message, no_message, with_socket, forget_message, msg_header, after_body,
  read_body, check_id, after_id, read_id, after_length, read_from, peer_read_message,
  peer_disconnect, is_valid_msg_id, peer_new, peer_reset,
}
use uvg_torrent_c.Peer.Stream.{
  AllBytes, AllBytes-drop, first_four, first_one, IsReading-next, waiting-Kept, gone-Kept,
  IsReading-rest, header-pending, message_length, IsStage, IsReading, pending, Kept, rest_of,
}

module _ (malloc_ok : Bool) (now : ℕ) (p : Peer) (s : BufferedSocket) (r : IsReading p s)
    (l : p.network_ordered_msg_length_loaded ≡ 1) (i : p.msg_id_loaded ≡ 1) where
  after_body-Kept :
      (n : ℕ)
      → 1 + n ≡ ntohl p.network_ordered_msg_length
      → Kept (pending p s) (after_body now p (buffered_socket_read s n))
  unfolding after_body
  after_body-Kept n e = elim (read_all_or_nothing n s r.connected) [
    | inl (le, run, len) ↦ rw run (
      rest_of s n,
      refl,
      IsReading-next p (rest_of s n) (IsReading-rest p s n r),
      append_assoc (msg_header p) (take n s.read_buffer) (drop n s.read_buffer)
          ∙ ap (λ b. msg_header p ++ b) (take-append-drop n s.read_buffer)
          ∙ header-pending p s l i,
      message_length p (take n s.read_buffer) r.length_fits (rw len e),
    )
    | inr (lt, run) ↦ rw run (waiting-Kept p s r)
  ]

  -- A message that is only a length and an id.
  short-Kept :
      1 ≡ ntohl p.network_ordered_msg_length
      → Kept (pending p s) (message (msg_header p), forget_message (with_socket p s))
  short-Kept e = (
    s,
    refl,
    IsReading-next p s r,
    header-pending p s l i,
    rw append-nil at (message_length p [] r.length_fits e),
  )

  some_length-Kept :
      (n : ℕ)
      → 1 + n ≡ ntohl p.network_ordered_msg_length
      → Kept (pending p s) (
          if malloc_ok
          then (if ltb 0 n
              then after_body now p (buffered_socket_read s n)
              else (message (msg_header p), forget_message (with_socket p s)))
          else (no_message, peer_disconnect now p))
  some_length-Kept n e = elim (Bool-cases malloc_ok) [
    | inr failed ↦ rw failed (gone-Kept now p (pending p s))
    | inl ok ↦ elim (Bool-cases (ltb 0 n)) [
      | inl more ↦ rw (ok, more) (after_body-Kept n e)
      | inr no_more ↦ rw (ok, no_more) (short-Kept (ground arith))
    ]
  ]

  -- The length and the id are there.
  id_there-Kept : Kept (pending p s) (check_id malloc_ok now p s)
  unfolding check_id read_body
  id_there-Kept = elim (Bool-cases (is_valid_msg_id p.msg_id)) [
    | inr invalid ↦ rw invalid (gone-Kept now p (pending p s))
    | inl valid ↦ elim (Bool-cases (ntohl p.network_ordered_msg_length == 0)) [
      | inl zero_length ↦ rw (valid, zero_length) (waiting-Kept p s r)
      | inr some_length ↦
          let below = ntohl-lt p.network_ordered_msg_length in
          let pos : 0 < ntohl p.network_ordered_msg_length = ground arith in
          rw (valid, some_length) (some_length-Kept _ (omega arith))
    ]
  ]

same_stream : (a b : List ℕ) (result : ReadMessage × Peer) → a ≡ b → Kept a result → Kept b result
same_stream a b result e h = subst (λ stream. Kept stream result) e h

-- A call that still has the length, or the id, to read.
pub read_id_new :
    (malloc_ok : Bool) (now : ℕ) (p : Peer) (s : BufferedSocket)
    → p.msg_id_loaded ≡ 0
    → read_id malloc_ok now p s ≡ after_id malloc_ok now p (buffered_socket_read s 1)
unfolding read_id
read_id_new malloc_ok now p s e =
    let new : (p.msg_id_loaded == 0) ≡ true = ground arith in rw new refl

pub read_id_old :
    (malloc_ok : Bool) (now : ℕ) (p : Peer) (s : BufferedSocket)
    → p.msg_id_loaded ≡ 1
    → read_id malloc_ok now p s ≡ check_id malloc_ok now p s
unfolding read_id
read_id_old malloc_ok now p s e =
    let old : (p.msg_id_loaded == 0) ≡ false = ground arith in rw old refl

module _ (malloc_ok : Bool) (now : ℕ) (p : Peer) (s : BufferedSocket) (r : IsReading p s)
    (l : p.network_ordered_msg_length_loaded ≡ 1) where
  -- The peer with the id that is next in the buffer.
  abbrev with_id : Peer
  with_id = record p { msg_id = get_or (take 1 s.read_buffer) 0 0; msg_id_loaded = 1 }

  with_id-pending :
      p.msg_id_loaded ≡ 0 → 1 ≤ length s.read_buffer → pending with_id (rest_of s 1) ≡ pending p s
  with_id-pending i le =
      let new : (p.msg_id_loaded == 0) ≡ true = ground arith in
      let loaded : (p.network_ordered_msg_length_loaded == 0) ≡ false = ground arith in
      let buffer : (get_or (take 1 s.read_buffer) 0 0 ∷ []) ++ drop 1 s.read_buffer
          ≡ s.read_buffer =
        ap (λ t. t ++ drop 1 s.read_buffer) (first_one s.read_buffer le)
        ∙ take-append-drop 1 s.read_buffer in
      rw (new, loaded) (ap (λ b. u32_bytes p.network_ordered_msg_length ++ b) buffer)

  IsReading-id : IsReading with_id (rest_of s 1)
  IsReading-id = record {
    connected = r.connected;
    in_range = AllBytes-drop 1 s.read_buffer r.in_range;
    length_fits = r.length_fits;
    stage = inr (l, inr refl);
  }

  -- The length is there.
  length_there-Kept :
      (p.msg_id_loaded ≡ 0) ⊎ (p.msg_id_loaded ≡ 1) → Kept (pending p s) (read_id malloc_ok now p s)
  unfolding after_id
  length_there-Kept (inr i) =
      subst (λ result. Kept (pending p s) result) (sym (read_id_old malloc_ok now p s i))
        (id_there-Kept malloc_ok now p s r l i)
  length_there-Kept (inl i) =
      subst (λ result. Kept (pending p s) result) (sym (read_id_new malloc_ok now p s i))
        (elim (read_all_or_nothing 1 s r.connected) [
          | inl (le, run, len) ↦ rw run (
              same_stream _ (pending p s) _ (with_id-pending i le)
                (id_there-Kept malloc_ok now with_id (rest_of s 1) IsReading-id l refl))
          | inr (lt, run) ↦ rw run (waiting-Kept p s r)
        ])

module _ (malloc_ok : Bool) (now : ℕ) (p : Peer) (s : BufferedSocket) (r : IsReading p s)
    (l : p.network_ordered_msg_length_loaded ≡ 0) (i : p.msg_id_loaded ≡ 0) where
  -- The peer with the length that is next in the buffer.
  abbrev with_length : Peer
  with_length = record p {
    network_ordered_msg_length = u32_of_bytes (take 4 s.read_buffer);
    network_ordered_msg_length_loaded = 1;
  }

  with_length-pending : 4 ≤ length s.read_buffer → pending with_length (rest_of s 4) ≡ pending p s
  with_length-pending le =
      let new : (p.network_ordered_msg_length_loaded == 0) ≡ true = ground arith in
      let no_id : (p.msg_id_loaded == 0) ≡ true = ground arith in
      let (same, _) = first_four s.read_buffer r.in_range le in
      rw (new, no_id) (ap (λ t. t ++ drop 4 s.read_buffer) same ∙ take-append-drop 4 s.read_buffer)

  IsReading-length : 4 ≤ length s.read_buffer → IsReading with_length (rest_of s 4)
  IsReading-length le = record {
    connected = r.connected;
    in_range = AllBytes-drop 4 s.read_buffer r.in_range;
    length_fits = (first_four s.read_buffer r.in_range le).1;
    stage = inr (refl, inl i);
  }

  nothing_there-Kept : Kept (pending p s) (after_length malloc_ok now p (buffered_socket_read s 4))
  unfolding after_length
  nothing_there-Kept = elim (read_all_or_nothing 4 s r.connected) [
    | inl (le, run, len) ↦ rw run (
        same_stream _ (pending p s) _ (with_length-pending le) (
          length_there-Kept malloc_ok now with_length (rest_of s 4) (IsReading-length le) refl
            (inl i)))
    | inr (lt, run) ↦ rw run (waiting-Kept p s r)
  ]

pub read_message_new :
    (malloc_ok : Bool) (now : ℕ) (p : Peer) (s : BufferedSocket)
    → p.socket ≡ some s
    → p.network_ordered_msg_length_loaded ≡ 0
    → peer_read_message malloc_ok now p ≡ after_length malloc_ok now p (buffered_socket_read s 4)
unfolding peer_read_message read_from
read_message_new malloc_ok now p s e l =
    let new : (p.network_ordered_msg_length_loaded == 0) ≡ true = ground arith in
    (λ j. read_from malloc_ok now p (e j)) ∙ rw new refl

pub read_message_old :
    (malloc_ok : Bool) (now : ℕ) (p : Peer) (s : BufferedSocket)
    → p.socket ≡ some s
    → p.network_ordered_msg_length_loaded ≡ 1
    → peer_read_message malloc_ok now p ≡ read_id malloc_ok now p s
unfolding peer_read_message read_from
read_message_old malloc_ok now p s e l =
    let old : (p.network_ordered_msg_length_loaded == 0) ≡ false = ground arith in
    (λ j. read_from malloc_ok now p (e j)) ∙ rw old refl

-- A call of `peer_read_message` on an open socket, wherever in a message the calls before it have
-- stopped, neither loses nor repeats a byte of the stream. If it returns a buffer, the buffer and
-- what is still pending are the stream, and the buffer is as long as its first four bytes say; if it
-- returns NULL, the peer is disconnected, or all that was pending is pending still.
pub read_message_lem :
    (malloc_ok : Bool) (now : ℕ) (p : Peer) (s : BufferedSocket)
    → p.socket ≡ some s
    → IsReading p s
    → Kept (pending p s) (peer_read_message malloc_ok now p)
read_message_lem malloc_ok now p s e r = by_stage r.stage
  where
    by_stage :
        IsStage p.network_ordered_msg_length_loaded p.msg_id_loaded
        → Kept (pending p s) (peer_read_message malloc_ok now p)
    by_stage (inl (l, i)) =
        subst (λ result. Kept (pending p s) result) (sym (read_message_new malloc_ok now p s e l))
          (nothing_there-Kept malloc_ok now p s r l i)
    by_stage (inr (l, i)) =
        subst (λ result. Kept (pending p s) result) (sym (read_message_old malloc_ok now p s e l))
          (length_there-Kept malloc_ok now p s r l i)

-- A new peer, once it has an open socket whose buffer holds bytes, is at the beginning of a message:
-- the first call begins with the first byte of the socket.
new-Kept :
    (malloc_ok : Bool) (now later : ℕ) (s : BufferedSocket)
    → s.is_open ≡ true
    → AllBytes s.read_buffer
    → Kept s.read_buffer (peer_read_message malloc_ok later (with_socket (peer_new now) s))
unfolding peer_new peer_reset
new-Kept malloc_ok now later s o bytes =
    read_message_lem malloc_ok later (with_socket (peer_new now) s) s refl (record {
      connected = o;
      in_range = bytes;
      length_fits = omega arith;
      stage = inl (refl, refl);
    })
