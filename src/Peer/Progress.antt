-- ===== src/Peer/Progress.antt =====
-- `peer_read_message` of src/peer/peer_messages.c on a whole message, and on one of length 0.
use uvg_torrent_c.Prelude.{
  ℕ, suc, ◌+◌, ◌^◌, ◌<◌, ◌≡◌, inl, inr, Bool-cases, refl, ap, ◌∙◌, Bool, true, false, List, [], ◌∷◌,
  ◌++◌, some, append_assoc, ltb, ◌==◌, if◌then◌else◌, length, length-append, take, drop, arith,
}
use mathlib.Core.Path.{subst}
use uvg_torrent_c.Prelude.Words.{sub64, to_int}
use uvg_torrent_c.Peer.Reading.{read_message_new, read_message_old, read_id_new, read_id_old}
use uvg_torrent_c.BufferedSocket.{BufferedSocket, bytes_read, buffered_socket_read}
use uvg_torrent_c.NetUtils.{
  ntohl, htonl, ntohl-htonl, htonl-lt, u32_bytes, u32_of_bytes, u32_of_bytes-u32_bytes,
}
use uvg_torrent_c.Peer.{
  Peer, message, no_message, with_socket, forget_message, msg_header, after_body, read_body,
  check_id, after_id, read_id, after_length, peer_read_message, is_valid_msg_id,
}

take_front {ℓ} : {A : Type ℓ} (xs ys : List A) → take (length xs) (xs ++ ys) ≡ xs
take_front [] ys = refl
take_front (x ∷ xs) ys = ap (λ l. x ∷ l) (take_front xs ys)

drop_front {ℓ} : {A : Type ℓ} (xs ys : List A) → drop (length xs) (xs ++ ys) ≡ ys
drop_front [] ys = refl
drop_front (x ∷ xs) ys = drop_front xs ys

abbrev holding : BufferedSocket → List ℕ → BufferedSocket
holding s bs = record s { read_buffer = bs }

read_front :
    (s : BufferedSocket) (xs ys : List ℕ)
    → s.is_open ≡ true
    → buffered_socket_read (holding s (xs ++ ys)) (length xs) ≡ (bytes_read xs, holding s ys)
unfolding buffered_socket_read
read_front s xs ys o =
    let enough : ltb (length (xs ++ ys)) (length xs) ≡ false =
      ground (arith, length-append xs ys) in
    rw (o, enough, take_front xs ys, drop_front xs ys) refl

nil_of_length {ℓ} : {A : Type ℓ} (xs : List A) → length xs ≡ 0 → xs ≡ []
nil_of_length [] e = refl
nil_of_length (x ∷ xs) e = absurd (omega arith)

module _ (now : ℕ) (p : Peer) (s : BufferedSocket) (o : s.is_open ≡ true) (k id : ℕ)
    (body rest : List ℕ) (size : length body ≡ k) (fits : suc k < 2 ^ 32)
    (valid : is_valid_msg_id id ≡ true) where
  -- The peer with the length and the id of the message.
  abbrev loaded : Peer
  loaded = record p {
    network_ordered_msg_length = htonl (suc k);
    network_ordered_msg_length_loaded = 1;
    msg_id = id;
    msg_id_loaded = 1;
  }

  abbrev frame : List ℕ
  frame = u32_bytes (htonl (suc k)) ++ (id ∷ body)

  abbrev after : Peer
  after = forget_message (with_socket p (holding s rest))

  expected : to_int (sub64 (4 + ntohl (htonl (suc k))) 5) ≡ k
  expected = rw (ntohl-htonl (suc k) fits) (omega arith)

  body_front : buffered_socket_read (holding s (body ++ rest)) k ≡ (bytes_read body, holding s rest)
  body_front =
      subst
        (λ n. buffered_socket_read (holding s (body ++ rest)) n ≡ (bytes_read body, holding s rest))
        size (read_front s body rest o)

  rest_read :
      (if ltb 0 k
        then after_body now loaded (buffered_socket_read (holding s (body ++ rest)) k)
        else (
          message (msg_header loaded),
          forget_message (with_socket loaded (holding s (body ++ rest))),
        ))
      ≡ (message frame, after)
  unfolding after_body
  rest_read = elim (Bool-cases (ltb 0 k)) [
    | inl more ↦
        rw (more, body_front)
          (λ i. (message (append_assoc (u32_bytes (htonl (suc k))) (id ∷ []) body i), after))
    | inr no_more ↦
        let none_left : body ≡ [] = nil_of_length body (ground arith) in
        rw (no_more, none_left) refl
  ]

  body_read : check_id true now loaded (holding s (body ++ rest)) ≡ (message frame, after)
  unfolding check_id read_body
  body_read =
      let positive : (ntohl (htonl (suc k)) == 0) ≡ false =
        ground (arith, ntohl-htonl (suc k) fits) in
      rw (valid, positive, expected) rest_read

  length_front :
      buffered_socket_read (holding s (frame ++ rest)) 4
      ≡ (bytes_read (u32_bytes (htonl (suc k))), holding s (id ∷ (body ++ rest)))
  unfolding u32_bytes
  length_front = read_front s (u32_bytes (htonl (suc k))) (id ∷ (body ++ rest)) o

  length_back : u32_of_bytes (u32_bytes (htonl (suc k))) ≡ htonl (suc k)
  unfolding u32_bytes
  length_back = u32_of_bytes-u32_bytes (htonl (suc k)) [] (htonl-lt (suc k))

  -- The peer with the length alone.
  abbrev sized : ℕ → Peer
  sized n = record p { network_ordered_msg_length = n; network_ordered_msg_length_loaded = 1 }

  -- A peer at the beginning of a message, on an open socket that has all of the message: a length of
  -- at least 1, a valid id and as many bytes as the length says, and what may follow. If `malloc`
  -- succeeds, one call returns just that message, and leaves the bytes that follow for the next call.
  pub read_whole_message :
      p.socket ≡ some (holding s (frame ++ rest))
      → p.network_ordered_msg_length_loaded ≡ 0
      → p.msg_id_loaded ≡ 0
      → peer_read_message true now p ≡ (message frame, after)
  unfolding after_length after_id
  read_whole_message e l i =
      read_message_new true now p _ e l
      ∙ (λ j. after_length true now p (length_front j))
      ∙ (λ j. read_id true now (sized (length_back j)) (holding s (id ∷ (body ++ rest))))
      ∙ read_id_new true now (sized (htonl (suc k))) (holding s (id ∷ (body ++ rest))) i
      ∙ (λ j. after_id true now (sized (htonl (suc k))) (read_front s (id ∷ []) (body ++ rest) o j))
      ∙ body_read

module _ (malloc_ok : Bool) (p : Peer) (s : BufferedSocket) (o : s.is_open ≡ true) (id : ℕ)
    (valid : is_valid_msg_id id ≡ true) where
  -- The peer with a length of 0 and an id.
  abbrev wedged : List ℕ → Peer
  wedged bs = record p {
    socket = some (holding s bs);
    network_ordered_msg_length = 0;
    network_ordered_msg_length_loaded = 1;
    msg_id = id;
    msg_id_loaded = 1;
  }

  zero_body :
      (now : ℕ) (q : Peer) (bs : List ℕ)
      → q.network_ordered_msg_length ≡ 0
      → q.msg_id ≡ id
      → check_id malloc_ok now q (holding s bs) ≡ (no_message, with_socket q (holding s bs))
  unfolding check_id read_body ntohl
  zero_body now q bs n e =
      let ok : is_valid_msg_id q.msg_id ≡ true = rw e valid in
      let none_left : (ntohl q.network_ordered_msg_length == 0) ≡ true = ground arith in
      rw (ok, none_left) refl

  -- After a message of length 0 on an open socket the peer takes the next byte for an id, if it is
  -- a valid one, and returns NULL; then no call ever returns a message, whatever bytes the socket
  -- holds by then, and none of these bytes is taken.
  pub zero_length_wedges :
      (now : ℕ) (rest : List ℕ)
      → p.socket ≡ some (holding s (0 ∷ 0 ∷ 0 ∷ 0 ∷ id ∷ rest))
      → p.network_ordered_msg_length_loaded ≡ 0
      → p.msg_id_loaded ≡ 0
      → (peer_read_message malloc_ok now p ≡ (no_message, wedged rest))
        × ((later : ℕ) (bs : List ℕ)
            → peer_read_message malloc_ok later (wedged bs) ≡ (no_message, wedged bs))
  unfolding after_length after_id u32_of_bytes
  zero_length_wedges now rest e l i = (
    read_message_new malloc_ok now p _ e l
        ∙ (λ j. after_length malloc_ok now p (read_front s (0 ∷ 0 ∷ 0 ∷ 0 ∷ []) (id ∷ rest) o j))
        ∙ read_id_new malloc_ok now _ (holding s (id ∷ rest)) i
        ∙ (λ j.
            after_id malloc_ok now
              (record p { network_ordered_msg_length = 0; network_ordered_msg_length_loaded = 1 })
              (read_front s (id ∷ []) rest o j))
        ∙ zero_body now _ rest refl refl,
    λ later bs.
        read_message_old malloc_ok later (wedged bs) (holding s bs) refl refl
        ∙ read_id_old malloc_ok later (wedged bs) (holding s bs) refl
        ∙ zero_body later (wedged bs) bs refl refl,
  )
