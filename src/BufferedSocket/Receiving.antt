-- ===== src/BufferedSocket/Receiving.antt =====
-- The byte stream that `buffered_socket_network_read` and `buffered_socket_read` of
-- src/buffered_socket/buffered_socket.c make of the pieces that the network delivers.
use uvg_torrent_c.Prelude.{
  ◌⊎◌, ℕ, ◌≤◌, ◌<◌, ◌≡◌, sym, ◌∙◌, ap, true, false, List, [], ◌∷◌, ◌++◌, append-nil, append_assoc,
  arith, ltb, length, length-append, take-append_left, drop-append_left, take, drop,
  take-append-drop, length-take, Bool-cases, inl, inr,
}
use uvg_torrent_c.BufferedSocket.{
  BufferedSocket, SysRead, read_failed, got, ReadResult, disconnected, not_enough, bytes_read,
  buffered_socket_network_read, buffered_socket_read,
}

-- What a caller does with a socket: it takes what the network has, at a time, or asks for bytes.
pub data Op : Type 0 where
  network : SysRead → ℕ → Op
  ask : ℕ → Op

abbrev pub taken : ReadResult → List ℕ
taken disconnected = []
taken not_enough = []
taken (bytes_read bs) = bs

abbrev pub delivered : SysRead → List ℕ
delivered read_failed = []
delivered (got bs) = bs

-- The bytes that the caller gets, in order, and the socket after the calls.
unfoldable pub run : List Op → BufferedSocket → List ℕ × BufferedSocket
run [] s = ([], s)
run (network answer now ∷ ops) s = run ops (buffered_socket_network_read answer now s).1
run (ask n ∷ ops) s =
    let (out, s') = run ops (buffered_socket_read s n).1 in
    (taken (buffered_socket_read s n).0 ++ out, s')

abbrev pub arrivals : List Op → List ℕ
arrivals [] = []
arrivals (network answer now ∷ ops) = delivered answer ++ arrivals ops
arrivals (ask n ∷ ops) = arrivals ops

network-appends :
    (answer : SysRead) (now : ℕ) (s : BufferedSocket)
    → s.is_open ≡ true
    → let s' = (buffered_socket_network_read answer now s).1 in
      (s'.is_open ≡ true) × (s'.read_buffer ≡ s.read_buffer ++ delivered answer)
unfolding buffered_socket_network_read
network-appends read_failed now s o = ground (arith, append-nil s.read_buffer)
network-appends (got []) now s o = ground (arith, append-nil s.read_buffer)
network-appends (got (b ∷ bs)) now s o = ground arith

read-takes :
    (n : ℕ) (s : BufferedSocket)
    → s.is_open ≡ true
    → let (result, s') = buffered_socket_read s n in
      (s'.is_open ≡ true) × (taken result ++ s'.read_buffer ≡ s.read_buffer)
unfolding buffered_socket_read
read-takes n s o = ground (arith, take-append-drop n s.read_buffer)

-- `buffered_socket_read` gives all the bytes that it is asked for, the first of the buffer, or none
-- of them and leaves the socket as it is; it gives them exactly if the buffer has that many.
pub read_all_or_nothing :
    (n : ℕ) (s : BufferedSocket)
    → s.is_open ≡ true
    → ((n ≤ length s.read_buffer)
        × (buffered_socket_read s n
            ≡ (bytes_read (take n s.read_buffer), record s { read_buffer = drop n s.read_buffer }))
        × (length (take n s.read_buffer) ≡ n))
      ⊎ ((length s.read_buffer < n) × (buffered_socket_read s n ≡ (not_enough, s)))
unfolding buffered_socket_read
read_all_or_nothing n s o = elim (Bool-cases (ltb (length s.read_buffer) n)) [
  | inl e ↦ inr (ground arith, rw (o, e))
  | inr e ↦
      inl (ground arith, rw (o, e), omega (arith, length-take n s.read_buffer, le_of_ltb_false e))
]
  where
    le_of_ltb_false : ltb (length s.read_buffer) n ≡ false → n ≤ length s.read_buffer
    le_of_ltb_false e = ground arith

-- However the network cuts the stream into pieces, and however the caller's requests fall between
-- them, the caller gets the bytes of the stream in order: what it got, followed by what the buffer
-- holds, is what the buffer held followed by all that arrived.
pub run_stream :
    (ops : List Op) (s : BufferedSocket)
    → s.is_open ≡ true
    → (run ops s).0 ++ (run ops s).1.read_buffer ≡ s.read_buffer ++ arrivals ops
unfolding run
run_stream [] s o = sym (append-nil s.read_buffer)
run_stream (network answer now ∷ ops) s o =
    let (o', e) = network-appends answer now s o in
    run_stream ops (buffered_socket_network_read answer now s).1 o'
    ∙ rw e (append_assoc s.read_buffer (delivered answer) (arrivals ops))
run_stream (ask n ∷ ops) s o =
    let (o', e) = read-takes n s o in
    let s' = (buffered_socket_read s n).1 in
    let out = taken (buffered_socket_read s n).0 in
    append_assoc out (run ops s').0 (run ops s').1.read_buffer
    ∙ ap (λ l. out ++ l) (run_stream ops s' o')
    ∙ sym (append_assoc out s'.read_buffer (arrivals ops))
    ∙ ap (λ l. l ++ arrivals ops) e

-- A read of just the first bytes that wait.
pub read_front :
    (t : BufferedSocket) (xs rest : List ℕ) (n : ℕ)
    → t.is_open ≡ true
    → length xs ≡ n
    → buffered_socket_read (record t { read_buffer = xs ++ rest }) n
      ≡ (bytes_read xs, record t { read_buffer = rest })
unfolding buffered_socket_read
read_front t xs rest n o e =
    let enough : ltb (length (xs ++ rest)) (length xs) ≡ false =
      ground (arith, length-append xs rest) in
    rw (← e, o, enough, take-append_left xs rest, drop-append_left xs rest)
