-- ===== src/Peer/Stream.antt =====
-- The stream of bytes that a peer of src/peer/peer_messages.c cuts into messages, and where in a
-- message it has stopped.
use uvg_torrent_c.Prelude.{
  ℕ, zero, suc, ◌+◌, ◌^◌, ◌≤◌, ◌<◌, ◌≡◌, ◌⊎◌, inl, inr, refl, true, List, [], ◌∷◌, ◌++◌,
  append_assoc, none, some, ◌==◌, if◌then◌else◌, get_or, length, length-append, take, drop, arith,
}
use uvg_torrent_c.BufferedSocket.{BufferedSocket}
use uvg_torrent_c.NetUtils.{
  ntohl, u32_bytes, u32_of_bytes, u32_of_bytes-u32_bytes, u32_bytes-u32_of_bytes,
}
use uvg_torrent_c.Peer.{
  Peer, ReadMessage, message, no_message, null_socket, with_socket, forget_message, msg_header,
  peer_disconnect, peer_reset,
}

abbrev pub AllBytes : List ℕ → Type 0
AllBytes [] = Unit
AllBytes (b ∷ bs) = (b < 256) × AllBytes bs

-- The part of the message that has been taken from the socket so far: nothing, the length, or the
-- length and the id.
abbrev pub IsStage : ℕ → ℕ → Type 0
IsStage length_loaded id_loaded =
    ((length_loaded ≡ 0) × (id_loaded ≡ 0))
    ⊎ ((length_loaded ≡ 1) × ((id_loaded ≡ 0) ⊎ (id_loaded ≡ 1)))

pub record IsReading (p : Peer) (s : BufferedSocket) : Type 0 where
  pub connected : s.is_open ≡ true
  pub in_range : AllBytes s.read_buffer
  pub length_fits : p.network_ordered_msg_length < 2 ^ 32
  pub stage : IsStage p.network_ordered_msg_length_loaded p.msg_id_loaded

-- The bytes from the beginning of the current message on: those that the peer has taken, and those
-- in the buffer.
abbrev pub pending : Peer → BufferedSocket → List ℕ
pending p s =
    (if p.network_ordered_msg_length_loaded == 0
      then []
      else u32_bytes p.network_ordered_msg_length)
    ++ ((if p.msg_id_loaded == 0 then [] else p.msg_id ∷ []) ++ s.read_buffer)

-- A call neither loses nor repeats a byte of the stream. It returns a message of the length that
-- its first four bytes say, and begins a new one; or it returns NULL and keeps what it has read; or
-- it has disconnected.
abbrev pub Kept : List ℕ → ReadMessage × Peer → Type 0
Kept stream (null_socket, p) = ⊥
Kept stream (no_message, p) =
    (p.socket ≡ none)
    ⊎ ((s : BufferedSocket) × (p.socket ≡ some s) × IsReading p s × (pending p s ≡ stream))
Kept stream (message m, p) =
    (s : BufferedSocket) × (p.socket ≡ some s)
    × IsReading p s
    × (m ++ pending p s ≡ stream)
    × (length m ≡ 4 + ntohl (u32_of_bytes m))

pub AllBytes-drop : (n : ℕ) (bs : List ℕ) → AllBytes bs → AllBytes (drop n bs)
AllBytes-drop zero bs h = h
AllBytes-drop (suc n) [] h = tt
AllBytes-drop (suc n) (b ∷ bs) h = AllBytes-drop n bs h.1

pub first_four :
    (bs : List ℕ)
    → AllBytes bs
    → 4 ≤ length bs
    → (u32_bytes (u32_of_bytes (take 4 bs)) ≡ take 4 bs) × (u32_of_bytes (take 4 bs) < 2 ^ 32)
unfolding u32_of_bytes
first_four (a ∷ b ∷ c ∷ d ∷ bs) (ha, (hb, (hc, (hd, h)))) le =
    (unfold u32_of_bytes in u32_bytes-u32_of_bytes a b c d ha hb hc hd, omega arith)
first_four [] h le = absurd (omega arith)
first_four (a ∷ []) h le = absurd (omega arith)
first_four (a ∷ b ∷ []) h le = absurd (omega arith)
first_four (a ∷ b ∷ c ∷ []) h le = absurd (omega arith)

pub first_one : (bs : List ℕ) → 1 ≤ length bs → get_or (take 1 bs) 0 0 ∷ [] ≡ take 1 bs
first_one (b ∷ bs) le = refl
first_one [] le = absurd (omega arith)

length-u32_bytes : (n : ℕ) → length (u32_bytes n) ≡ 4
unfolding u32_bytes
length-u32_bytes n = refl

pub disconnect_lem : (now : ℕ) (p : Peer) → (peer_disconnect now p).socket ≡ none
unfolding peer_disconnect peer_reset
disconnect_lem now p = refl

pub IsReading-with : (p : Peer) (s : BufferedSocket) → IsReading p s → IsReading (with_socket p s) s
IsReading-with p s r = record {
  connected = r.connected;
  in_range = r.in_range;
  length_fits = r.length_fits;
  stage = r.stage;
}

pub IsReading-next :
    (p : Peer) (s : BufferedSocket) → IsReading p s → IsReading (forget_message (with_socket p s)) s
IsReading-next p s r = record {
  connected = r.connected;
  in_range = r.in_range;
  length_fits = omega arith;
  stage = inl (refl, refl);
}

-- NULL, with nothing changed but the place of the socket.
pub waiting-Kept :
    (p : Peer) (s : BufferedSocket)
    → IsReading p s
    → Kept (pending p s) (no_message, with_socket p s)
waiting-Kept p s r = inr (s, refl, IsReading-with p s r, refl)

pub gone-Kept :
    (now : ℕ) (p : Peer) (stream : List ℕ) → Kept stream (no_message, peer_disconnect now p)
gone-Kept now p stream = inl (disconnect_lem now p)

-- The socket after `n` bytes are taken.
abbrev pub rest_of : BufferedSocket → ℕ → BufferedSocket
rest_of s n = record s { read_buffer = drop n s.read_buffer }

pub IsReading-rest :
    (p : Peer) (s : BufferedSocket) (n : ℕ) → IsReading p s → IsReading p (rest_of s n)
IsReading-rest p s n r = record {
  connected = r.connected;
  in_range = AllBytes-drop n s.read_buffer r.in_range;
  length_fits = r.length_fits;
  stage = r.stage;
}

pub header-pending :
    (p : Peer) (s : BufferedSocket)
    → p.network_ordered_msg_length_loaded ≡ 1
    → p.msg_id_loaded ≡ 1
    → msg_header p ++ s.read_buffer ≡ pending p s
header-pending p s l i =
    rw (l, i) (append_assoc (u32_bytes p.network_ordered_msg_length) (p.msg_id ∷ []) s.read_buffer)

pub message_length :
    (p : Peer) (bs : List ℕ)
    → p.network_ordered_msg_length < 2 ^ 32
    → 1 + length bs ≡ ntohl p.network_ordered_msg_length
    → length (msg_header p ++ bs) ≡ 4 + ntohl (u32_of_bytes (msg_header p ++ bs))
message_length p bs fits e =
    let n = p.network_ordered_msg_length in
    let split = append_assoc (u32_bytes n) (p.msg_id ∷ []) bs in
    rw (split, u32_of_bytes-u32_bytes n (p.msg_id ∷ bs) fits, length-append, length-u32_bytes n)
      (omega arith)
