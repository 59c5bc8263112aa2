-- ===== src/Peer/Network.antt =====
-- The socket of a peer: `peer_set_socket`, `peer_should_connect` of src/peer/peer_connect.c,
-- `peer_should_read_message` of src/peer/peer_messages.c and `peer_handle_network_buffers` of
-- src/peer/peer.c.
use uvg_torrent_c.Prelude.{
  ℕ, ◌≡◌, refl, ◌++◌, Bool, true, false, ◌&&◌, not, Bool-cases, inl, inr, none, some, List, [], ◌∷◌,
  ap, ◌∙◌, arith, ltb, if◌then◌else◌,
}
use uvg_torrent_c.BufferedSocket.{
  BufferedSocket, NetResult, net_error, net_closed, net_ok, SysWrite, SysRead, read_failed, got,
  can_network_write, can_read, buffered_socket_network_write, buffered_socket_network_read,
}
use uvg_torrent_c.BufferedSocket.Sending.{unsent, network_write-unsent}
use uvg_torrent_c.Peer.{
  Peer, PeerStatus, peer_connected, peer_unconnected, peer_disconnect, peer_reset,
}
use uvg_torrent_c.Peer.Messages.{Status, exit_success, exit_failure, is_handshake_complete}

unfoldable pub peer_set_socket : Peer → BufferedSocket → Peer
peer_set_socket p s = record p { socket = some s; status = peer_connected }

abbrev pub is_unconnected : PeerStatus → Bool
is_unconnected peer_unconnected = true
is_unconnected _ = false

unfoldable pub peer_should_connect : ℕ → Peer → Bool
peer_should_connect now p = is_unconnected p.status && ltb p.reconnect_deadline now

unfoldable pub peer_should_read_message : Peer → Bool
peer_should_read_message p = elim p.socket [
  | none ↦ false
  | some s ↦ is_handshake_complete p.status && can_read s
]

-- What the system answers: to `poll` for a hang-up and for data, to `write` and `read`, and whether
-- the `errno` of a failure is one of the four that are passed over.
pub record Answers : Type 0 where
  pub has_hungup : Bool
  pub can_network_read : Bool
  pub writes : ℕ → SysWrite
  pub write_errno_passes : Bool
  pub read : SysRead
  pub read_errno_passes : Bool

-- `-1` with an `errno` that counts.
abbrev pub is_failure : NetResult → Bool → Bool
is_failure net_error passes = not passes
is_failure net_closed passes = false
is_failure net_ok passes = false

-- The second half, on the socket after the write.
unfoldable pub handle_read : Answers → ℕ → Peer → BufferedSocket → Status × Peer
handle_read answers now p s =
    let (result, s') = buffered_socket_network_read answers.read now s in
    if answers.can_network_read
    then (if is_failure result answers.read_errno_passes
        then (exit_failure, peer_disconnect now p)
        else (exit_success, record p { socket = some s' }))
    else (exit_success, record p { socket = some s })

-- The bytes that `write` took are the last part of the result.
unfoldable pub peer_handle_network_buffers :
    Answers → ℕ → Peer → BufferedSocket → Status × Peer × List ℕ
peer_handle_network_buffers answers now p s =
    let (result, s', wire) = buffered_socket_network_write answers.writes now s in
    if answers.has_hungup
    then (exit_failure, peer_disconnect now p, [])
    else if can_network_write s
    then (if is_failure result answers.write_errno_passes
        then (exit_failure, peer_disconnect now p, wire)
        else (let (status, p') = handle_read answers now p s' in (status, p', wire)))
    else (let (status, p') = handle_read answers now p s in (status, p', []))

read-write_buffers :
    (answer : SysRead) (now : ℕ) (s : BufferedSocket)
    → (buffered_socket_network_read answer now s).1.write_buffers ≡ s.write_buffers
unfolding buffered_socket_network_read
read-write_buffers read_failed now s = ground arith
read-write_buffers (got []) now s = ground arith
read-write_buffers (got (b ∷ bs)) now s = ground arith

-- A failure has disconnected the peer. A success has taken `wire` off the front of the bytes that
-- wait, and kept the others.
abbrev pub IsServed : BufferedSocket → List ℕ → Status × Peer → Type 0
IsServed s wire (exit_failure, p) = p.socket ≡ none
IsServed s wire (exit_success, p) =
    (s' : BufferedSocket) × (p.socket ≡ some s')
    × (wire ++ unsent s'.write_buffers ≡ unsent s.write_buffers)

module _ (answers : Answers) (now : ℕ) (p : Peer) (s : BufferedSocket) where
  disconnected_lem : (peer_disconnect now p).socket ≡ none
  unfolding peer_disconnect peer_reset
  disconnected_lem = refl

  handle_read-IsServed :
      (t : BufferedSocket) (wire : List ℕ)
      → wire ++ unsent t.write_buffers ≡ unsent s.write_buffers
      → IsServed s wire (handle_read answers now p t)
  unfolding handle_read
  handle_read-IsServed t wire e =
      let (result, t') = buffered_socket_network_read answers.read now t in
      elim (Bool-cases answers.can_network_read) [
        | inr idle ↦ rw idle (t, refl, e)
        | inl readable ↦ elim (Bool-cases (is_failure result answers.read_errno_passes)) [
          | inl fails ↦ rw (readable, fails) disconnected_lem
          | inr passes ↦
              rw (readable, passes)
                (t', refl, ap (λ bs. wire ++ unsent bs) (read-write_buffers answers.read now t) ∙ e)
        ]
      ]

  -- `peer_handle_network_buffers` either fails and has disconnected the peer, or succeeds, and then
  -- the bytes that the system took are the first of those that waited, and the others still wait.
  pub handle_network_buffers_lem :
      let (status, p', wire) = peer_handle_network_buffers answers now p s in
      IsServed s wire (status, p')
  unfolding peer_handle_network_buffers handle_read
  handle_network_buffers_lem =
      let (result, s', wire) = buffered_socket_network_write answers.writes now s in
      elim (Bool-cases answers.has_hungup) [
        | inl gone ↦ rw gone disconnected_lem
        | inr there ↦ elim (Bool-cases (can_network_write s)) [
          | inr idle ↦ rw (there, idle) (handle_read-IsServed s [] refl)
          | inl waits ↦ elim (Bool-cases (is_failure result answers.write_errno_passes)) [
            | inl fails ↦ rw (there, waits, fails) disconnected_lem
            | inr passes ↦
                rw (there, waits, passes)
                  (handle_read-IsServed s' wire (network_write-unsent answers.writes now s))
          ]
        ]
      ]
