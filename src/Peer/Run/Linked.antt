-- ===== src/Peer/Run/Linked.antt =====
-- What a run of a peer, `peer_run` of src/peer/peer.c, leaves behind: a peer that may be scheduled
-- again, whose status and socket agree.
use uvg_torrent_c.Prelude.{
  ℕ, ◌≡◌, refl, sym, Bool, true, false, not, none, some, Bool-cases, inl, inr,
}
use uvg_torrent_c.BufferedSocket.{
  BufferedSocket, can_network_write, buffered_socket_network_write, buffered_socket_network_read,
}
use uvg_torrent_c.Peer.{
  Peer, PeerStatus, peer_unconnected, peer_connecting, peer_connected, peer_handshake_sent,
  peer_handshake_complete,
}
use uvg_torrent_c.Peer.Messages.{Status, exit_success, exit_failure}
use uvg_torrent_c.Peer.Network.{Answers, is_failure, handle_read, peer_handle_network_buffers}
use uvg_torrent_c.Peer.Run.{RunState, Step, then_do, unread, optional}
use uvg_torrent_c.Peer.Run.Sending.{has_socket, IsSame, IsDown, IsSameOrDown, disconnect-IsDown}

-- An unconnected peer has no socket, and any other has one.
abbrev pub is_linked : PeerStatus → Bool → Bool
is_linked peer_unconnected has = not has
is_linked peer_connecting has = has
is_linked peer_connected has = has
is_linked peer_handshake_sent has = has
is_linked peer_handshake_complete has = has

abbrev pub IsLinked : Peer → Type 0
IsLinked p = is_linked p.status (has_socket p.socket) ≡ true

pub same-IsLinked : (p q : Peer) → IsSame p q → IsLinked p → IsLinked q
same-IsLinked p q (a, b) h = rw (a, b) h

pub down-IsLinked : (p : Peer) → IsDown p → IsLinked p
down-IsLinked p (a, b) = rw (a, b) refl

pub same_or_down-IsLinked : (p q : Peer) → IsSameOrDown p q → IsLinked p → IsLinked q
same_or_down-IsLinked p q (inl same) h = same-IsLinked p q same h
same_or_down-IsLinked p q (inr down) h = down-IsLinked q down

-- A step that goes on leaves a linked peer, and one that fails a disconnected one.
abbrev pub Keeps : Step → Type 0
Keeps none = Unit
Keeps (some (exit_success, st)) = IsLinked st.peer
Keeps (some (exit_failure, st)) = IsDown st.peer

pub then_do-Keeps :
    (step : Step) (next : RunState → Step)
    → Keeps step
    → ((st : RunState) → IsLinked st.peer → Keeps (next st))
    → Keeps (then_do step next)
unfolding then_do
then_do-Keeps none next h rest = tt
then_do-Keeps (some (exit_failure, st)) next h rest = h
then_do-Keeps (some (exit_success, st)) next h rest = rest st h

pub optional-Keeps :
    (should : Bool) (st : RunState) (step : Step)
    → IsLinked st.peer
    → (should ≡ true → Keeps step)
    → Keeps (optional should st step)
optional-Keeps true st step h taken = taken refl
optional-Keeps false st step h taken = h

pub unread-Keeps :
    (st : RunState) (r : Status × Peer)
    → IsLinked st.peer
    → IsSame st.peer r.1
    → Keeps (unread st r)
unread-Keeps st (status, p) h same = same-IsLinked st.peer p same h

-- The network: served, or disconnected.
abbrev pub IsServedOrDown : Peer → Status × Peer → Type 0
IsServedOrDown p (exit_success, q) = IsSame p q
IsServedOrDown p (exit_failure, q) = IsDown q

module _ (answers : Answers) (now : ℕ) (p : Peer) (there : has_socket p.socket ≡ true) where
  handle_read-kept : (s : BufferedSocket) → IsServedOrDown p (handle_read answers now p s)
  unfolding handle_read
  handle_read-kept s =
      let (result, s') = buffered_socket_network_read answers.read now s in
      elim (Bool-cases answers.can_network_read) [
        | inr idle ↦ rw idle (refl, sym there)
        | inl readable ↦ elim (Bool-cases (is_failure result answers.read_errno_passes)) [
          | inl fails ↦ rw (readable, fails) (disconnect-IsDown now p)
          | inr passes ↦ rw (readable, passes) (refl, sym there)
        ]
      ]

  pub network-kept :
      (s : BufferedSocket)
      → let (status, q, wire) = peer_handle_network_buffers answers now p s in
        IsServedOrDown p (status, q)
  unfolding peer_handle_network_buffers handle_read
  network-kept s =
      let (result, s', wire) = buffered_socket_network_write answers.writes now s in
      elim (Bool-cases answers.has_hungup) [
        | inl gone ↦ rw gone (disconnect-IsDown now p)
        | inr open_ ↦ elim (Bool-cases (can_network_write s)) [
          | inr idle ↦ rw (open_, idle) (handle_read-kept s)
          | inl waits ↦ elim (Bool-cases (is_failure result answers.write_errno_passes)) [
            | inl fails ↦ rw (open_, waits, fails) (disconnect-IsDown now p)
            | inr passes ↦ rw (open_, waits, passes) (handle_read-kept s')
          ]
        ]
      ]
