-- ===== src/Peer/Run/Ends.antt =====
-- How a run of a peer ends: `peer_run` of src/peer/peer.c.
use uvg_torrent_c.Bitfield
use uvg_torrent_c.Bitfield.{Bitfield}
use uvg_torrent_c.Prelude.Words.{extend64}
use uvg_torrent_c.NetUtils.{ntohl, u32_of_bytes, u32_bytes}
use uvg_torrent_c.Prelude.{
  ℕ, ◌≡◌, refl, Bool, true, false, ◌&&◌, List, Option, none, some, ◌==◌, if◌then◌else◌, drop, drop,
}
use uvg_torrent_c.BufferedSocket.{BufferedSocket, can_read}
use uvg_torrent_c.Peer.{
  Peer, peer_disconnect, ReadMessage, message, no_message, null_socket, peer_read_message,
}
use uvg_torrent_c.Peer.Messages.{
  Status, exit_success, exit_failure, send_bytes, peer_handle_msg_choke, peer_handle_msg_unchoke,
  peer_handle_msg_interested, peer_handle_msg_not_interested, peer_send_keepalive,
  is_handshake_complete, get_msg_id, peer_should_send_keepalive, peer_should_timeout,
}
use uvg_torrent_c.Peer.Pieces.{peer_handle_msg_have, peer_handle_msg_bitfield, field_or_new}
use uvg_torrent_c.Peer.Requests.{peer_handle_msg_request, peer_handle_msg_piece}
use uvg_torrent_c.Peer.Metadata.{peer_handle_msg_extension}
use uvg_torrent_c.Peer.Network.{peer_should_read_message}
use uvg_torrent_c.Peer.Run.{
  RunEnv, RunState, Step, unread, after_peer, after_have_handled, after_piece, after_extension,
  route, after_message, read_step, keepalive_step, timeout_step, stop_running, peer_run, closing,
  with_peer,
}
use uvg_torrent_c.Peer.Run.Sending.{
  has_socket, IsDown, IsSameOrDown, disconnect-IsDown, send-IsSame,
}
use uvg_torrent_c.Peer.Run.Reading.{read_message-kept}
use uvg_torrent_c.Peer.Run.Opening.{network-Keeps, opening-Keeps}
use uvg_torrent_c.Peer.Run.Writing.{writing-Keeps, after_peer-Keeps}
use uvg_torrent_c.Peer.Run.Handled.{
  updated-IsSame, have_handled-Keeps, handle_bitfield-IsSame, handle_request-IsSame, piece-Keeps,
  handle_piece-IsSame,
}
use uvg_torrent_c.Peer.Run.Extensions.{extension-Keeps, extension-kept}
use uvg_torrent_c.Peer.Run.Linked.{
  IsLinked, down-IsLinked, same_or_down-IsLinked, Keeps, then_do-Keeps, optional-Keeps,
  unread-Keeps,
}

-- The routing of a message, by the eleven ids.
routed :
    (P : Step → Type 0) (env : RunEnv) (st : RunState) (msg : List ℕ) (msg_id : ℕ)
    → P (some (exit_success, with_peer st (peer_handle_msg_choke st.peer)))
    → P (some (exit_success, with_peer st (peer_handle_msg_unchoke st.peer)))
    → P (some (exit_success, with_peer st (peer_handle_msg_interested st.peer)))
    → P (some (exit_success, with_peer st (peer_handle_msg_not_interested st.peer)))
    → P (after_have_handled st (peer_handle_msg_have st.peer msg st.data_))
    → P (after_peer st (peer_handle_msg_bitfield st.peer msg st.data_))
    → P (after_peer st (peer_handle_msg_request env.fuel env.fs env.disk st.peer msg st.data_))
    → P (after_piece st (peer_handle_msg_piece env.node_ st.peer msg st.data_queue st.data_nodes))
    → P (
        after_extension st (
          peer_handle_msg_extension env.bencode
            (env.clock 6)
            env.fuel
            env.fs
            env.disk
            env.node_
            st.peer
            msg
            st.metadata
            st.metadata_queue
            st.metadata_nodes))
    → P (some (exit_success, st))
    → P (route env st msg msg_id)
unfolding route
routed P env st msg msg_id a b c d e f g h i j = by_test (msg_id == 0) a (
    by_test (msg_id == 1) b (
      by_test (msg_id == 2) c (
        by_test (msg_id == 3) d (
          by_test (msg_id == 4) e (
            by_test (msg_id == 5) f
              (by_test (msg_id == 6) g (by_test (msg_id == 7) h (by_test (msg_id == 20) i j))))))))
  where
    by_test : (t : Bool) {x y : Step} → P x → P y → P (if t then x else y)
    by_test true u v = u
    by_test false u v = v

route-Keeps :
    (env : RunEnv) (st : RunState) (msg : List ℕ) (msg_id : ℕ)
    → IsLinked st.peer
    → Keeps (route env st msg msg_id)
unfolding peer_handle_msg_choke peer_handle_msg_unchoke peer_handle_msg_interested
    peer_handle_msg_not_interested peer_handle_msg_have peer_handle_msg_bitfield
route-Keeps env st msg msg_id h =
    let p = st.peer in
    let has = field_or_new p.peer_bitfield st.data_.piece_count in
    let piece_id = extend64 (ntohl (u32_of_bytes (drop 5 msg))) in
    routed Keeps env st msg msg_id h h h h
      (have_handled-Keeps st _ h (
        updated-IsSame p (record p { peer_bitfield = some (Bitfield.set_bit has piece_id 1) })
          st.data_ (refl, refl)))
      (after_peer-Keeps st _ h (handle_bitfield-IsSame p st.data_ _))
      (after_peer-Keeps st _ h (handle_request-IsSame env.fuel env.fs env.disk p msg st.data_))
      (piece-Keeps st _ h (handle_piece-IsSame env.node_ p msg st.data_queue st.data_nodes))
      (extension-Keeps st _ h
        (extension-kept env p st.metadata st.metadata_queue st.metadata_nodes msg))
      h

message-Keeps :
    (env : RunEnv) (st : RunState) (r : ReadMessage × Peer)
    → IsLinked st.peer
    → IsSameOrDown st.peer r.1
    → Keeps (after_message env st r)
unfolding after_message
message-Keeps env st (null_socket, q) h kept = tt
message-Keeps env st (no_message, q) h kept = same_or_down-IsLinked st.peer q kept h
message-Keeps env st (message msg, q) h kept =
    route-Keeps env (with_peer st q) msg (get_msg_id msg) (same_or_down-IsLinked st.peer q kept h)

has_socket-should_read : (p : Peer) → peer_should_read_message p ≡ true → has_socket p.socket ≡ true
unfolding peer_should_read_message
has_socket-should_read p = by_socket p.socket
  where
    by_socket :
        (o : Option BufferedSocket)
        → (elim o as (λ _. Bool) [
          | none ↦ false
          | some s ↦ is_handshake_complete p.status && can_read s
        ])
          ≡ true
        → has_socket o ≡ true
    by_socket none e = e
    by_socket (some s) e = refl

read-Keeps : (env : RunEnv) (st : RunState) → IsLinked st.peer → Keeps (read_step env st)
unfolding read_step
read-Keeps env st h =
    optional-Keeps (peer_should_read_message st.peer) st
      (after_message env st (peer_read_message env.malloc_ok (env.clock 5) st.peer)) h
      (λ should. message-Keeps env st (peer_read_message env.malloc_ok (env.clock 5) st.peer) h (
        read_message-kept (env.clock 5) st.peer (has_socket-should_read st.peer should)
          env.malloc_ok))

keepalive-Keeps : (env : RunEnv) (st : RunState) → IsLinked st.peer → Keeps (keepalive_step env st)
unfolding keepalive_step peer_send_keepalive
keepalive-Keeps env st h =
    optional-Keeps (peer_should_send_keepalive (env.clock 7) st.peer) st
      (unread st (send_bytes st.peer (u32_bytes 0))) h
      (λ _. unread-Keeps st (send_bytes st.peer (u32_bytes 0)) h (send-IsSame st.peer _))

timeout-Keeps : (env : RunEnv) (st : RunState) → IsLinked st.peer → Keeps (timeout_step env st)
unfolding timeout_step
timeout-Keeps env st h =
    optional-Keeps (peer_should_timeout (env.clock 8) st.peer) st
      (some (exit_success, with_peer st (peer_disconnect (env.clock 9) st.peer))) h
      (λ _.
        down-IsLinked (peer_disconnect (env.clock 9) st.peer)
          (disconnect-IsDown (env.clock 9) st.peer))

closing-Keeps : (env : RunEnv) (st : RunState) → IsLinked st.peer → Keeps (closing env st)
unfolding closing
closing-Keeps env st h = then_do-Keeps _ _ (read-Keeps env st h) λ st₁ h₁.
    then_do-Keeps _ _ (keepalive-Keeps env st₁ h₁) λ st₂ h₂.
      then_do-Keeps _ _ (timeout-Keeps env st₂ h₂)
        λ st₃ h₃. network-Keeps env.polled_after env.answers_after (env.clock 10) st₃ h₃

-- A peer that failed is disconnected.
abbrev pub IsDownOnFailure : Status → Peer → Type 0
IsDownOnFailure exit_success p = Unit
IsDownOnFailure exit_failure p = IsDown p

abbrev IsEnded : Step → Type 0
IsEnded none = Unit
IsEnded (some (status, st)) =
    (st.peer.running ≡ 0) × IsLinked st.peer × IsDownOnFailure status st.peer

stop_running-IsEnded : (step : Step) → Keeps step → IsEnded (stop_running step)
unfolding stop_running
stop_running-IsEnded none h = tt
stop_running-IsEnded (some (exit_success, st)) h = (refl, h, tt)
stop_running-IsEnded (some (exit_failure, st)) h = (refl, down-IsLinked st.peer h, h)

run-IsEnded : (env : RunEnv) (st : RunState) → IsLinked st.peer → IsEnded (peer_run env st)
unfolding peer_run
run-IsEnded env st h = stop_running-IsEnded _ (
    then_do-Keeps _ _ (opening-Keeps env st h)
      λ st₁ h₁. then_do-Keeps _ _ (writing-Keeps env st₁ h₁) λ st₂ h₂. closing-Keeps env st₂ h₂)

-- A run of a peer, whichever steps it takes, and whatever the system and the other peer send, leaves
-- it not running, so that it may be scheduled again, and unconnected exactly if it has no socket, if
-- that was so before and no step faults. A run that fails has disconnected the peer.
pub peer_run_lem :
    (env : RunEnv) (st st' : RunState) (status : Status)
    → IsLinked st.peer
    → peer_run env st ≡ some (status, st')
    → (st'.peer.running ≡ 0) × IsLinked st'.peer × IsDownOnFailure status st'.peer
peer_run_lem env st st' status h e = rw e at (run-IsEnded env st h)
