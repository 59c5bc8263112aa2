-- ===== src/Peer/Run/Quiet.antt =====
-- The steps of a run that do nothing before the handshake is complete: `peer_run` of
-- src/peer/peer.c.
use uvg_torrent_c.Prelude.{
  Option, none, some, ◌*◌, ◌≡◌, refl, Bool, true, false, ◌&&◌, ◌==◌, ltb, if◌then◌else◌,
}
use uvg_torrent_c.BufferedSocket.{BufferedSocket, can_read}
use uvg_torrent_c.Queue.{queue_get_count}
use uvg_torrent_c.Prelude.Words.{slt32, sub64}
use uvg_torrent_c.Peer.Messages.{
  exit_success, is_handshake_complete, peer_send_keepalive, peer_should_send_keepalive,
}
use uvg_torrent_c.Peer.Network.{peer_should_read_message}
use uvg_torrent_c.Peer.Pieces.{peer_should_send_msg_have, peer_should_send_msg_bitfield}
use uvg_torrent_c.Peer.Requests.{peer_should_send_msg_request}
use uvg_torrent_c.Peer.Metadata.{peer_supports_ut_metadata, peer_should_send_ut_metadata_request}
use uvg_torrent_c.Peer.Run.{
  optional, unread, optional, unread, RunEnv, RunState, then_do, have_step, bitfield_step,
  metadata_request_step, request_step, choke_step, read_step, keepalive_step, writing,
}

and_false : (b : Bool) → (b && false) ≡ false
and_false true = refl
and_false false = refl

-- Before the handshake is complete nothing is written but the handshake, and no message is read.
module _ (env : RunEnv) (st : RunState) (early : is_handshake_complete st.peer.status ≡ false) where
  have_quiet : have_step st ≡ some (exit_success, st)
  unfolding have_step peer_should_send_msg_have
  have_quiet = rw (early, and_false (ltb 0 (queue_get_count st.peer.progress_queue))) refl

  bitfield_quiet : bitfield_step st ≡ some (exit_success, st)
  unfolding bitfield_step peer_should_send_msg_bitfield
  bitfield_quiet = rw early refl

  metadata_quiet : metadata_request_step env st ≡ some (exit_success, st)
  unfolding metadata_request_step peer_should_send_ut_metadata_request peer_supports_ut_metadata
  metadata_quiet =
      rw (early, and_false (slt32 0 st.peer.ut_metadata), and_false (st.metadata.needed == 1)) refl

  request_quiet : request_step env st ≡ some (exit_success, st)
  unfolding request_step peer_should_send_msg_request
  request_quiet = rw early refl

  choke_quiet : choke_step st ≡ some (exit_success, st)
  unfolding choke_step
  choke_quiet = rw early refl

  pub quiet_writing : writing env st ≡ some (exit_success, st)
  unfolding writing then_do
  quiet_writing = rw (have_quiet, bitfield_quiet, metadata_quiet, request_quiet) choke_quiet

  not_reading :
      (o : Option BufferedSocket)
      → (elim o as (λ _. Bool) [
        | none ↦ false
        | some s ↦ is_handshake_complete st.peer.status && can_read s
      ])
        ≡ false
  not_reading none = refl
  not_reading (some s) = rw early refl

  pub no_message : read_step env st ≡ some (exit_success, st)
  unfolding read_step peer_should_read_message
  no_message = rw (not_reading st.peer.socket) refl

  pub no_keepalive : keepalive_step env st ≡ some (exit_success, st)
  unfolding keepalive_step peer_should_send_keepalive
  no_keepalive = by_socket st.peer.socket
    where
      by_socket :
          (o : Option BufferedSocket)
          → optional
              (elim o as (λ _. Bool) [
                | none ↦ false
                | some s ↦
                    if is_handshake_complete st.peer.status
                    then ltb s.last_download_rate_update (sub64 (env.clock 7) (60 * 1000 * 2))
                    else false
              ])
              st
              (unread st (peer_send_keepalive st.peer))
            ≡ some (exit_success, st)
      by_socket none = refl
      by_socket (some s) = rw early refl
