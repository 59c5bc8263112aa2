-- ===== src/Peer/Run/Dialing.antt =====
-- The first run of a peer that the tracker has named: `peer_run` of src/peer/peer.c.
use uvg_torrent_c.Prelude.{
  ℕ, ◌+◌, ◌*◌, ◌^◌, ◌≡◌, ◌≤◌, ◌<◌, refl, ap, ◌∙◌, true, false, List, [], ◌∷◌, ◌++◌, some, ◌==◌,
  arith, length, ltb, append-nil, if◌then◌else◌, Bool-cases, inl, inr,
}
use uvg_torrent_c.BufferedSocket.{
  NetResult, net_ok, net_closed, net_error, BufferedSocket, null, last_buffer, can_network_write,
  can_read, buffered_socket_new, buffered_socket_write, buffered_socket_network_write,
}
use uvg_torrent_c.BufferedSocket.Connecting.{Dial, buffered_socket_connect}
use uvg_torrent_c.BufferedSocket.Sending.{unsent, network_write-unsent}
use uvg_torrent_c.Prelude.Words.{sub64}
use uvg_torrent_c.Peer.{Peer, peer_unconnected, peer_connected, peer_handshake_sent}
use uvg_torrent_c.Peer.Messages.{Status, exit_success, send_from, sent_all, peer_should_timeout}
use uvg_torrent_c.Peer.Network.{
  Answers, is_failure, handle_read, peer_handle_network_buffers, peer_should_connect,
}
use uvg_torrent_c.Peer.Connect.{
  connected, peer_connect, handshake, peer_should_send_handshake, can_write, peer_send_handshake,
  after_sending, peer_should_handle_handshake,
}
use uvg_torrent_c.Peer.Connect.Handshake.{never_failed}
use uvg_torrent_c.Peer.Run.{
  RunEnv, RunState, then_do, with_peer, after_connect, connect_step, network_step, should_handle,
  peer_should_handle_network_buffers, serve, send_handshake_step, handle_handshake_step,
  timeout_step, opening, closing, stop_running, peer_run,
}
use uvg_torrent_c.Peer.Run.Quiet.{quiet_writing, no_message, no_keepalive}

-- A socket that has just been opened.
abbrev fresh : ℕ → BufferedSocket
fresh now = record {
  is_open = true;
  write_buffers = [];
  write_buffer_tail = null;
  read_buffer = [];
  last_download_rate_update = now;
  last_upload_rate_update = now;
}

-- The same, with bytes to write.
abbrev waiting : ℕ → List ℕ → BufferedSocket
waiting now bytes = record {
  is_open = true;
  write_buffers = record { bytes = bytes; data_sent = 0 } ∷ [];
  write_buffer_tail = last_buffer;
  read_buffer = [];
  last_download_rate_update = now;
  last_upload_rate_update = now;
}

dial_lem :
    (dial : Dial) (now : ℕ)
    → dial.socket_ok ≡ true
    → (buffered_socket_connect dial (buffered_socket_new now)).1 ≡ fresh now
unfolding buffered_socket_connect buffered_socket_new
dial_lem dial now e = ground arith

connects_lem :
    (env : RunEnv) (p : Peer)
    → env.dial.socket_ok ≡ true
    → peer_connect env.dial (env.clock 1) p
      ≡ connected (record p { status = peer_connected; socket = some (fresh (env.clock 1)) })
unfolding peer_connect
connects_lem env p e =
    rw
      (
        never_failed (buffered_socket_connect env.dial (buffered_socket_new (env.clock 1))).0,
        dial_lem env.dial (env.clock 1) e,
      )
      refl

passing_lem : (result : NetResult) → is_failure result true ≡ false
passing_lem net_error = refl
passing_lem net_closed = refl
passing_lem net_ok = refl

handled_lem :
    (answers : Answers) (now : ℕ) (p : Peer) (s : BufferedSocket)
    → can_network_write s ≡ true
    → answers.has_hungup ≡ false
    → answers.can_network_read ≡ false
    → answers.write_errno_passes ≡ true
    → peer_handle_network_buffers answers now p s ≡ (
        let (result, s', wire) = buffered_socket_network_write answers.writes now s in
        (exit_success, record p { socket = some s' }, wire))
unfolding peer_handle_network_buffers handle_read
handled_lem answers now p s waits h r passes =
    rw (h, waits, passes, passing_lem (buffered_socket_network_write answers.writes now s).0, r)
      refl

-- A run in which the connection is made, the handshake is written, and nothing comes from the other.
module _ (env : RunEnv) (st : RunState) where
  -- The peer after the connection, and with the handshake to write.
  abbrev dialed : RunState
  dialed =
      with_peer st (record st.peer { status = peer_connected; socket = some (fresh (env.clock 1)) })

  abbrev greeting : RunState
  greeting = with_peer st (record st.peer {
    status = peer_handshake_sent;
    socket = some (waiting (env.clock 1) (handshake env.info_hash));
  })

  connect_step_lem :
      st.peer.status ≡ peer_unconnected
      → st.peer.reconnect_deadline < env.clock 0
      → env.dial.socket_ok ≡ true
      → connect_step env st ≡ some (exit_success, dialed)
  unfolding connect_step peer_should_connect after_connect peer_connect
  connect_step_lem u due ok =
      let t : ltb st.peer.reconnect_deadline (env.clock 0) ≡ true = ground arith in
      rw (u, t) (ap (after_connect st) (connects_lem env st.peer ok))

  -- Nothing to write, and nothing to read.
  idle_network :
      env.polled_before.can_network_read ≡ false
      → env.polled_before.has_hungup ≡ false
      → network_step env.polled_before env.answers_before (env.clock 2) dialed
        ≡ some (exit_success, dialed)
  unfolding network_step peer_should_handle_network_buffers should_handle can_network_write
  idle_network r h = rw (r, h) refl

  greet_lem : env.writable ≡ true → send_handshake_step env dialed ≡ some (exit_success, greeting)
  unfolding send_handshake_step peer_should_send_handshake can_write peer_send_handshake
      after_sending send_from buffered_socket_write sent_all
  greet_lem w =
      let n : (length (handshake env.info_hash) == length (handshake env.info_hash)) ≡ true =
        ground arith in
      rw (w, n) refl

  no_answer : handle_handshake_step env greeting ≡ some (exit_success, greeting)
  unfolding handle_handshake_step peer_should_handle_handshake can_read
  no_answer = refl

  no_timeout :
      10 * 1000 ≤ env.clock 8
      → env.clock 8 < 2 ^ 64
      → env.clock 8 ≤ env.clock 1 + 10 * 1000
      → timeout_step env greeting ≡ some (exit_success, greeting)
  unfolding timeout_step peer_should_timeout
  no_timeout lo hi soon =
      let f : ltb (env.clock 1) (sub64 (env.clock 8) (10 * 1000)) ≡ false = ground arith in
      rw f refl

  -- What the network takes of the handshake.
  abbrev sending : NetResult × BufferedSocket × List ℕ
  sending =
      buffered_socket_network_write env.answers_after.writes (env.clock 10)
        (waiting (env.clock 1) (handshake env.info_hash))

  abbrev sent : RunState
  sent =
      let (result, s', wire) = sending in
      record st {
        peer = record st.peer { status = peer_handshake_sent; socket = some s' };
        wire = st.wire ++ wire;
      }

  sends :
      env.answers_after.has_hungup ≡ false
      → env.answers_after.can_network_read ≡ false
      → env.answers_after.write_errno_passes ≡ true
      → network_step env.polled_after env.answers_after (env.clock 10) greeting
        ≡ some (exit_success, sent)
  unfolding network_step peer_should_handle_network_buffers should_handle can_network_write serve
  sends h r passes =
      ap
        (λ (r : Status × Peer × List ℕ).
          let (status, p', wire) = r in
          some (status, record st { peer = p'; wire = st.wire ++ wire }))
        (handled_lem env.answers_after (env.clock 10) greeting.peer
          (waiting (env.clock 1) (handshake env.info_hash)) refl h r passes)

  -- The run if the socket can take the handshake.
  greeting_run :
      st.peer.status ≡ peer_unconnected
      → st.peer.reconnect_deadline < env.clock 0
      → env.dial.socket_ok ≡ true
      → env.polled_before.can_network_read ≡ false
      → env.polled_before.has_hungup ≡ false
      → env.writable ≡ true
      → 10 * 1000 ≤ env.clock 8
      → env.clock 8 < 2 ^ 64
      → env.clock 8 ≤ env.clock 1 + 10 * 1000
      → env.answers_after.has_hungup ≡ false
      → env.answers_after.can_network_read ≡ false
      → env.answers_after.write_errno_passes ≡ true
      → peer_run env st ≡ some (exit_success, with_peer sent (record sent.peer { running = 0 }))
  unfolding peer_run opening closing then_do stop_running
  greeting_run u due ok r₀ h₀ w lo hi soon h r passes =
      rw
        (
          connect_step_lem u due ok,
          idle_network r₀ h₀,
          greet_lem w,
          no_answer,
          quiet_writing env greeting refl,
          no_message env greeting refl,
          no_keepalive env greeting refl,
          no_timeout lo hi soon,
          sends h r passes,
        )
        refl

  silent : env.writable ≡ false → send_handshake_step env dialed ≡ some (exit_success, dialed)
  unfolding send_handshake_step peer_should_send_handshake can_write
  silent w = rw w refl

  no_greeting_yet : handle_handshake_step env dialed ≡ some (exit_success, dialed)
  unfolding handle_handshake_step peer_should_handle_handshake can_read
  no_greeting_yet = refl

  no_timeout_yet :
      10 * 1000 ≤ env.clock 8
      → env.clock 8 < 2 ^ 64
      → env.clock 8 ≤ env.clock 1 + 10 * 1000
      → timeout_step env dialed ≡ some (exit_success, dialed)
  unfolding timeout_step peer_should_timeout
  no_timeout_yet lo hi soon =
      let f : ltb (env.clock 1) (sub64 (env.clock 8) (10 * 1000)) ≡ false = ground arith in
      rw f refl

  idle_again :
      env.polled_after.can_network_read ≡ false
      → env.polled_after.has_hungup ≡ false
      → network_step env.polled_after env.answers_after (env.clock 10) dialed
        ≡ some (exit_success, dialed)
  unfolding network_step peer_should_handle_network_buffers should_handle can_network_write
  idle_again r h = rw (r, h) refl

  -- The run if it cannot yet.
  silent_run :
      st.peer.status ≡ peer_unconnected
      → st.peer.reconnect_deadline < env.clock 0
      → env.dial.socket_ok ≡ true
      → env.polled_before.can_network_read ≡ false
      → env.polled_before.has_hungup ≡ false
      → env.writable ≡ false
      → 10 * 1000 ≤ env.clock 8
      → env.clock 8 < 2 ^ 64
      → env.clock 8 ≤ env.clock 1 + 10 * 1000
      → env.polled_after.can_network_read ≡ false
      → env.polled_after.has_hungup ≡ false
      → peer_run env st ≡ some (exit_success, with_peer dialed (record dialed.peer { running = 0 }))
  unfolding peer_run opening closing then_do stop_running
  silent_run u due ok r₀ h₀ w lo hi soon r h =
      rw
        (
          connect_step_lem u due ok,
          idle_network r₀ h₀,
          silent w,
          no_greeting_yet,
          quiet_writing env dialed refl,
          no_message env dialed refl,
          no_keepalive env dialed refl,
          no_timeout_yet lo hi soon,
          idle_again r h,
        )
        refl

  -- The first run of a peer that is due, if a socket can be made, nothing comes from the other side and
  -- nothing fails or is late: the run returns successfully, with the peer free to run again. If the
  -- socket takes bytes right after it was told to connect, the peer waits for the answer to its
  -- handshake, and what the network has taken and what still waits are together the handshake. If it
  -- does not yet, the peer is connected and nothing has been written. All else is as it was.
  pub first_run :
      st.peer.status ≡ peer_unconnected
      → st.peer.reconnect_deadline < env.clock 0
      → env.dial.socket_ok ≡ true
      → env.polled_before.can_network_read ≡ false
      → env.polled_before.has_hungup ≡ false
      → 10 * 1000 ≤ env.clock 8
      → env.clock 8 < 2 ^ 64
      → env.clock 8 ≤ env.clock 1 + 10 * 1000
      → env.polled_after.can_network_read ≡ false
      → env.polled_after.has_hungup ≡ false
      → env.answers_after.has_hungup ≡ false
      → env.answers_after.can_network_read ≡ false
      → env.answers_after.write_errno_passes ≡ true
      → (s : BufferedSocket) × (wire : List ℕ) × (peer_run env st
          ≡ some (
            exit_success,
            record st {
              peer = record st.peer {
                status = if env.writable then peer_handshake_sent else peer_connected;
                socket = some s;
                running = 0;
              };
              wire = st.wire ++ wire;
            },
          ))
        × (wire ++ unsent s.write_buffers ≡ (if env.writable then handshake env.info_hash else []))
  unfolding unsent
  first_run u due ok r₀ h₀ lo hi soon pr ph h r passes = elim (Bool-cases env.writable) [
    | inl w ↦
        let all =
          network_write-unsent env.answers_after.writes (env.clock 10)
            (waiting (env.clock 1) (handshake env.info_hash)) in
        (
          sending.1,
          sending.2,
          rw (greeting_run u due ok r₀ h₀ w lo hi soon h r passes, w) refl,
          rw w (all ∙ append-nil (handshake env.info_hash)),
        )
    | inr f ↦ (
      fresh (env.clock 1),
      [],
      rw (silent_run u due ok r₀ h₀ f lo hi soon pr ph, f, append-nil st.wire) refl,
      rw f refl,
    )
  ]
