-- ===== src/Peer/Run/Returns.antt =====
-- Which runs of a peer can fault: `peer_run` of src/peer/peer.c.
use uvg_torrent_c.Prelude.{
  ℕ, ◌≡◌, refl, ap, Bool, true, false, Option, none, some, Bool-cases, inl, inr, ◌⊎◌, arith,
}
use uvg_torrent_c.BufferedSocket.{BufferedSocket}
use uvg_torrent_c.Peer.{Peer, peer_disconnect}
use uvg_torrent_c.Peer.Messages.{
  Status, exit_success, exit_failure, is_handshake_complete, peer_should_send_keepalive,
  peer_send_keepalive, peer_should_timeout,
}
use uvg_torrent_c.Peer.Connect.{
  peer_connect, peer_send_handshake, peer_handle_handshake, peer_should_send_handshake,
  peer_should_handle_handshake,
}
use uvg_torrent_c.Peer.Connect.Handshake.{connect_never_fails}
use uvg_torrent_c.Peer.Network.{Answers, peer_should_connect}
use uvg_torrent_c.Peer.Run.{
  Polled, RunEnv, RunState, Step, then_do, or_disconnect, optional, after_connect, connect_step,
  should_handle, peer_should_handle_network_buffers, serve, network_step, send_handshake_step,
  handle_handshake_step, keepalive_step, timeout_step, unread, opening, writing, closing,
  stop_running, peer_run, with_peer,
}
use uvg_torrent_c.Peer.Run.Quiet.{quiet_writing, no_message}

abbrev pub Returns : Step → Type 0
Returns step = (status : Status) × (st : RunState) × (step ≡ some (status, st))

then_do-after :
    (step : Step) (next : RunState → Step) (st : RunState)
    → step ≡ some (exit_success, st)
    → Returns (next st)
    → Returns (then_do step next)
unfolding then_do
then_do-after step next st e (status, st', e') = (status, st', rw e e')

then_do-failed :
    (step : Step) (next : RunState → Step) (st : RunState)
    → step ≡ some (exit_failure, st)
    → Returns (then_do step next)
unfolding then_do
then_do-failed step next st e = (exit_failure, st, rw e refl)

then_do-Returns :
    (step : Step) (next : RunState → Step)
    → Returns step
    → ((st : RunState) → Returns (next st))
    → Returns (then_do step next)
then_do-Returns step next (exit_failure, st, e) rest = then_do-failed step next st e
then_do-Returns step next (exit_success, st, e) rest = then_do-after step next st e (rest st)

optional-Returns :
    (should : Bool) (st : RunState) (step : Step)
    → (should ≡ true → Returns step)
    → Returns (optional should st step)
optional-Returns true st step taken = taken refl
optional-Returns false st step taken = (exit_success, st, refl)

or_disconnect-Returns :
    (now : ℕ) (st : RunState) (r : Status × Peer) → Returns (or_disconnect now st r)
or_disconnect-Returns now st (exit_success, p) = (exit_success, with_peer st p, refl)
or_disconnect-Returns now st (exit_failure, p) =
    (exit_failure, with_peer st (peer_disconnect now p), refl)

serve-Returns :
    (polled : Polled) (answers : Answers) (now : ℕ) (st : RunState) (o : Option BufferedSocket)
    → should_handle polled st.peer.status o ≡ true
    → Returns (serve answers now st o)
unfolding serve should_handle
serve-Returns polled answers now st none e = absurd (ground arith)
serve-Returns polled answers now st (some s) e = (_, _, refl)

module _ (env : RunEnv) where
  network-Returns :
      (polled : Polled) (answers : Answers) (now : ℕ) (st : RunState)
      → Returns (network_step polled answers now st)
  unfolding network_step peer_should_handle_network_buffers
  network-Returns polled answers now st =
      optional-Returns (should_handle polled st.peer.status st.peer.socket) st
        (serve answers now st st.peer.socket) (serve-Returns polled answers now st st.peer.socket)

  connect-Returns : (st : RunState) → Returns (connect_step env st)
  unfolding connect_step after_connect
  connect-Returns st =
      let (s, e, open_) = connect_never_fails env.dial (env.clock 1) st.peer in
      optional-Returns (peer_should_connect (env.clock 0) st.peer) st
        (after_connect st (peer_connect env.dial (env.clock 1) st.peer))
        (λ _. (exit_success, _, ap (after_connect st) e))

  opening-Returns : (st : RunState) → Returns (opening env st)
  unfolding opening send_handshake_step handle_handshake_step
  opening-Returns st = then_do-Returns _ _ (connect-Returns st) λ st₁.
      then_do-Returns _ _ (network-Returns env.polled_before env.answers_before (env.clock 2) st₁)
        λ st₂.
          then_do-Returns _ _
            (optional-Returns (peer_should_send_handshake env.writable st₂.peer) st₂
              (or_disconnect (env.clock 3) st₂ (peer_send_handshake env.info_hash st₂.peer))
              (λ _. or_disconnect-Returns (env.clock 3) st₂ _))
            λ st₃.
              optional-Returns (peer_should_handle_handshake st₃.peer) st₃
                (or_disconnect (env.clock 4) st₃
                  (peer_handle_handshake env.bencode.be_encode env.info_hash st₃.metadata st₃.peer))
                (λ _. or_disconnect-Returns (env.clock 4) st₃ _)

  quiet_closing-Returns :
      (st : RunState) → is_handshake_complete st.peer.status ≡ false → Returns (closing env st)
  unfolding closing keepalive_step timeout_step
  quiet_closing-Returns st early =
      then_do-Returns _ _ (exit_success, st, no_message env st early)
        λ st₁.
          then_do-Returns _ _
            (optional-Returns (peer_should_send_keepalive (env.clock 7) st₁.peer) st₁
              (unread st₁ (peer_send_keepalive st₁.peer)) (λ _. (exit_success, _, refl)))
            λ st₂.
              then_do-Returns _ _
                (optional-Returns (peer_should_timeout (env.clock 8) st₂.peer) st₂
                  (some (exit_success, with_peer st₂ (peer_disconnect (env.clock 9) st₂.peer)))
                  (λ _. (exit_success, _, refl)))
                λ st₃. network-Returns env.polled_after env.answers_after (env.clock 10) st₃

  stop_running-Returns : (step : Step) → Returns step → Returns (stop_running step)
  unfolding stop_running
  stop_running-Returns step (status, st, e) =
      (status, with_peer st (record st.peer { running = 0 }), rw e refl)

  -- Every run of a peer returns, unless its handshake is complete after the first four steps: up to
  -- there nothing that the other side sends, and no answer of the system, makes a run fault.
  pub peer_run-Returns :
      (st : RunState)
      → Returns (peer_run env st)
        ⊎ ((st₁ : RunState) × (opening env st ≡ some (exit_success, st₁))
            × (is_handshake_complete st₁.peer.status ≡ true))
  unfolding peer_run
  peer_run-Returns st = by_opening (opening-Returns st)
    where
      later : RunState → Step
      later st₁ = then_do (writing env st₁) λ st₂. closing env st₂

      by_opening :
          Returns (opening env st)
          → Returns (stop_running (then_do (opening env st) later))
            ⊎ ((st₁ : RunState) × (opening env st ≡ some (exit_success, st₁))
                × (is_handshake_complete st₁.peer.status ≡ true))
      by_opening (exit_failure, st₁, e) =
          inl (stop_running-Returns _ (then_do-failed (opening env st) later st₁ e))
      by_opening (exit_success, st₁, e) =
          elim (Bool-cases (is_handshake_complete st₁.peer.status)) [
            | inl t ↦ inr (st₁, e, t)
            | inr f ↦
                let rest : Returns (later st₁) =
                  then_do-after (writing env st₁) (λ st₂. closing env st₂) st₁
                    (quiet_writing env st₁ f) (quiet_closing-Returns st₁ f) in
                inl (stop_running-Returns _ (then_do-after (opening env st) later st₁ e rest))
          ]
