-- ===== src/Peer/Run/Opening.antt =====
-- The steps up to the handshake in a run of a peer, `peer_run` of src/peer/peer.c.

use uvg_torrent_c.Prelude.{
  ℕ, ◌≡◌, refl, ap, ◌∙◌, Bool, true, ◌&&◌, List, ◌++◌, Option, none, some, ◌==◌, Bool-cases, inl,
  inr, arith, get_or, drop,
}
use uvg_torrent_c.BufferedSocket.{BufferedSocket, ReadResult, disconnected, not_enough, bytes_read}
use uvg_torrent_c.TorrentData.{TorrentData}
use uvg_torrent_c.Peer.{Peer, PeerStatus, peer_handshake_sent, peer_handshake_complete}
use uvg_torrent_c.Peer.Bencode.{BeNode}
use uvg_torrent_c.Peer.Messages.{Status, exit_success, exit_failure, send_bytes}
use uvg_torrent_c.Peer.Connect.{
  handshake, peer_connect, after_sending, peer_send_handshake, same_hash, answer_handshake,
  after_receiving, handshake_from, peer_handle_handshake, peer_should_handle_handshake,
  peer_should_send_handshake, is_connected, can_write,
}
use uvg_torrent_c.Peer.Connect.Handshake.{connect_never_fails}
use uvg_torrent_c.Peer.Network.{Answers, peer_should_connect, peer_handle_network_buffers}
use uvg_torrent_c.Peer.Run.{
  Polled, RunEnv, RunState, or_disconnect, after_connect, connect_step, serve, network_step,
  send_handshake_step, handle_handshake_step, opening,
}
use uvg_torrent_c.Peer.Run.Sending.{has_socket, disconnect-IsDown, send-IsSame}
use uvg_torrent_c.Peer.Run.Linked.{
  is_linked, IsLinked, same-IsLinked, Keeps, then_do-Keeps, optional-Keeps, network-kept,
  IsServedOrDown,
}

-- A socket is there where a test for one has passed.
served-Keeps :
    (answers : Answers) (now : ℕ) (st : RunState) (o : Option BufferedSocket)
    → st.peer.socket ≡ o
    → IsLinked st.peer
    → Keeps (serve answers now st o)
unfolding serve
served-Keeps answers now st none e h = tt
served-Keeps answers now st (some s) e h =
    ends (peer_handle_network_buffers answers now st.peer s)
      (network-kept answers now st.peer (ap has_socket e) s)
  where
    ends :
        (r : Status × Peer × List ℕ)
        → (let (status, q, wire) = r in IsServedOrDown st.peer (status, q))
        → Keeps (
            let (status, p', wire) = r in
            some (status, record st { peer = p'; wire = st.wire ++ wire }))
    ends (exit_success, q, wire) same = same-IsLinked st.peer q same h
    ends (exit_failure, q, wire) down = down

pub network-Keeps :
    (polled : Polled) (answers : Answers) (now : ℕ) (st : RunState)
    → IsLinked st.peer
    → Keeps (network_step polled answers now st)
unfolding network_step
network-Keeps polled answers now st h =
    optional-Keeps _ st _ h (λ _. served-Keeps answers now st st.peer.socket refl h)

connect-Keeps : (env : RunEnv) (st : RunState) → IsLinked st.peer → Keeps (connect_step env st)
unfolding connect_step after_connect
connect-Keeps env st h =
    optional-Keeps (peer_should_connect (env.clock 0) st.peer) st
      (after_connect st (peer_connect env.dial (env.clock 1) st.peer)) h
      (λ _. rw (connect_never_fails env.dial (env.clock 1) st.peer).1 refl)

-- What is sent keeps the socket, and what a handshake makes of the status needs one.
or_disconnect-Keeps :
    (now : ℕ) (st : RunState) (r : Status × Peer)
    → (r.0 ≡ exit_success → IsLinked r.1)
    → Keeps (or_disconnect now st r)
or_disconnect-Keeps now st (exit_success, q) h = h refl
or_disconnect-Keeps now st (exit_failure, q) h = disconnect-IsDown now q

after_sending-IsLinked :
    (next : PeerStatus) (r : Status × Peer)
    → is_linked next true ≡ true
    → has_socket r.1.socket ≡ true
    → (after_sending next r).0 ≡ exit_success
    → IsLinked (after_sending next r).1
unfolding after_sending
after_sending-IsLinked next (exit_failure, q) n there e = absurd (grind arith)
after_sending-IsLinked next (exit_success, q) n there e = rw there n

has_socket-can_write :
    (writable : Bool) (o : Option BufferedSocket)
    → can_write writable o ≡ true
    → has_socket o ≡ true
unfolding can_write
has_socket-can_write writable none e = e
has_socket-can_write writable (some s) e = refl

pub both : (a b : Bool) → (a && b) ≡ true → b ≡ true
both a b e = ground arith

send_handshake-Keeps :
    (env : RunEnv) (st : RunState) → IsLinked st.peer → Keeps (send_handshake_step env st)
unfolding send_handshake_step peer_send_handshake peer_should_send_handshake
send_handshake-Keeps env st h =
    optional-Keeps (peer_should_send_handshake env.writable st.peer) st
      (or_disconnect (env.clock 3) st (peer_send_handshake env.info_hash st.peer)) h
      λ should.
        let there : has_socket st.peer.socket ≡ true =
          has_socket-can_write env.writable st.peer.socket
            (both (is_connected st.peer.status) (can_write env.writable st.peer.socket) should) in
        or_disconnect-Keeps (env.clock 3) st (peer_send_handshake env.info_hash st.peer) (
          after_sending-IsLinked peer_handshake_sent (send_bytes st.peer (handshake env.info_hash))
            refl ((send-IsSame st.peer _).1 ∙ there))

refused : {A : Type 0} → exit_failure ≡ exit_success → A
refused e = absurd (grind arith)

answer-IsLinked :
    (encode : BeNode → ℕ → List ℕ) (info_hash : List ℕ) (metadata : TorrentData) (received : List ℕ)
    (p : Peer)
    → has_socket p.socket ≡ true
    → (answer_handshake encode info_hash metadata received p).0 ≡ exit_success
    → IsLinked (answer_handshake encode info_hash metadata received p).1
unfolding answer_handshake
answer-IsLinked encode info_hash metadata received p there =
    elim (Bool-cases (same_hash (drop 28 received) info_hash 0 8)) [
      | inr f ↦ rw f refused
      | inl t ↦ elim (Bool-cases (get_or received 25 0 == 0x10)) [
        | inl u ↦
            rw (t, u)
              (after_sending-IsLinked peer_handshake_complete _ refl ((send-IsSame p _).1 ∙ there))
        | inr g ↦ rw (t, g) (λ e. there)
      ]
    ]

receiving-IsLinked :
    (encode : BeNode → ℕ → List ℕ) (info_hash : List ℕ) (metadata : TorrentData) (p : Peer)
    (r : ReadResult × BufferedSocket)
    → (after_receiving encode info_hash metadata p r).0 ≡ exit_success
    → IsLinked (after_receiving encode info_hash metadata p r).1
unfolding after_receiving
receiving-IsLinked encode info_hash metadata p (disconnected, s) e = absurd (grind arith)
receiving-IsLinked encode info_hash metadata p (not_enough, s) e = absurd (grind arith)
receiving-IsLinked encode info_hash metadata p (bytes_read bs, s) e =
    answer-IsLinked encode info_hash metadata bs (record p { socket = some s }) refl e

handshake-IsLinked :
    (encode : BeNode → ℕ → List ℕ) (info_hash : List ℕ) (metadata : TorrentData) (p : Peer)
    (o : Option BufferedSocket)
    → (handshake_from encode info_hash metadata p o).0 ≡ exit_success
    → IsLinked (handshake_from encode info_hash metadata p o).1
unfolding handshake_from
handshake-IsLinked encode info_hash metadata p none e = absurd (grind arith)
handshake-IsLinked encode info_hash metadata p (some s) e =
    receiving-IsLinked encode info_hash metadata p _ e

handle_handshake-Keeps :
    (env : RunEnv) (st : RunState) → IsLinked st.peer → Keeps (handle_handshake_step env st)
unfolding handle_handshake_step peer_handle_handshake
handle_handshake-Keeps env st h =
    let answer = peer_handle_handshake env.bencode.be_encode env.info_hash st.metadata st.peer in
    optional-Keeps (peer_should_handle_handshake st.peer) st (or_disconnect (env.clock 4) st answer)
      h
      λ should.
        or_disconnect-Keeps (env.clock 4) st answer (
          handshake-IsLinked env.bencode.be_encode env.info_hash st.metadata st.peer st.peer.socket)

pub opening-Keeps : (env : RunEnv) (st : RunState) → IsLinked st.peer → Keeps (opening env st)
unfolding opening
opening-Keeps env st h = then_do-Keeps _ _ (connect-Keeps env st h) λ st₁ h₁.
    then_do-Keeps _ _ (network-Keeps env.polled_before env.answers_before (env.clock 2) st₁ h₁)
      λ st₂ h₂.
        then_do-Keeps _ _ (send_handshake-Keeps env st₂ h₂)
          λ st₃ h₃. handle_handshake-Keeps env st₃ h₃
