-- ===== src/Peer/Run/Writing.antt =====
-- The steps of a run that write messages: `peer_run` of src/peer/peer.c.
use uvg_torrent_c.Bitfield.{Bitfield}
use uvg_torrent_c.Prelude.{ℕ, refl, ◌&&◌, Option, none, some, ◌==◌, Bool-cases, inl, inr}
use uvg_torrent_c.Queue.Heap.{Nodes}
use uvg_torrent_c.Queue.{queue_get_count}
use uvg_torrent_c.TorrentData.{TorrentData}
use uvg_torrent_c.Peer.{Peer}
use uvg_torrent_c.Peer.Messages.{
  Status, exit_success, exit_failure, send_bytes, basic_msg, peer_send_msg_choke,
  peer_send_msg_unchoke, is_handshake_complete,
}
use uvg_torrent_c.Peer.Pieces.{
  after_haves, send_haves, peer_send_msg_have, peer_send_msg_bitfield, resize_field, bitfield_msg,
  own_pieces, update_with, peer_should_send_msg_have, peer_should_send_msg_bitfield,
  peer_update_interested,
}
use uvg_torrent_c.Peer.Run.{
  RunEnv, RunState, after_haves_sent, have_step, after_peer, bitfield_step, choke_step, writing,
}
use uvg_torrent_c.Peer.Run.Sending.{
  IsSame, OnSome, IsSame-trans, send-IsSame, update_with-IsSame, send_haves-IsSame,
}
use uvg_torrent_c.Peer.Run.Linked.{
  IsLinked, same-IsLinked, Keeps, then_do-Keeps, optional-Keeps, unread-Keeps,
}
use uvg_torrent_c.Peer.Run.Asking.{metadata_request-Keeps, request-Keeps}

-- What is there is a peer with the same status and socket; that a result is not read changes nothing.
pub IsSame-somes :
    (p q : Peer) (r : Option Peer) → IsSame p q → OnSome (IsSame q) r → OnSome (IsSame p) r
IsSame-somes p q none e f = tt
IsSame-somes p q (some q') e f = IsSame-trans p q q' e f

haves-IsSame :
    (p : Peer) (td : TorrentData) (r : Option (Status × Peer × Nodes ℕ))
    → OnSome (λ r. IsSame p r.1) r
    → OnSome (λ r. IsSame p r.1) (after_haves td r)
unfolding after_haves peer_update_interested
haves-IsSame p td none same = tt
haves-IsSame p td (some (exit_failure, q, h)) same = same
haves-IsSame p td (some (exit_success, q, h)) same =
    updated (update_with q.peer_bitfield q td)
      (IsSame-somes p q _ same (update_with-IsSame q.peer_bitfield q td))
  where
    updated :
        (r : Option Peer)
        → OnSome (IsSame p) r
        → OnSome
            (λ r. IsSame p r.1)
            (elim r as (λ _. Option (Status × Peer × Nodes ℕ)) [
              | none ↦ none
              | some p' ↦ some (exit_success, p', h)
            ])
    updated none e = tt
    updated (some p') e = e

sent-Keeps :
    (st : RunState) (r : Option (Status × Peer × Nodes ℕ))
    → IsLinked st.peer
    → OnSome (λ r. IsSame st.peer r.1) r
    → Keeps (after_haves_sent st r)
sent-Keeps st none h same = tt
sent-Keeps st (some (status, q, nodes)) h same = same-IsLinked st.peer q same h

have-Keeps : (st : RunState) → IsLinked st.peer → Keeps (have_step st)
unfolding have_step peer_send_msg_have
have-Keeps st h =
    let sent = send_haves (queue_get_count st.peer.progress_queue) st.peer st.progress in
    optional-Keeps (peer_should_send_msg_have st.peer) st
      (after_haves_sent st (after_haves st.data_ sent)) h
      (λ _. sent-Keeps st _ h (
        haves-IsSame st.peer st.data_ sent (
          send_haves-IsSame (queue_get_count st.peer.progress_queue) st.peer st.peer st.progress
            (refl, refl))))

pub after_peer-Keeps :
    (st : RunState) (r : Option (Status × Peer))
    → IsLinked st.peer
    → OnSome (λ r. IsSame st.peer r.1) r
    → Keeps (after_peer st r)
after_peer-Keeps st none h same = tt
after_peer-Keeps st (some (status, q)) h same = same-IsLinked st.peer q same h

bitfield-IsSame :
    (p : Peer) (td : TorrentData) → OnSome (λ r. IsSame p r.1) (peer_send_msg_bitfield p td)
unfolding peer_send_msg_bitfield
bitfield-IsSame p td = resized (resize_field td p.peer_bitfield)
  where
    resized :
        (r : Option (Option Bitfield))
        → OnSome
            (λ r. IsSame p r.1)
            (elim r [
              | none ↦ none
              | some resized ↦ some (
                  send_bytes
                    (record p { msg_bitfield_sent = 1; peer_bitfield = resized })
                    (bitfield_msg (own_pieces td).bytes))
            ])
    resized none = tt
    resized (some o) = send-IsSame (record p { msg_bitfield_sent = 1; peer_bitfield = o }) _

bitfield-Keeps : (st : RunState) → IsLinked st.peer → Keeps (bitfield_step st)
unfolding bitfield_step
bitfield-Keeps st h =
    optional-Keeps (peer_should_send_msg_bitfield st.peer st.data_) st
      (after_peer st (peer_send_msg_bitfield st.peer st.data_)) h
      (λ _. after_peer-Keeps st _ h (bitfield-IsSame st.peer st.data_))

choke-Keeps : (st : RunState) → IsLinked st.peer → Keeps (choke_step st)
unfolding choke_step peer_send_msg_unchoke peer_send_msg_choke
choke-Keeps st h = elim (Bool-cases (is_handshake_complete st.peer.status)) [
  | inr f ↦ rw f h
  | inl t ↦ elim (Bool-cases ((st.peer.uploader == 1) && (st.peer.am_choking == 1))) [
    | inl u ↦
        rw (t, u)
          (unread-Keeps st (send_bytes (record st.peer { am_choking = 0 }) (basic_msg 1)) h
            (send-IsSame (record st.peer { am_choking = 0 }) _))
    | inr v ↦ elim (Bool-cases ((st.peer.uploader == 0) && (st.peer.am_choking == 0))) [
      | inl u ↦
          rw (t, v, u)
            (unread-Keeps st (send_bytes (record st.peer { am_choking = 1 }) (basic_msg 0)) h
              (send-IsSame (record st.peer { am_choking = 1 }) _))
      | inr w ↦ rw (t, v, w) h
    ]
  ]
]

pub writing-Keeps : (env : RunEnv) (st : RunState) → IsLinked st.peer → Keeps (writing env st)
unfolding writing
writing-Keeps env st h = then_do-Keeps _ _ (have-Keeps st h) λ st₁ h₁.
    then_do-Keeps _ _ (bitfield-Keeps st₁ h₁) λ st₂ h₂.
      then_do-Keeps _ _ (metadata_request-Keeps env st₂ h₂)
        λ st₃ h₃. then_do-Keeps _ _ (request-Keeps env st₃ h₃) λ st₄ h₄. choke-Keeps st₄ h₄
