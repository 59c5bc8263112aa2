-- ===== src/Peer/Run/Extensions.antt =====
-- What the messages that a peer takes in a run leave as it is: `peer_run` of src/peer/peer.c.

use uvg_torrent_c.Prelude.{
  ℕ, ◌+◌, refl, List, Option, none, some, ◌==◌, Bool-cases, inl, inr, length, ltb, get_or, get_or,
}
use uvg_torrent_c.Queue.Heap.{Nodes}
use uvg_torrent_c.Queue
use uvg_torrent_c.Queue.{Queue, queue_push, queue_get_count}
use uvg_torrent_c.TorrentData.{
  TorrentData, torrent_data_is_complete, Info, info, failed, fault, ChunkInfo,
}
use uvg_torrent_c.TorrentData.Disk.{Disk, FileSystem}
use uvg_torrent_c.Peer.{Peer, peer_disconnect}
use uvg_torrent_c.Peer.Messages.{Status, exit_success, exit_failure}
use uvg_torrent_c.Peer.Metadata.{
  peer_handle_ut_metadata_request, metadata_of_info, send_metadata, extension_body, Handled,
  take_extensions, after_decode, peer_handle_ut_metadata_handshake, peer_handle_ut_metadata_reject,
  peer_handle_msg_extension, handle_ut_metadata, after_extended_handshake,
}
use uvg_torrent_c.Peer.Bencode.{BeNode, Bencode, ut_metadata_id, msg_type_key, piece_key}
use uvg_torrent_c.Peer.Run.{RunEnv, RunState, after_extension}
use uvg_torrent_c.Peer.Run.Sending.{IsSame, IsSameOrDown, OnSome, disconnect-IsDown, send-IsSame}
use uvg_torrent_c.Peer.Run.Linked.{IsLinked, same_or_down-IsLinked, Keeps}

-- The extension messages. An extended handshake that is not decoded disconnects the peer.
pub extension-Keeps :
    (st : RunState) (r : Handled)
    → IsLinked st.peer
    → OnSome (λ r. IsSameOrDown st.peer r.1) r
    → Keeps (after_extension st r)
extension-Keeps st none h same = tt
extension-Keeps st (some (status, q, queue, nodes)) h kept = same_or_down-IsLinked st.peer q kept h

sent_metadata-IsSame :
    (p : Peer) (header : List ℕ) (block : Option (List ℕ))
    → OnSome (λ r. IsSame p r.1) (send_metadata p header block)
unfolding send_metadata
sent_metadata-IsSame p header none = tt
sent_metadata-IsSame p header (some block) = send-IsSame p _

metadata_of-IsSame :
    (fuel : ℕ) (fs : FileSystem) (disk : Disk) (p : Peer) (header : List ℕ) (td : TorrentData)
    (i : Info ChunkInfo)
    → OnSome (λ r. IsSame p r.1) (metadata_of_info fuel fs disk p header td i)
unfolding metadata_of_info
metadata_of-IsSame fuel fs disk p header td failed = tt
metadata_of-IsSame fuel fs disk p header td fault = tt
metadata_of-IsSame fuel fs disk p header td (info ci) =
    elim (Bool-cases (ltb 65535 (length header + ci.chunk_size))) [
      | inl t ↦ rw t tt
      | inr f ↦ rw f (sent_metadata-IsSame p header _)
    ]

metadata_request-IsSame :
    (be : Bencode) (fuel : ℕ) (fs : FileSystem) (disk : Disk) (p : Peer) (chunk_id : ℕ)
    (td : TorrentData)
    → OnSome (λ r. IsSame p r.1) (peer_handle_ut_metadata_request be fuel fs disk p chunk_id td)
unfolding peer_handle_ut_metadata_request
metadata_request-IsSame be fuel fs disk p chunk_id td =
    elim (Bool-cases (torrent_data_is_complete td)) [
      | inl t ↦ rw t (metadata_of-IsSame fuel fs disk p _ td _)
      | inr f ↦ rw f (refl, refl)
    ]

abbrev requested_metadata : Queue → Nodes (List ℕ) → Option (Status × Peer) → Handled
requested_metadata q h r = elim r [
  | none ↦ none
  | some (status, p') ↦ some (exit_success, p', q, h)
]

requested_metadata-IsSame :
    (p : Peer) (q : Queue) (h : Nodes (List ℕ)) (r : Option (Status × Peer))
    → OnSome (λ r. IsSame p r.1) r
    → OnSome (λ r. IsSame p r.1) (requested_metadata q h r)
requested_metadata-IsSame p q h none same = tt
requested_metadata-IsSame p q h (some (status, p')) same = same

pushed_metadata-IsSame :
    (p : Peer) (r : Option (Queue.Status × Queue × Nodes (List ℕ)))
    → OnSome
        (λ r. IsSame p r.1)
        (elim r as (λ _. Handled) [
          | none ↦ none
          | some (status, q', h') ↦ some (exit_success, p, q', h')
        ])
pushed_metadata-IsSame p none = tt
pushed_metadata-IsSame p (some (status, q', h')) = (refl, refl)

module _ (env : RunEnv) (p : Peer) (td : TorrentData) (q : Queue) (h : Nodes (List ℕ))
    (msg : List ℕ) where
  ut_metadata-IsSame :
      (msg_type chunk_id : ℕ)
      → OnSome
          (λ r. IsSame p r.1)
          (handle_ut_metadata env.bencode env.fuel env.fs env.disk env.node_ msg_type chunk_id p msg
            td q h)
  unfolding handle_ut_metadata peer_handle_ut_metadata_reject
  ut_metadata-IsSame msg_type chunk_id = elim (Bool-cases (msg_type == 0)) [
    | inl t ↦ rw t (
        requested_metadata-IsSame p q h _
          (metadata_request-IsSame env.bencode env.fuel env.fs env.disk p chunk_id td))
    | inr f ↦ elim (Bool-cases (msg_type == 1)) [
      | inl t ↦ rw (f, t) (pushed_metadata-IsSame p (queue_push env.node_ msg q h))
      | inr g ↦ elim (Bool-cases (msg_type == 2)) [
        | inl t ↦ rw (f, g, t) (refl, refl)
        | inr k ↦ rw (f, g, k) (refl, refl)
      ]
    ]
  ]

  kept_same : (r : Handled) → OnSome (λ r. IsSame p r.1) r → OnSome (λ r. IsSameOrDown p r.1) r
  kept_same none same = tt
  kept_same (some (status, q', queue, nodes)) same = inl same

  extensions-IsSame :
      (d : BeNode) (o : Option BeNode) → IsSame p (take_extensions env.bencode p d o).1
  unfolding take_extensions
  extensions-IsSame d none = (refl, refl)
  extensions-IsSame d (some m) = (refl, refl)

  decoded-IsSame : (o : Option BeNode) → IsSame p (after_decode env.bencode p o).1
  unfolding after_decode
  decoded-IsSame none = (refl, refl)
  decoded-IsSame (some d) = extensions-IsSame d _

  extended-kept :
      (r : Status × Peer)
      → IsSame p r.1
      → OnSome (λ r. IsSameOrDown p r.1) (after_extended_handshake (env.clock 6) r q h)
  unfolding after_extended_handshake
  extended-kept (exit_success, q') same = inl same
  extended-kept (exit_failure, q') same = inr (disconnect-IsDown (env.clock 6) q')

  pub extension-kept :
      OnSome
        (λ r. IsSameOrDown p r.1)
        (peer_handle_msg_extension env.bencode
          (env.clock 6)
          env.fuel
          env.fs
          env.disk
          env.node_
          p
          msg
          td
          q
          h)
  unfolding peer_handle_msg_extension peer_handle_ut_metadata_handshake
  extension-kept = elim (Bool-cases (get_or msg 5 0 == 0)) [
    | inl t ↦ rw t (
        extended-kept (after_decode env.bencode p _)
          (decoded-IsSame (env.bencode.be_decode (extension_body msg))))
    | inr f ↦ elim (Bool-cases (get_or msg 5 0 == ut_metadata_id)) [
      | inr g ↦ rw (f, g) (inl (refl, refl))
      | inl t ↦ rw (f, t) (taken (env.bencode.be_decode (extension_body msg)))
    ]
  ]
    where
      taken :
          (o : Option BeNode)
          → OnSome
              (λ r. IsSameOrDown p r.1)
              (elim o as (λ _. Handled) [
                | none ↦ some (exit_failure, peer_disconnect (env.clock 6) p, q, h)
                | some d ↦
                    handle_ut_metadata env.bencode env.fuel env.fs env.disk env.node_
                      (env.bencode.be_dict_lookup_num d msg_type_key)
                      (env.bencode.be_dict_lookup_num d piece_key)
                      p
                      msg
                      td
                      q
                      h
              ])
      taken none = inr (disconnect-IsDown (env.clock 6) p)
      taken (some d) = kept_same _ (ut_metadata-IsSame _ _)
