-- ===== src/Peer/Run/Handled.antt =====
-- What the messages about pieces and chunks that a peer takes in a run leave as it is: `peer_run` of
-- src/peer/peer.c.
use uvg_torrent_c.Bitfield.{Bitfield}
use uvg_torrent_c.Prelude.Words.{extend64, to_int}
use uvg_torrent_c.NetUtils.{ntohl, u32_of_bytes}
use uvg_torrent_c.Prelude.{ℕ, ◌+◌, ◌-◌, ◌^◌, refl, List, Option, none, some, drop, drop}
use uvg_torrent_c.Queue.Heap.{Nodes}
use uvg_torrent_c.Queue
use uvg_torrent_c.Queue.{Queue, queue_push, queue_get_count}
use uvg_torrent_c.TorrentData.{TorrentData, torrent_data_get_piece_info}
use uvg_torrent_c.TorrentData.Disk.{Disk, FileSystem, torrent_data_read_data}
use uvg_torrent_c.Peer.{Peer}
use uvg_torrent_c.Peer.Messages.{Status, exit_success}
use uvg_torrent_c.Peer.Pieces.{peer_update_interested, after_field}
use uvg_torrent_c.Peer.Requests.{
  peer_handle_msg_request, answer_request, requested, peer_handle_msg_piece, block_of,
}
use uvg_torrent_c.Peer.Run.{RunState, after_have_handled, after_piece}
use uvg_torrent_c.Peer.Run.Sending.{IsSame, OnSome, send-IsSame, update_with-IsSame}
use uvg_torrent_c.Peer.Run.Writing.{IsSame-somes}
use uvg_torrent_c.Peer.Run.Linked.{IsLinked, same-IsLinked, Keeps}

-- The handlers that may fault.
pub updated-IsSame :
    (p q : Peer) (td : TorrentData) → IsSame p q → OnSome (IsSame p) (peer_update_interested q td)
unfolding peer_update_interested
updated-IsSame p q td same = IsSame-somes p q _ same (update_with-IsSame q.peer_bitfield q td)

pub have_handled-Keeps :
    (st : RunState) (r : Option Peer)
    → IsLinked st.peer
    → OnSome (IsSame st.peer) r
    → Keeps (after_have_handled st r)
have_handled-Keeps st none h same = tt
have_handled-Keeps st (some q) h same = same-IsLinked st.peer q same h

pub handle_bitfield-IsSame :
    (p : Peer) (td : TorrentData) (o : Option Bitfield)
    → OnSome (λ r. IsSame p r.1) (after_field p td o)
unfolding after_field
handle_bitfield-IsSame p td none = tt
handle_bitfield-IsSame p td (some has) =
    updated (peer_update_interested (record p { peer_bitfield = some has }) td)
      (updated-IsSame p (record p { peer_bitfield = some has }) td (refl, refl))
  where
    updated :
        (r : Option Peer)
        → OnSome (IsSame p) r
        → OnSome
            (λ r. IsSame p r.1)
            (elim r as (λ _. Option (Status × Peer)) [
              | none ↦ none
              | some p' ↦ some (exit_success, p')
            ])
    updated none same = tt
    updated (some q) same = same

pub answer-IsSame :
    (msg : List ℕ) (block : Option (List ℕ)) (p : Peer)
    → OnSome (λ r. IsSame p r.1) (answer_request msg block p)
unfolding answer_request
answer-IsSame msg none p = tt
answer-IsSame msg (some block) p = send-IsSame p _

pub handle_request-IsSame :
    (fuel : ℕ) (fs : FileSystem) (disk : Disk) (p : Peer) (msg : List ℕ) (td : TorrentData)
    → OnSome (λ r. IsSame p r.1) (peer_handle_msg_request fuel fs disk p msg td)
unfolding peer_handle_msg_request
handle_request-IsSame fuel fs disk p msg td =
    placed (
      requested (torrent_data_get_piece_info td (extend64 (ntohl (u32_of_bytes (drop 5 msg))))) msg)
  where
    placed :
        (o : Option (ℕ × ℕ))
        → OnSome
            (λ r. IsSame p r.1)
            (elim o as (λ _. Option (Status × Peer)) [
              | none ↦ none
              | some (chunk_offset, chunk_size) ↦
                  answer_request msg
                    (block_of
                      (torrent_data_read_data fuel fs disk td chunk_offset chunk_size)
                      chunk_size)
                    p
            ])
    placed none = tt
    placed (some (chunk_offset, chunk_size)) = answer-IsSame msg _ p

pub handle_piece-IsSame :
    (node_ : Option ℕ) (p : Peer) (msg : List ℕ) (q : Queue) (h : Nodes (List ℕ))
    → OnSome (λ r. IsSame p r.0) (peer_handle_msg_piece node_ p msg q h)
unfolding peer_handle_msg_piece
handle_piece-IsSame node_ p msg q h = pushed (queue_push node_ msg q h)
  where
    pushed :
        (r : Option (Queue.Status × Queue × Nodes (List ℕ)))
        → OnSome
            (λ r. IsSame p r.0)
            (elim r as (λ _. Option (Peer × Queue × Nodes (List ℕ))) [
              | none ↦ none
              | some (status, q', h') ↦ some (
                record p {
                  pending_request_count = to_int (p.pending_request_count + (2 ^ 32 - 1));
                },
                q',
                h',
              )
            ])
    pushed none = tt
    pushed (some (status, q', h')) = (refl, refl)

pub piece-Keeps :
    (st : RunState) (r : Option (Peer × Queue × Nodes (List ℕ)))
    → IsLinked st.peer
    → OnSome (λ r. IsSame st.peer r.0) r
    → Keeps (after_piece st r)
piece-Keeps st none h same = tt
piece-Keeps st (some (q, queue, nodes)) h same = same-IsLinked st.peer q same h
