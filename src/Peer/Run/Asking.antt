-- ===== src/Peer/Run/Asking.antt =====
-- What the requests of a run leave as it is, those for metadata and those for chunks: `peer_run` of
-- src/peer/peer.c.
use uvg_torrent_c.Bitfield
use uvg_torrent_c.Bitfield.{Bitfield}
use uvg_torrent_c.Prelude.Words.{slt32}
use uvg_torrent_c.Prelude.{ℕ, refl, List, Option, none, some, Bool-cases, inl, inr}
use uvg_torrent_c.TorrentData
use uvg_torrent_c.TorrentData.{TorrentData}
use uvg_torrent_c.Peer.{Peer}
use uvg_torrent_c.Peer.Bencode.{BeNode}
use uvg_torrent_c.Peer.Messages.{Status}
use uvg_torrent_c.Peer.Requests.{
  request_queue_length, interested_chunks, peer_should_send_msg_request, send_requests, after_claim,
  request_chunks, peer_send_msg_request,
}
use uvg_torrent_c.Peer.Metadata.{peer_should_send_ut_metadata_request}
use uvg_torrent_c.Peer.Metadata.Request.{
  claimed_piece, request_from, request_piece, after_metadata_claim, peer_send_ut_metadata_request,
}
use uvg_torrent_c.Peer.Run.{
  RunEnv, RunState, after_metadata, metadata_request_step, after_data, request_step,
}
use uvg_torrent_c.Peer.Run.Sending.{IsSame, OnSome, send-IsSame, send_requests-IsSame}
use uvg_torrent_c.Peer.Run.Linked.{IsLinked, same-IsLinked, Keeps, optional-Keeps}

-- The requests, for metadata and for chunks.
abbrev Requested : Type 0
Requested = Option (Status × Peer × TorrentData)

asked-IsSame :
    (encode : BeNode → ℕ → List ℕ) (p : Peer) (b : Bitfield)
    (r : Option (TorrentData.Status × List (Option ℕ) × TorrentData))
    → OnSome (λ r. IsSame p r.1) (after_metadata_claim encode p b r)
unfolding after_metadata_claim request_piece
asked-IsSame encode p b none = tt
asked-IsSame encode p b (some (TorrentData.exit_failure, out, td)) = (refl, refl)
asked-IsSame encode p b (some (TorrentData.exit_success, out, td)) =
    send-IsSame
      (record p { ut_metadata_requested = some (Bitfield.set_bit b (claimed_piece out) 0) }) _

request_from-IsSame :
    (clock : ℕ → ℕ) (encode : BeNode → ℕ → List ℕ) (p : Peer) (b : Option Bitfield)
    (td : Option TorrentData)
    → OnSome (λ r. IsSame p r.1) (request_from clock encode p b td)
unfolding request_from
request_from-IsSame clock encode p none td = tt
request_from-IsSame clock encode p (some b) none = tt
request_from-IsSame clock encode p (some b) (some td) =
    asked-IsSame encode (record p { ut_metadata_requested = some b }) b _

pub metadata_request-Keeps :
    (env : RunEnv) (st : RunState) → IsLinked st.peer → Keeps (metadata_request_step env st)
unfolding metadata_request_step peer_send_ut_metadata_request
metadata_request-Keeps env st h =
    optional-Keeps (peer_should_send_ut_metadata_request st.peer st.metadata) st
      (after_metadata st
        (peer_send_ut_metadata_request env.claim_clock env.bencode.be_encode st.peer st.metadata))
      h (λ _. asked _ (request_from-IsSame env.claim_clock env.bencode.be_encode st.peer _ _))
  where
    asked : (r : Requested) → OnSome (λ r. IsSame st.peer r.1) r → Keeps (after_metadata st r)
    asked none same = tt
    asked (some (status, q, td)) same = same-IsLinked st.peer q same h

claim-IsSame :
    (r : Option (TorrentData.Status × List (Option ℕ) × TorrentData)) (p : Peer)
    → OnSome (λ r. IsSame p r.1) (after_claim r p)
unfolding after_claim
claim-IsSame none p = tt
claim-IsSame (some (TorrentData.exit_failure, chunks, td)) p = (refl, refl)
claim-IsSame (some (TorrentData.exit_success, chunks, td)) p =
    sent (send_requests td chunks p) (send_requests-IsSame td chunks p p (refl, refl))
  where
    sent :
        (r : Option (Status × Peer))
        → OnSome (λ r. IsSame p r.1) r
        → OnSome
            (λ r. IsSame p r.1)
            (elim r as (λ _. Requested) [ none ↦ none | some (status, p') ↦ some (status, p', td) ])
    sent none same = tt
    sent (some (status, q)) same = same

request_chunks-IsSame :
    (clock : ℕ → ℕ) (td : TorrentData) (o : Option Bitfield) (p : Peer)
    → OnSome (λ r. IsSame p r.1) (request_chunks clock td o p)
unfolding request_chunks
request_chunks-IsSame clock td none p = tt
request_chunks-IsSame clock td (some b) p =
    elim (Bool-cases (slt32 p.pending_request_count request_queue_length)) [
      | inl t ↦ rw t (claim-IsSame _ p)
      | inr f ↦ rw f (refl, refl)
    ]

send_request-IsSame :
    (clock : ℕ → ℕ) (p : Peer) (td : TorrentData)
    → OnSome (λ r. IsSame p r.1) (peer_send_msg_request clock p td)
unfolding peer_send_msg_request
send_request-IsSame clock p td = by_field p.peer_bitfield
  where
    by_field :
        (o : Option Bitfield)
        → OnSome
            (λ r. IsSame p r.1)
            (elim o as (λ _. Requested) [
              | none ↦ none
              | some has ↦ request_chunks clock td (interested_chunks td has) p
            ])
    by_field none = tt
    by_field (some has) = request_chunks-IsSame clock td _ p

pub request-Keeps : (env : RunEnv) (st : RunState) → IsLinked st.peer → Keeps (request_step env st)
unfolding request_step
request-Keeps env st h =
    optional-Keeps (peer_should_send_msg_request st.peer st.data_) st
      (after_data st (peer_send_msg_request env.claim_clock st.peer st.data_)) h
      (λ _. asked _ (send_request-IsSame env.claim_clock st.peer st.data_))
  where
    asked : (r : Requested) → OnSome (λ r. IsSame st.peer r.1) r → Keeps (after_data st r)
    asked none same = tt
    asked (some (status, q, td)) same = same-IsLinked st.peer q same h
