-- ===== src/Peer/Run/Sending.antt =====
-- What writing messages leaves as it is: the status of a peer of src/peer/peer.c, and whether it has a
-- socket.
use uvg_torrent_c.Bitfield.{Bitfield}
use uvg_torrent_c.Prelude.{
  ℕ, zero, suc, ◌+◌, ◌≡◌, refl, ap, ◌∙◌, Bool, true, false, not, ◌&&◌, List, [], ◌∷◌, Option, none,
  some, ◌==◌, Bool-cases, inl, inr, ◌⊎◌, sym,
}
use uvg_torrent_c.Prelude.Words.{to_int}
use uvg_torrent_c.BufferedSocket.{BufferedSocket}
use uvg_torrent_c.Queue.Heap.{Nodes}
use uvg_torrent_c.Queue.{Queue, queue_pop}
use uvg_torrent_c.TorrentData.{TorrentData}
use uvg_torrent_c.Peer.{Peer, peer_reset, peer_unconnected, peer_disconnect}
use uvg_torrent_c.Peer.Messages.{
  Status, exit_success, exit_failure, send_from, send_bytes, peer_send_msg_interested,
  peer_send_msg_not_interested,
}
use uvg_torrent_c.Peer.Pieces.{
  change_interest, update_with, send_haves, after_have, have_msg, find_interesting,
}
use uvg_torrent_c.Peer.Requests.{send_requests, after_request, chunk_request}

abbrev pub has_socket : Option BufferedSocket → Bool
has_socket none = false
has_socket (some s) = true

-- The same status, and a socket if there was one.
abbrev pub IsSame : Peer → Peer → Type 0
IsSame p p' = (p'.status ≡ p.status) × (has_socket p'.socket ≡ has_socket p.socket)

-- Disconnected.
abbrev pub IsDown : Peer → Type 0
IsDown p = (p.status ≡ peer_unconnected) × (p.socket ≡ none)

abbrev pub IsSameOrDown : Peer → Peer → Type 0
IsSameOrDown p p' = IsSame p p' ⊎ IsDown p'

pub IsSame-trans : (p q r : Peer) → IsSame p q → IsSame q r → IsSame p r
IsSame-trans p q r (a, b) (c, d) = (c ∙ a, d ∙ b)

pub disconnect-IsDown : (now : ℕ) (p : Peer) → IsDown (peer_disconnect now p)
unfolding peer_disconnect peer_reset
disconnect-IsDown now p = (refl, refl)

send_from-IsSame :
    (p : Peer) (bytes : List ℕ) (o : Option BufferedSocket)
    → p.socket ≡ o
    → IsSame p (send_from p o bytes).1
unfolding send_from
send_from-IsSame p bytes none e = (refl, refl)
send_from-IsSame p bytes (some s) e = (refl, ap has_socket (sym e))

pub send-IsSame : (p : Peer) (bytes : List ℕ) → IsSame p (send_bytes p bytes).1
send-IsSame p bytes = send_from-IsSame p bytes p.socket refl

pub change_interest-IsSame : (found : Bool) (p : Peer) → IsSame p (change_interest found p)
unfolding change_interest peer_send_msg_interested peer_send_msg_not_interested
change_interest-IsSame found p = elim (Bool-cases ((p.am_interested == 0) && found)) [
  | inl t ↦ rw t (send-IsSame (record p { am_interested = 1 }) _)
  | inr f ↦ elim (Bool-cases ((p.am_interested == 1) && not found)) [
    | inl t ↦ rw (f, t) (send-IsSame (record p { am_interested = 0 }) _)
    | inr g ↦ rw (f, g) (refl, refl)
  ]
]

-- What is there satisfies the predicate.
abbrev pub OnSome {ℓ} : {A : Type ℓ} → (A → Type 0) → Option A → Type 0
OnSome P none = Unit
OnSome P (some a) = P a

pub update_with-IsSame :
    (o : Option Bitfield) (p : Peer) (td : TorrentData) → OnSome (IsSame p) (update_with o p td)
unfolding update_with
update_with-IsSame none p td = (refl, refl)
update_with-IsSame (some has) p td = found (find_interesting td has 0 has.bit_count)
  where
    found :
        (r : Option Bool)
        → OnSome (IsSame p) (elim r [ none ↦ none | some found ↦ some (change_interest found p) ])
    found none = tt
    found (some b) = change_interest-IsSame b p

-- The loops that write messages, with what `next` does behind a message.
after_have-IsSame :
    (p : Peer) (r : Status × Peer) (h : Nodes ℕ) (next : Peer → Option (Status × Peer × Nodes ℕ))
    → IsSame p r.1
    → ((q : Peer) → IsSame p q → OnSome (λ r. IsSame p r.1) (next q))
    → OnSome (λ r. IsSame p r.1) (after_have r h next)
unfolding after_have
after_have-IsSame p (exit_failure, q) h next same rest = same
after_have-IsSame p (exit_success, q) h next same rest = rest q same

after_request-IsSame :
    (p : Peer) (r : Status × Peer) (next : Peer → Option (Status × Peer))
    → IsSame p r.1
    → ((q : Peer) → IsSame p q → OnSome (λ r. IsSame p r.1) (next q))
    → OnSome (λ r. IsSame p r.1) (after_request r next)
unfolding after_request
after_request-IsSame p (exit_failure, q) next same rest = same
after_request-IsSame p (exit_success, q) next same rest =
    rest (record q { pending_request_count = to_int (q.pending_request_count + 1) }) same

pub send_haves-IsSame :
    (rounds : ℕ) (p q : Peer) (h : Nodes ℕ)
    → IsSame p q
    → OnSome (λ r. IsSame p r.1) (send_haves rounds q h)
unfolding send_haves
send_haves-IsSame zero p q h same = same
send_haves-IsSame (suc rounds) p q h same =
    popped (λ p' h' e. send_haves-IsSame rounds p p' h' e) (queue_pop q.progress_queue h)
  where
    popped :
        ((p' : Peer) (h' : Nodes ℕ)
          → IsSame p p'
          → OnSome (λ r. IsSame p r.1) (send_haves rounds p' h'))
        → (r : Option (Option ℕ × Queue × Nodes ℕ))
        → OnSome
            (λ r. IsSame p r.1)
            (elim r [
              | none ↦ none
              | some (none, q', h') ↦ none
              | some (some piece_id, q', h') ↦
                  after_have
                    (send_bytes (record q { progress_queue = q' }) (have_msg piece_id))
                    h'
                    (λ p'. send_haves rounds p' h')
            ])
    popped rest none = tt
    popped rest (some (none, q', h')) = tt
    popped rest (some (some piece_id, q', h')) =
        let r = send_bytes (record q { progress_queue = q' }) (have_msg piece_id) in
        after_have-IsSame p r h' _
          (IsSame-trans p q r.1 same (send-IsSame (record q { progress_queue = q' }) _))
          (λ p' e. rest p' h' e)

pub send_requests-IsSame :
    (td : TorrentData) (chunks : List (Option ℕ)) (p q : Peer)
    → IsSame p q
    → OnSome (λ r. IsSame p r.1) (send_requests td chunks q)
unfolding send_requests
send_requests-IsSame td [] p q same = same
send_requests-IsSame td (none ∷ chunks) p q same = same
send_requests-IsSame td (some chunk_id ∷ chunks) p q same =
    found (λ p' e. send_requests-IsSame td chunks p p' e) (chunk_request td chunk_id)
  where
    found :
        ((p' : Peer) → IsSame p p' → OnSome (λ r. IsSame p r.1) (send_requests td chunks p'))
        → (r : Option (List ℕ))
        → OnSome
            (λ r. IsSame p r.1)
            (elim r [
              | none ↦ none
              | some bytes ↦ after_request (send_bytes q bytes) (λ p'. send_requests td chunks p')
            ])
    found rest none = tt
    found rest (some bytes) =
        after_request-IsSame p (send_bytes q bytes) _
          (IsSame-trans p q (send_bytes q bytes).1 same (send-IsSame q bytes)) rest
