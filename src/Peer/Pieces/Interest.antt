-- ===== src/Peer/Pieces/Interest.antt =====
-- `peer_update_interested` of src/peer/peer_messages.c: when this client is interested in a peer.
use uvg_torrent_c.Prelude.{
  dec_lt, sym, ap, ◌∙◌, ℕ, zero, suc, ◌+◌, ◌≤◌, ◌<◌, ◌≡◌, ◌↔◌, refl, Bool, true, false, Bool-cases,
  inl, inr, Option, none, some, ◌==◌, if◌then◌else◌, arith, List,
}
use uvg_torrent_c.Bitfield.{Bitfield}
use uvg_torrent_c.Bitfield.Laws.{IsValid, bit, get_bit-bit}
use uvg_torrent_c.BufferedSocket.{BufferedSocket}
use uvg_torrent_c.TorrentData.{TorrentData}
use uvg_torrent_c.Peer.{Peer}
use uvg_torrent_c.Peer.Messages.{
  send_from, send_bytes, basic_msg, peer_send_msg_interested, peer_send_msg_not_interested,
}
use uvg_torrent_c.Peer.Pieces.{
  have_piece, is_interesting, find_interesting, change_interest, update_with,
  peer_update_interested,
}

-- A piece between `lo` and `hi` that the peer has and this client has not.
abbrev pub Wanted : TorrentData → Bitfield → ℕ → ℕ → Type 0
Wanted td has lo hi = (i : ℕ) × (lo ≤ i) × (i < hi) × (have_piece td i ≡ false) × (bit has i ≡ 1)

-- The test of one round.
abbrev wants : TorrentData → Bitfield → ℕ → Bool
wants td has i = if have_piece td i then false else bit has i == 1

wants_iff :
    (td : TorrentData) (has : Bitfield) (i : ℕ)
    → (wants td has i ≡ true) ↔ ((have_piece td i ≡ false) × (bit has i ≡ 1))
wants_iff td has i = ground arith

later :
    (td : TorrentData) (has : Bitfield) (i rounds : ℕ)
    → wants td has i ≡ false
    → Wanted td has i (i + suc rounds)
    → Wanted td has (i + 1) (i + 1 + rounds)
later td has i rounds passed (j, lo, hi, mine, theirs) = elim (dec_lt i j) [
  | yes lt ↦ (j, omega arith, omega arith, mine, theirs)
  | no n ↦
      let e : j ≡ i = omega arith in
      let again : wants td has i ≡ true = (wants_iff td has i).1 (rw (← e) mine, rw (← e) theirs) in
      cc
]

module _ (td : TorrentData) {has : Bitfield} (w : IsValid has) where
  is_interesting_lem : (i : ℕ) → i < has.bit_count → is_interesting td has i ≡ some (wants td has i)
  unfolding is_interesting
  is_interesting_lem i h = rw (get_bit-bit i w h) (ground arith)

  find_interesting_lem :
      (i rounds : ℕ)
      → i + rounds ≤ has.bit_count
      → (found : Bool) × (find_interesting td has i rounds ≡ some found)
        × ((found ≡ true) ↔ Wanted td has i (i + rounds))
  unfolding find_interesting
  find_interesting_lem i zero h = (false, refl, ((λ e. cc), λ u. absurd (omega (arith, u.1, u.2))))
  find_interesting_lem i (suc rounds) h = elim (Bool-cases (wants td has i)) [
    | inl wanted ↦ (
      true,
      rw (is_interesting_lem i (omega arith), find_interesting) (rw wanted),
      (
        λ e.
            let (mine, theirs) = (wants_iff td has i).0 wanted in
            (i, omega arith, omega arith, mine, theirs),
        λ u. refl,
      ),
    )
    | inr passed ↦
        let (found, run, iff) = find_interesting_lem (i + 1) rounds (omega arith) in
        (
          found,
          rw (is_interesting_lem i (omega arith), find_interesting) (rw passed run),
          (
            λ e.
                let (j, lo, hi, mine, theirs) = iff.0 e in
                (j, omega arith, omega arith, mine, theirs),
            λ u. iff.1 (later td has i rounds passed u),
          ),
        )
  ]

send_keeps :
    (p : Peer) (bytes : List ℕ)
    → ((send_bytes p bytes).1.am_interested ≡ p.am_interested)
      × ((send_bytes p bytes).1.peer_bitfield ≡ p.peer_bitfield)
unfolding send_from
send_keeps p bytes = go p.socket
  where
    go :
        (s : Option BufferedSocket)
        → ((send_from p s bytes).1.am_interested ≡ p.am_interested)
          × ((send_from p s bytes).1.peer_bitfield ≡ p.peer_bitfield)
    go none = (refl, refl)
    go (some s) = (refl, refl)

abbrev flag : Bool → ℕ
flag true = 1
flag false = 0

flag_iff : (b : Bool) → flag b ≡ 1 → b ≡ true
flag_iff true e = refl
flag_iff false e = absurd (omega arith)

change_interest_lem :
    (found : Bool) (p : Peer)
    → p.am_interested < 2
    → ((change_interest found p).am_interested ≡ flag found)
      × ((change_interest found p).peer_bitfield ≡ p.peer_bitfield)
      × (p.am_interested ≡ flag found → change_interest found p ≡ p)
unfolding change_interest peer_send_msg_interested peer_send_msg_not_interested
change_interest_lem true p h = elim (Bool-cases (p.am_interested == 0)) [
  | inl off ↦
      let (kept, field) = send_keeps (record p { am_interested = 1 }) (basic_msg 2) in
      (ground arith, ground arith, λ e. ground arith)
  | inr on ↦ (ground arith, ground arith, λ e. ground arith)
]
change_interest_lem false p h = elim (Bool-cases (p.am_interested == 1)) [
  | inl on ↦
      let (kept, field) = send_keeps (record p { am_interested = 0 }) (basic_msg 3) in
      (ground arith, ground arith, λ e. ground arith)
  | inr off ↦ (ground arith, ground arith, λ e. ground arith)
]

-- What `peer_update_interested` leaves: the same bit field, and the flag by what the peer has. The
-- peer is changed only if the flag is.
abbrev pub IsUpdated : TorrentData → Bitfield → Peer → Peer → Type 0
IsUpdated td has p p' =
    (p'.peer_bitfield ≡ p.peer_bitfield)
    × ((p'.am_interested ≡ 1) ↔ Wanted td has 0 has.bit_count)
    × (p'.am_interested ≡ p.am_interested → p' ≡ p)

-- With a valid bit field of the peer, and a flag that is 0 or 1, `peer_update_interested` returns.
-- Then the flag is 1 exactly if the peer has a piece that this client has not; the bit field stays;
-- and where the flag stays what it was, nothing is sent or changed.
pub update_interested_lem :
    (td : TorrentData) (p : Peer) (has : Bitfield)
    → p.peer_bitfield ≡ some has
    → IsValid has
    → p.am_interested < 2
    → (p' : Peer) × (peer_update_interested p td ≡ some p') × IsUpdated td has p p'
unfolding peer_update_interested update_with
update_interested_lem td p has e w h =
    let (found, run, iff) = find_interesting_lem td w 0 has.bit_count (omega arith) in
    let (set_, field, same) = change_interest_lem found p h in
    (
      change_interest found p,
      ap (λ o. update_with o p td) e ∙ rw (run, update_with),
      (
        field,
        (
          (λ k.
              let (i, lo, hi, mine, theirs) = iff.0 (flag_iff found (sym set_ ∙ k)) in
              (i, lo, omega arith, mine, theirs)),
          λ u.
              let (i, lo, hi, mine, theirs) = u in
              set_ ∙ ap flag (iff.1 (i, lo, omega arith, mine, theirs)),
        ),
        λ k. same (sym k ∙ set_),
      ),
    )
