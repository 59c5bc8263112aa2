-- ===== src/Peer/Metadata/Asking.antt =====
-- Which chunk of the metadata a peer is asked for: `peer_send_ut_metadata_request` of
-- src/peer/peer_ut_metadata.c.
use uvg_torrent_c.Bitfield
use uvg_torrent_c.Bitfield.{Bitfield}
use uvg_torrent_c.Bitfield.Laws.{IsValid, bit-set_bit}
use uvg_torrent_c.Bitfield.Fresh.{new-IsValid}
use uvg_torrent_c.HashMap.{hashmap_new}
use uvg_torrent_c.Prelude.Words.{add64, extend64}
use uvg_torrent_c.Prelude.{
  ℕ, ◌+◌, ◌*◌, ◌/◌, ◌^◌, ◌≤◌, ◌<◌, ◌≡◌, refl, true, false, List, [], ◌∷◌, ◌++◌, Option, none, some,
  ltb, ◌==◌, arith, inl, inr, ◌⊎◌,
}
use uvg_torrent_c.TorrentData
use uvg_torrent_c.TorrentData.{
  TorrentData, count_of, torrent_data_set_data_size, torrent_data_set_piece_size,
  torrent_data_set_chunk_size, torrent_data_add_file,
}
use uvg_torrent_c.TorrentData.Claims.{
  Found, chunk, nothing, out_of_bounds, find_chunk, add_claim, claim_rounds, any_found,
  claim_status, torrent_data_claim_chunk,
}
use uvg_torrent_c.TorrentData.Claims.Scan.{IsFree, IsFirst, scan_lem}
use uvg_torrent_c.Peer.{Peer}
use uvg_torrent_c.Peer.Bencode.{BeNode, be_dict, be_dict_add_num, msg_type_key, piece_key}
use uvg_torrent_c.Peer.Messages.{Status, exit_failure, send_bytes}
use uvg_torrent_c.Peer.Metadata.{metadata_msg}
use uvg_torrent_c.Peer.Metadata.Request.{
  metadata_path, requested_count, requested_field, init_metadata, request_dict, request_piece,
  after_metadata_claim, request_from, peer_send_ut_metadata_request,
}

abbrev Claimed : Type 0
Claimed = Option (TorrentData.Status × List (Option ℕ) × TorrentData)

-- What a claim of one chunk without a timeout makes of what the scan finds.
abbrev claimed_one : Found → TorrentData → Claimed
claimed_one (chunk i) td = some (TorrentData.exit_success, some i ∷ [], td)
claimed_one nothing td = some (TorrentData.exit_failure, none ∷ [], td)
claimed_one out_of_bounds td = none

claim_one :
    (clock : ℕ → ℕ) (td : TorrentData) (b : Bitfield) (f : Found)
    → (td.initialized == 1) ≡ true
    → find_chunk td.claimed b 0 td.claimed.bit_count ≡ f
    → torrent_data_claim_chunk clock td b 0 1 ≡ claimed_one f td
unfolding torrent_data_claim_chunk claim_rounds claim_status any_found add_claim
claim_one clock td b (chunk i) on e = rw (on, claim_rounds, e) refl
claim_one clock td b nothing on e = rw (on, claim_rounds, e) refl
claim_one clock td b out_of_bounds on e = rw (on, claim_rounds, e) refl

-- The chunks that the peer has not been asked for: those that were kept, or every chunk of a size that
-- an `int` holds, for the first request.
abbrev pub FieldOf : Peer → Bitfield → Type 0
FieldOf p b =
    ((p.ut_metadata_requested ≡ some b) × IsValid b)
    ⊎ ((p.ut_metadata_requested ≡ none)
        × (p.ut_metadata_size + 16383 < 2 ^ 31)
        × (b ≡ Bitfield.new ((p.ut_metadata_size + 16383) / 16384) 1 0xFF))

-- One file with the whole metadata, in chunks of 16 KiB and pieces of 16 chunks, with nothing claimed.
abbrev pub metadata_layout : ℕ → TorrentData → TorrentData
metadata_layout size metadata = record metadata {
  initialized = 1;
  files =
      record { file_path = metadata.root_path ++ metadata_path; file_offset = 0; file_size = size }
      ∷ [];
  files_size = size;
  piece_size = 16 * 16384;
  chunk_size = 16384;
  data_size = size;
  piece_count = (size + 262143) / 262144;
  chunk_count = (size + 16383) / 16384;
  claimed = Bitfield.new ((size + 16383) / 16384) 0 0xFF;
  completed = Bitfield.new ((size + 16383) / 16384) 0 0xFF;
  downloaded = 0;
  left = size;
  uploaded = 0;
  pieces = hashmap_new 1000;
}

-- The metadata that is asked for: what was laid out before, or the layout of the first request.
abbrev pub LayoutOf : ℕ → TorrentData → TorrentData → Type 0
LayoutOf size metadata td =
    ((metadata.initialized ≡ 1) × (td ≡ metadata) × IsValid td.claimed)
    ⊎ ((metadata.initialized ≡ 0)
        × (metadata.files ≡ [])
        × (metadata.files_size ≡ 0)
        × (size + 262143 < 2 ^ 31)
        × (td ≡ metadata_layout size metadata))

field_lem :
    (p : Peer) (b : Bitfield)
    → FieldOf p b
    → (requested_field p.ut_metadata_requested p.ut_metadata_size ≡ some b) × IsValid b
unfolding requested_field requested_count
field_lem p b (inl (e, w)) = (rw (e, requested_field) refl, w)
field_lem p b (inr (e, small, same)) =
    let f : ltb p.ut_metadata_size (2 ^ 31) ≡ true = ground arith in
    let g : ltb (p.ut_metadata_size + 16383) (2 ^ 31) ≡ true = ground arith in
    (
      rw (e, requested_field, requested_count, f, g) (rw same refl),
      rw same (new-IsValid 1 (omega arith) _ 0xFF (omega arith)),
    )

init_lem :
    (size : ℕ) (metadata td : TorrentData)
    → LayoutOf size metadata td
    → (init_metadata size metadata ≡ some td) × (td.initialized ≡ 1) × IsValid td.claimed
unfolding init_metadata torrent_data_set_data_size torrent_data_set_piece_size
    torrent_data_set_chunk_size torrent_data_add_file
init_lem size metadata td (inl (on, same, v)) =
    let q : (metadata.initialized == 0) ≡ false = ground arith in (rw (q, same), rw (same, on), v)
init_lem size metadata td (inr (off, none_yet, zero_size, small, same)) =
    let f : (metadata.initialized == 0) ≡ true = ground arith in
    let g : (metadata.initialized == 1) ≡ false = ground arith in
    let whole : extend64 size ≡ size = ground arith in
    let total : add64 metadata.files_size size ≡ size = omega arith in
    let chunks : count_of size 16384 ≡ (size + 16383) / 16384 = omega arith in
    let pieces : count_of size 262144 ≡ (size + 262143) / 262144 = omega arith in
    (
      rw (f, whole, g, none_yet, total, chunks, pieces, zero_size, same) refl,
      rw same refl,
      rw same (new-IsValid 0 (omega arith) _ 0xFF (omega arith)),
    )

-- The outcome of a request. Either no chunk is both unclaimed and not yet asked for, and no request is
-- made; or the first such chunk is asked for, and then counts as asked for. In both cases the field of
-- the peer and the layout of the metadata are there afterwards.
abbrev pub IsAsked :
    (BeNode → ℕ → List ℕ)
    → Peer
    → TorrentData
    → Bitfield
    → Option (Status × Peer × TorrentData)
    → Type 0
IsAsked encode p td b result =
    (((k : ℕ) → k < td.claimed.bit_count → ¬ IsFree td.claimed b k)
      × (result ≡ some (exit_failure, record p { ut_metadata_requested = some b }, td)))
    ⊎ ((i : ℕ) × IsFree td.claimed b i
        × ((k : ℕ) → k < i → ¬ IsFree td.claimed b k)
        × (¬ IsFree td.claimed (Bitfield.set_bit b i 0) i)
        × (result ≡ (
            let request = be_dict_add_num (be_dict_add_num be_dict msg_type_key 0) piece_key i in
            let (status, p') =
              send_bytes (record p { ut_metadata_requested = some (Bitfield.set_bit b i 0) })
                (metadata_msg p.ut_metadata (encode request 1000)) in
            some (status, p', td))))

module _ (clock : ℕ → ℕ) (encode : BeNode → ℕ → List ℕ) (p : Peer) (metadata td : TorrentData)
    (b : Bitfield) where
  abbrev opened_peer : Peer
  opened_peer = record p { ut_metadata_requested = some b }

  opened :
      FieldOf p b
      → LayoutOf p.ut_metadata_size metadata td
      → peer_send_ut_metadata_request clock encode p metadata
        ≡ after_metadata_claim encode opened_peer b (torrent_data_claim_chunk clock td b 0 1)
  unfolding peer_send_ut_metadata_request request_from
  opened field layout =
      rw ((field_lem p b field).0, (init_lem p.ut_metadata_size metadata td layout).0) refl

  asked :
      IsValid b
      → td.claimed.bit_count ≤ b.bit_count
      → (f : Found) → IsFirst td.claimed b 0 td.claimed.bit_count f
      → IsAsked encode p td b (after_metadata_claim encode opened_peer b (claimed_one f td))
  unfolding after_metadata_claim request_piece request_dict
  asked w covers nothing first = inl ((λ k lt. first k (omega arith) lt), refl)
  asked w covers (chunk i) (lo, hi, free, before) =
      let cleared = bit-set_bit i 0 w (omega arith) i (omega arith) in
      inr (i, free, (λ k lt. before k (omega arith) lt), (λ again. ground arith), refl)
  asked w covers out_of_bounds first = absurd first

  -- A request for metadata, the first one of a peer and the first one of all included: it either asks
  -- for the first chunk that is unclaimed and that this peer was not asked for, which the peer is then
  -- never asked for again, or there is no such chunk, and it fails. A peer that is asked for the first
  -- time was not asked for any chunk, and the first request of all lays the metadata out as one file
  -- of the size that the peer has named. The field of the peer has at least as many bits as there are
  -- chunks, sizes fit an `int` when they are used, and bit fields that were there before are valid.
  pub metadata_request_lem :
      FieldOf p b
      → LayoutOf p.ut_metadata_size metadata td
      → td.claimed.bit_count ≤ b.bit_count
      → IsAsked encode p td b (peer_send_ut_metadata_request clock encode p metadata)
  metadata_request_lem field layout covers =
      let (made, on, v) = init_lem p.ut_metadata_size metadata td layout in
      let (had, w) = field_lem p b field in
      rw (opened field layout, claim_one clock td b _ (ground arith) refl)
        (asked w covers _ (scan_lem v w covers))
