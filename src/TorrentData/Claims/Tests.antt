-- ===== src/TorrentData/Claims/Tests.antt =====
-- The laws of the claims and of `torrent_data_write_chunk` in src/torrent/torrent_data.c at a torrent
-- of two pieces.
use uvg_torrent_c.Prelude.{
  ℕ, ◌≤◌, ◌≡◌, refl, false, ◌&&◌, if◌then◌else◌, List, [], ◌∷◌, Option, none, some, arith, ◌==◌,
}
use uvg_torrent_c.Bitfield
use uvg_torrent_c.Bitfield.{Bitfield, new}
use uvg_torrent_c.Bitfield.Laws.{IsValid, bit}
use uvg_torrent_c.Bitfield.Fresh.{new-IsValid, counts-new}
use uvg_torrent_c.TorrentData.{TorrentData, exit_success, exit_failure}
use uvg_torrent_c.TorrentData.Example.{torrent, seven, two_bytes-IsValid}
use uvg_torrent_c.TorrentData.Claims.{
  any_found, claim_status, claim_rounds, find_chunk, is_free, add_claim, torrent_data_claim_chunk,
  torrent_data_release_expired_claims,
}
use uvg_torrent_c.TorrentData.Claims.Invariant.{HasClaims, Claimed, member, claim_chunk_lem}
use uvg_torrent_c.TorrentData.Claims.Exclusive.{claims_exclusive, claim_fails}
use uvg_torrent_c.TorrentData.Claims.Release.{expired, release_expired_lem}
use uvg_torrent_c.TorrentData.Claims.Scan.{IsFree}

-- The chunks 1 and 9, from a peer that has these two.
abbrev peer_chunks : Bitfield
peer_chunks = record { bit_count = 16; bytes_count = 2; bytes = 0x40 ∷ 0x40 ∷ [] }

peer-IsValid : IsValid peer_chunks
peer-IsValid = two_bytes-IsValid 0x40 0x40 (omega arith) (omega arith)

abbrev clock : ℕ → ℕ
clock i = 100

fresh-HasClaims : HasClaims (torrent seven).claimed (torrent seven).claims
fresh-HasClaims = record { valid = new-IsValid 0 (omega arith) 16 0xFF (omega arith); held = tt }

covers : (torrent seven).claimed.bit_count ≤ peer_chunks.bit_count
covers = rw ((counts-new 16 0 0xFF).0) (omega arith)

claim_chunk_lem_example :
    (out : List (Option ℕ)) × (td' : TorrentData) × (torrent_data_claim_chunk clock
        (torrent seven)
        peer_chunks
        10
        3
      ≡ some (if any_found out then exit_success else exit_failure, out, td'))
    × Claimed peer_chunks (torrent seven).claimed td' out
claim_chunk_lem_example =
    claim_chunk_lem peer-IsValid clock 10 (omega arith) (torrent seven) 3 refl fresh-HasClaims
      covers

-- The data after two chunks are claimed.
abbrev claimed_two : TorrentData
claimed_two = record (torrent seven) {
  claims =
      record { deadline = 10100; chunk_id = 9 } ∷ record { deadline = 10100; chunk_id = 1 } ∷ [];
  claimed = record { bit_count = 16; bytes_count = 2; bytes = 0x40 ∷ 0x40 ∷ [] };
}

first_claim :
    torrent_data_claim_chunk clock (torrent seven) peer_chunks 10 3
    ≡ some (exit_success, some 1 ∷ some 9 ∷ none ∷ [], claimed_two)
unfolding torrent_data_claim_chunk claim_status claim_rounds find_chunk new Bitfield.set_from
    Bitfield.set_bit is_free Bitfield.get_bit Bitfield.get_in_byte Bitfield.set_in_byte add_claim
    any_found
first_claim = refl

second_claim :
    torrent_data_claim_chunk clock claimed_two peer_chunks 10 1
    ≡ some (exit_failure, none ∷ [], claimed_two)
unfolding torrent_data_claim_chunk claim_status claim_rounds find_chunk is_free Bitfield.get_bit
    Bitfield.get_in_byte any_found
second_claim = refl

claims_exclusive_example : member 9 (none ∷ []) ≡ false
claims_exclusive_example =
    claims_exclusive clock clock peer_chunks peer_chunks 10 10 (torrent seven) claimed_two
      claimed_two 3 1 exit_success exit_failure (some 1 ∷ some 9 ∷ none ∷ []) (none ∷ []) 9
      (omega arith) (omega arith) peer-IsValid peer-IsValid refl fresh-HasClaims covers covers
      first_claim second_claim refl

claim_fails_example : ¬ IsFree claimed_two.claimed peer_chunks 5
claim_fails_example =
    claim_fails peer-IsValid clock 10 claimed_two claimed_two 0 (none ∷ []) refl peer-IsValid
      (omega arith) second_claim 5 (omega arith)

claimed_two-HasClaims : HasClaims claimed_two.claimed claimed_two.claims
unfolding bit Bitfield.get_in_byte
claimed_two-HasClaims = record {
  valid = peer-IsValid;
  held = (omega arith, refl, ((λ e. absurd (omega arith)), tt), (omega arith, refl, tt, tt));
}

release_expired_lem_example :
    (b' : Bitfield) × (torrent_data_release_expired_claims 20000 claimed_two
      ≡ some (record claimed_two { claims = []; claimed = b' }))
    × HasClaims b' []
    × ((j : ℕ)
        → bit b' j ≡ (
            if expired 20000 claimed_two.claims j && (bit seven j == 0)
            then 0
            else bit peer_chunks j))
release_expired_lem_example =
    release_expired_lem 20000 claimed_two refl claimed_two-HasClaims
      (two_bytes-IsValid 0xFE 0 (omega arith) (omega arith)) (omega arith)
