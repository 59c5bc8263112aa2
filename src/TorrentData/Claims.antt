-- ===== src/TorrentData/Claims.antt =====
-- `torrent_data_claim_chunk` and `torrent_data_release_expired_claims` of
-- src/torrent/torrent_data.c. Both hold the mutex of `claimed` throughout, so each is one step.
-- The clock is read once for each chunk that is claimed, and once for all claims that are released.
mod Tests
pub mod Scan
pub mod Invariant
pub mod Release
pub mod Exclusive
use uvg_torrent_c.Bitfield
use uvg_torrent_c.Bitfield.{Bitfield}
use uvg_torrent_c.Prelude.{
  ℕ, zero, suc, ◌+◌, ◌*◌, Bool, true, false, List, [], ◌∷◌, Option, none, some, ltb, ◌==◌,
  if◌then◌else◌,
}
use uvg_torrent_c.TorrentData.{TorrentData, Claim, Status, exit_success, exit_failure}

-- What the inner loop finds: a chunk, no chunk, or a read past the end of `interested_chunks`.
pub data Found : Type 0 where
  chunk : ℕ → Found
  nothing : Found
  out_of_bounds : Found

-- `claimed[i] == 0 && interested_chunks[i] == 1`; `none` is a read out of bounds.
unfoldable pub is_free : Bitfield → Bitfield → ℕ → Option Bool
is_free claimed interested i = elim (Bitfield.get_bit claimed i) [
  | none ↦ none
  | some c ↦
      if c == 0
      then (elim (Bitfield.get_bit interested i) [ none ↦ none | some w ↦ some (w == 1) ])
      else some false
]

-- `for (int i = 0; i < claimed->bit_count; i++)`, from `i` on, over the rounds left.
unfoldable pub find_chunk : Bitfield → Bitfield → ℕ → ℕ → Found
find_chunk claimed interested i zero = nothing
find_chunk claimed interested i (suc rounds) = elim (is_free claimed interested i) [
  | none ↦ out_of_bounds
  | some true ↦ chunk i
  | some false ↦ find_chunk claimed interested (i + 1) rounds
]

-- What a chunk that was found does to the claims: nothing, if the timeout is 0.
unfoldable pub add_claim : TorrentData → ℕ → ℕ → ℕ → TorrentData
add_claim td timeout_seconds now i = if timeout_seconds == 0 then td else record td {
  claims = record { deadline = now + timeout_seconds * 1000; chunk_id = i } ∷ td.claims;
  claimed = Bitfield.set_bit td.claimed i 1;
}

-- `*(out + chunk) = i`, before what the later rounds write.
abbrev pub cons_result :
    Option ℕ → Option (List (Option ℕ) × TorrentData) → Option (List (Option ℕ) × TorrentData)
cons_result o none = none
cons_result o (some (out, td)) = some (o ∷ out, td)

-- `for (int chunk = 0; chunk < num_chunks; chunk++)`: what is written to `out`, where `none` leaves
-- the entry as it is. The result `none` is a read out of bounds.
unfoldable pub claim_rounds :
    (ℕ → ℕ) → Bitfield → ℕ → ℕ → ℕ → TorrentData → Option (List (Option ℕ) × TorrentData)
claim_rounds clock interested timeout_seconds round zero td = some ([], td)
claim_rounds clock interested timeout_seconds round (suc rounds) td =
    elim (find_chunk td.claimed interested 0 td.claimed.bit_count) [
      | out_of_bounds ↦ none
      | nothing ↦
          cons_result none (claim_rounds clock interested timeout_seconds (round + 1) rounds td)
      | chunk i ↦ cons_result (some i) (
          claim_rounds clock interested timeout_seconds (round + 1) rounds
            (add_claim td timeout_seconds (clock round) i))
    ]

unfoldable pub any_found : List (Option ℕ) → Bool
any_found [] = false
any_found (some i ∷ out) = true
any_found (none ∷ out) = any_found out

-- `if (found_a_chunk == 1)` at the end.
unfoldable pub claim_status :
    Option (List (Option ℕ) × TorrentData) → Option (Status × List (Option ℕ) × TorrentData)
claim_status none = none
claim_status (some (out, td)) = some (if any_found out then exit_success else exit_failure, out, td)

unfoldable pub torrent_data_claim_chunk :
    (ℕ → ℕ) → TorrentData → Bitfield → ℕ → ℕ → Option (Status × List (Option ℕ) × TorrentData)
torrent_data_claim_chunk clock td interested timeout_seconds num_chunks =
    if td.initialized == 1
    then claim_status (claim_rounds clock interested timeout_seconds 0 num_chunks td)
    else some (exit_failure, [], td)

-- One claim that has expired: its chunk is free again, unless it is completed.
unfoldable pub release_claim : Bitfield → Claim → Bitfield → Option Bitfield
release_claim completed claim claimed = elim (Bitfield.get_bit completed claim.chunk_id) [
  | none ↦ none
  | some done ↦ some (if done == 0 then Bitfield.set_bit claimed claim.chunk_id 0 else claimed)
]

-- The walk along `claims`: an expired claim is unlinked and freed, any other is kept. `none` is a
-- read out of bounds.
unfoldable pub release_loop : ℕ → Bitfield → List Claim → Bitfield → Option (List Claim × Bitfield)
release_loop now completed [] claimed = some ([], claimed)
release_loop now completed (claim ∷ claims) claimed =
    if ltb claim.deadline now
    then (elim (release_claim completed claim claimed) [
      | none ↦ none
      | some claimed' ↦ release_loop now completed claims claimed'
    ])
    else (elim (release_loop now completed claims claimed) [
      | none ↦ none
      | some (kept, claimed') ↦ some (claim ∷ kept, claimed')
    ])

-- On data that is not initialized the function ends without a `return`.
unfoldable pub torrent_data_release_expired_claims : ℕ → TorrentData → Option TorrentData
torrent_data_release_expired_claims now td =
    if td.initialized == 1
    then (elim (release_loop now td.completed td.claims td.claimed) [
      | none ↦ none
      | some (claims, claimed) ↦ some (record td { claims = claims; claimed = claimed })
    ])
    else some td
