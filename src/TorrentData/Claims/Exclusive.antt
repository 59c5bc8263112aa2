-- ===== src/TorrentData/Claims/Exclusive.antt =====
-- Two peers that ask for chunks, and a peer that gets none: `torrent_data_claim_chunk` of
-- src/torrent/torrent_data.c.
use uvg_torrent_c.Prelude.{
  ℕ, suc, ◌≤◌, ◌<◌, ◌≡◌, refl, true, false, List, [], ◌∷◌, Option, none, some, arith, ◌==◌,
  Bool-cases, inl, inr,
}
use uvg_torrent_c.Bitfield.{Bitfield}
use uvg_torrent_c.Bitfield.Laws.{IsValid}
use uvg_torrent_c.TorrentData.{TorrentData, Status, exit_failure}
use uvg_torrent_c.TorrentData.Claims.{
  Found, chunk, nothing, out_of_bounds, find_chunk, add_claim, cons_result, claim_rounds, any_found,
  claim_status, torrent_data_claim_chunk,
}
use uvg_torrent_c.TorrentData.Claims.Scan.{IsFree, IsFirst, scan_lem}
use uvg_torrent_c.TorrentData.Claims.Invariant.{HasClaims, member, claim_result}

uninitialized_claims_nothing :
    (clock : ℕ → ℕ) (interested : Bitfield) (timeout n j : ℕ) (td td' : TorrentData) (s : Status)
    (out : List (Option ℕ))
    → (td.initialized == 1) ≡ false
    → torrent_data_claim_chunk clock td interested timeout n ≡ some (s, out, td')
    → member j out ≡ false
unfolding torrent_data_claim_chunk
uninitialized_claims_nothing clock interested timeout n j td td' s out e p =
    let all : ◌≡◌ {A = Option (Status × List (Option ℕ) × TorrentData)}
        (some (exit_failure, [], td)) (some (s, out, td')) =
      rw e at p in
    let same : ◌≡◌ {A = List (Option ℕ)} [] out = cc all in rw (← same)

-- A chunk that one call hands out is not handed out by the next call, whatever chunks its peer has.
-- Both calls have a timeout, the data is initialized, the claims and the bits agree before the
-- first call, and the bit fields of both peers are valid and have at least as many bits.
pub claims_exclusive :
    (clock₁ clock₂ : ℕ → ℕ) (interested₁ interested₂ : Bitfield) (timeout₁ timeout₂ : ℕ)
    (td td₁ td₂ : TorrentData) (n m : ℕ) (s₁ s₂ : Status) (out₁ out₂ : List (Option ℕ)) (j : ℕ)
    → 0 < timeout₁
    → 0 < timeout₂
    → IsValid interested₁
    → IsValid interested₂
    → td.initialized ≡ 1
    → HasClaims td.claimed td.claims
    → td.claimed.bit_count ≤ interested₁.bit_count
    → td.claimed.bit_count ≤ interested₂.bit_count
    → torrent_data_claim_chunk clock₁ td interested₁ timeout₁ n ≡ some (s₁, out₁, td₁)
    → torrent_data_claim_chunk clock₂ td₁ interested₂ timeout₂ m ≡ some (s₂, out₂, td₂)
    → member j out₁ ≡ true
    → member j out₂ ≡ false
claims_exclusive clock₁ clock₂ i₁ i₂ t₁ t₂ td td₁ td₂ n m s₁ s₂ out₁ out₂ j pos₁ pos₂ w₁ w₂ e h
      covers₁ covers₂ p q mem =
    let r₁ = claim_result w₁ clock₁ t₁ pos₁ td td₁ n s₁ out₁ e h covers₁ p in
    elim (Bool-cases (td₁.initialized == 1)) [
      | inr off ↦ uninitialized_claims_nothing clock₂ i₂ t₂ m j td₁ td₂ s₂ out₂ off q
      | inl on ↦
          let r₂ =
            claim_result w₂ clock₂ t₂ pos₂ td₁ td₂ m s₂ out₂ (ground arith) r₁.has_claims
              (omega (arith, r₁.same_count)) q in
          elim (Bool-cases (member j out₂)) [
            | inr f ↦ f
            | inl t ↦ let free = (r₂.were_free j t).1.0 in ground (arith, r₁.marks j)
          ]
    ]

any_found-cons :
    (i : ℕ) (r : Option (List (Option ℕ) × TorrentData)) (out : List (Option ℕ)) (td' : TorrentData)
    → cons_result (some i) r ≡ some (out, td')
    → any_found out ≡ true
unfolding any_found
any_found-cons i none out td' e = cc
any_found-cons i (some (o, u)) out td' e =
    let same : ◌≡◌ {A = List (Option ℕ)} (some i ∷ o) out = cc e in rw (← same)

module _ {interested : Bitfield} (w : IsValid interested) (clock : ℕ → ℕ) (timeout : ℕ) where
  status_failure :
      (r : Option (List (Option ℕ) × TorrentData)) (out : List (Option ℕ)) (td' : TorrentData)
      → claim_status r ≡ some (exit_failure, out, td')
      → (r ≡ some (out, td')) × (any_found out ≡ false)
  unfolding claim_status
  status_failure none out td' e = cc
  status_failure (some (o, u)) out td' e =
      let same : o ≡ out = cc e in
      let same' : u ≡ td' = cc e in
      (
        rw (same, same'),
        elim (Bool-cases (any_found o)) [
          | inr f ↦ rw same at f
          | inl t ↦ let bad = rw t at e in cc
        ],
      )

  -- The first round decides whether any chunk is found.
  first_round :
      (td td' : TorrentData) (n : ℕ) (out : List (Option ℕ)) (f : Found)
      → find_chunk td.claimed interested 0 td.claimed.bit_count ≡ f
      → IsFirst td.claimed interested 0 td.claimed.bit_count f
      → claim_rounds clock interested timeout 0 (suc n) td ≡ some (out, td')
      → any_found out ≡ false
      → (k : ℕ) → k < td.claimed.bit_count
      → ¬ IsFree td.claimed interested k
  unfolding claim_rounds
  first_round td td' n out out_of_bounds e first p none_found k lt free = first
  first_round td td' n out nothing e first p none_found k lt free = first k (omega arith) lt free
  first_round td td' n out (chunk i) e first p none_found k lt free =
      let round : cons_result (some i)
            (claim_rounds clock interested timeout 1 n (add_claim td timeout (clock 0) i))
          ≡ some (out, td') =
        rw (e, claim_rounds) at p in
      let found = any_found-cons i _ out td' round in cc

  -- Asked for at least one chunk on initialized data, `torrent_data_claim_chunk` fails only if the
  -- peer has no chunk that is unclaimed. Both bit fields are valid, and that of the peer has at
  -- least as many bits.
  pub claim_fails :
      (td td' : TorrentData) (n : ℕ) (out : List (Option ℕ))
      → td.initialized ≡ 1
      → IsValid td.claimed
      → td.claimed.bit_count ≤ interested.bit_count
      → torrent_data_claim_chunk clock td interested timeout (suc n) ≡ some (exit_failure, out, td')
      → (k : ℕ) → k < td.claimed.bit_count
      → ¬ IsFree td.claimed interested k
  unfolding torrent_data_claim_chunk
  claim_fails td td' n out e v covers p =
      let on : (td.initialized == 1) ≡ true = ground arith in
      let (run, found) = status_failure _ out td' (rw on at p) in
      first_round td td' n out _ refl (scan_lem v w covers) run found
