-- ===== src/TorrentData/Claims/Invariant.antt =====
-- The claims of src/torrent/torrent_data.c: what `torrent_data_claim_chunk` hands out.
use uvg_torrent_c.Prelude.{
  ℕ, zero, suc, ◌+◌, ◌*◌, ◌≤◌, ◌<◌, ◌≡◌, ◌≢◌, refl, sym, ◌∙◌, Bool, true, false, ◌||◌, List, [],
  ◌∷◌, Option, none, some, arith, ◌==◌, if◌then◌else◌, Bool-cases, inl, inr, ℕ_discrete,
}
use uvg_torrent_c.Bitfield.{Bitfield, set_bit}
use uvg_torrent_c.Bitfield.Laws.{IsValid, bit, set_bit-IsValid, bit-set_bit, counts-set_bit}
use uvg_torrent_c.TorrentData.{TorrentData, Claim, Status, exit_success, exit_failure}
use uvg_torrent_c.TorrentData.Claims.{
  Found, chunk, nothing, out_of_bounds, find_chunk, add_claim, claim_rounds, any_found,
  claim_status, torrent_data_claim_chunk,
}
use uvg_torrent_c.TorrentData.Claims.Scan.{IsFree, IsFirst, scan_lem}

-- No claim is for the chunk.
abbrev pub Unclaimed : ℕ → List Claim → Type 0
Unclaimed i [] = Unit
Unclaimed i (c ∷ cs) = (c.chunk_id ≢ i) × Unclaimed i cs

-- Every claim is for a chunk that is marked as claimed, and no two are for the same chunk.
abbrev pub AllHeld : Bitfield → List Claim → Type 0
AllHeld claimed [] = Unit
AllHeld claimed (c ∷ cs) =
    (c.chunk_id < claimed.bit_count)
    × (bit claimed c.chunk_id ≡ 1)
    × Unclaimed c.chunk_id cs
    × AllHeld claimed cs

pub record HasClaims (claimed : Bitfield) (claims : List Claim) : Type 0 where
  pub valid : IsValid claimed
  pub held : AllHeld claimed claims

Unclaimed-of_free :
    (b : Bitfield) (i : ℕ) (cs : List Claim) → bit b i ≡ 0 → AllHeld b cs → Unclaimed i cs
Unclaimed-of_free b i [] e h = tt
Unclaimed-of_free b i (c ∷ cs) e h = ((λ p. absurd (not_both p)), Unclaimed-of_free b i cs e h.3)
  where
    not_both : c.chunk_id ≡ i → ⊥
    not_both p = let q : bit b i ≡ 1 = rw (← p) h.1 in omega arith

module _ {b : Bitfield} (v : IsValid b) (i : ℕ) (h : i < b.bit_count) where
  AllHeld-set : (cs : List Claim) → AllHeld b cs → AllHeld (set_bit b i 1) cs
  AllHeld-set [] a = tt
  AllHeld-set (c ∷ cs) a = (
    omega (arith, counts-set_bit b i 1),
    ground (arith, bit-set_bit i 1 v (omega arith) c.chunk_id h, a.1),
    a.2,
    AllHeld-set cs a.3,
  )

  -- A new claim on a free chunk.
  pub claim-HasClaims :
      (d : ℕ) (cs : List Claim)
      → bit b i ≡ 0
      → AllHeld b cs
      → HasClaims (set_bit b i 1) (record { deadline = d; chunk_id = i } ∷ cs)
  claim-HasClaims d cs free a = record {
    valid = set_bit-IsValid i 1 v (omega arith);
    held = (
      omega (arith, counts-set_bit b i 1),
      ground (arith, bit-set_bit i 1 v (omega arith) i h),
      Unclaimed-of_free b i cs free a,
      AllHeld-set cs a,
    );
  }

-- The chunk is among those handed out.
abbrev pub member : ℕ → List (Option ℕ) → Bool
member j [] = false
member j (none ∷ out) = member j out
member j (some i ∷ out) = (i == j) || member j out

abbrev pub AllDistinct : List (Option ℕ) → Type 0
AllDistinct [] = Unit
AllDistinct (none ∷ out) = AllDistinct out
AllDistinct (some i ∷ out) = (member i out ≡ false) × AllDistinct out

-- What the rounds did: `out` names distinct chunks, all of them free before and marked as claimed
-- now, and no other bit has changed.
pub record Claimed (interested b : Bitfield) (td' : TorrentData) (out : List (Option ℕ))
    : Type 0 where
  pub same_count : td'.claimed.bit_count ≡ b.bit_count
  pub has_claims : HasClaims td'.claimed td'.claims
  pub distinct : AllDistinct out
  pub were_free : (j : ℕ) → member j out ≡ true → (j < b.bit_count) × IsFree b interested j
  pub marks : (j : ℕ) → bit td'.claimed j ≡ (if member j out then 1 else bit b j)

module _ (interested b : Bitfield) (td' : TorrentData) (i : ℕ) (out : List (Option ℕ))
    (v : IsValid b) (lt : i < b.bit_count) (free : IsFree b interested i) where
  mark : (j : ℕ) → bit (set_bit b i 1) j ≡ (if i == j then 1 else bit b j)
  mark j = bit-set_bit i 1 v (omega arith) j lt

  not_again : Claimed interested (set_bit b i 1) td' out → member i out ≡ false
  not_again r = elim (Bool-cases (member i out)) [
    | inr f ↦ f
    | inl t ↦ let again = (r.were_free i t).1.0 in ground (arith, mark i)
  ]

  Claimed-chunk :
      Claimed interested (set_bit b i 1) td' out → Claimed interested b td' (some i ∷ out)
  Claimed-chunk r = record {
    same_count = omega (arith, r.same_count, counts-set_bit b i 1);
    has_claims = r.has_claims;
    distinct = (not_again r, r.distinct);
    were_free = λ j m. elim (ℕ_discrete i j) [
      | yes e ↦ rw (← e) (lt, free)
      | no n ↦
          let late = r.were_free j (ground arith) in
          let same : bit (set_bit b i 1) j ≡ bit b j = ground (arith, mark j) in
          (omega (arith, counts-set_bit b i 1), (sym same ∙ late.1.0, late.1.1))
    ];
    marks = λ j. ground (arith, r.marks j, mark j);
  }

module _ {interested : Bitfield} (w : IsValid interested) (clock : ℕ → ℕ) (timeout : ℕ)
    (pos : 0 < timeout) where
  add_claim_lem :
      (td : TorrentData) (now i : ℕ)
      → add_claim td timeout now i ≡ record td {
        claims = record { deadline = now + timeout * 1000; chunk_id = i } ∷ td.claims;
        claimed = set_bit td.claimed i 1;
      }
  unfolding add_claim
  add_claim_lem td now i = ground arith

  -- One round, by what the scan finds.
  round-Claimed :
      (rounds round : ℕ) (td : TorrentData) (f : Found)
      → HasClaims td.claimed td.claims
      → td.claimed.bit_count ≤ interested.bit_count
      → find_chunk td.claimed interested 0 td.claimed.bit_count ≡ f
      → IsFirst td.claimed interested 0 td.claimed.bit_count f
      → ((td₁ : TorrentData)
          → HasClaims td₁.claimed td₁.claims
          → td₁.claimed.bit_count ≤ interested.bit_count
          → (out : List (Option ℕ)) × (td' : TorrentData) × (claim_rounds clock interested timeout
                (round + 1)
                rounds
                td₁
              ≡ some (out, td'))
            × Claimed interested td₁.claimed td' out)
      → (out : List (Option ℕ)) × (td' : TorrentData) × (claim_rounds clock interested timeout round
            (suc rounds)
            td
          ≡ some (out, td'))
        × Claimed interested td.claimed td' out
  unfolding claim_rounds
  round-Claimed rounds round td out_of_bounds h covers e first ih = absurd first
  round-Claimed rounds round td nothing h covers e first ih =
      let (out, td', run, r) = ih td h covers in
      (
        none ∷ out,
        td',
        rw (e, claim_rounds, run),
        record {
          same_count = r.same_count;
          has_claims = r.has_claims;
          distinct = r.distinct;
          were_free = r.were_free;
          marks = r.marks;
        },
      )
  round-Claimed rounds round td (chunk i) h covers e (lo, hi, free, before) ih =
      let (out, td', run, r) =
        ih
          (record td {
            claims = record { deadline = clock round + timeout * 1000; chunk_id = i } ∷ td.claims;
            claimed = set_bit td.claimed i 1;
          })
          (claim-HasClaims h.valid i hi _ td.claims free.0 h.held)
          (omega (arith, counts-set_bit td.claimed i 1)) in
      (
        some i ∷ out,
        td',
        rw (e, claim_rounds, add_claim_lem, run),
        Claimed-chunk interested td.claimed td' i out h.valid hi free r,
      )

  rounds-Claimed :
      (rounds round : ℕ) (td : TorrentData)
      → HasClaims td.claimed td.claims
      → td.claimed.bit_count ≤ interested.bit_count
      → (out : List (Option ℕ)) × (td' : TorrentData) × (claim_rounds clock interested timeout round
            rounds td
          ≡ some (out, td'))
        × Claimed interested td.claimed td' out
  rounds-Claimed zero round td h covers = (
    [],
    td,
    unfold claim_rounds in refl,
    record {
      same_count = refl;
      has_claims = h;
      distinct = tt;
      were_free = λ j m. cc;
      marks = λ j. refl;
    },
  )
  rounds-Claimed (suc rounds) round td h covers =
      round-Claimed rounds round td _ h covers refl (scan_lem h.valid w covers)
        (rounds-Claimed rounds (round + 1))

  -- On initialized data whose claims and bits agree, `torrent_data_claim_chunk` with a timeout
  -- hands out distinct chunks that the peer has and nobody had claimed, marks exactly these, keeps
  -- claims and bits in agreement, and succeeds if it found any. The bit field of the peer is valid
  -- and has at least as many bits.
  pub claim_chunk_lem :
      (td : TorrentData) (num_chunks : ℕ)
      → td.initialized ≡ 1
      → HasClaims td.claimed td.claims
      → td.claimed.bit_count ≤ interested.bit_count
      → (out : List (Option ℕ)) × (td' : TorrentData) × (torrent_data_claim_chunk clock td
            interested timeout num_chunks
          ≡ some (if any_found out then exit_success else exit_failure, out, td'))
        × Claimed interested td.claimed td' out
  unfolding torrent_data_claim_chunk claim_status
  claim_chunk_lem td n e h covers =
      let (out, td', run, r) = rounds-Claimed n 0 td h covers in
      let on : (td.initialized == 1) ≡ true = ground arith in (out, td', rw (on, run) refl, r)

  -- What a call returned is what `claim_chunk_lem` says of it.
  pub claim_result :
      (td td' : TorrentData) (n : ℕ) (s : Status) (out : List (Option ℕ))
      → td.initialized ≡ 1
      → HasClaims td.claimed td.claims
      → td.claimed.bit_count ≤ interested.bit_count
      → torrent_data_claim_chunk clock td interested timeout n ≡ some (s, out, td')
      → Claimed interested td.claimed td' out
  claim_result td td' n s out e h covers p =
      let (out', u, run, r) = claim_chunk_lem td n e h covers in
      let all = sym run ∙ p in
      let same : out' ≡ out = cc all in let same' : u ≡ td' = cc all in rw (← same, ← same') r
