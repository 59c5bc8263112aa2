-- ===== src/TorrentData/Claims/Release.antt =====
-- `torrent_data_release_expired_claims` of src/torrent/torrent_data.c.
use uvg_torrent_c.Prelude.{
  ℕ, ◌≤◌, ◌<◌, ◌≡◌, refl, ◌∙◌, Bool, true, false, ◌&&◌, ◌||◌, List, [], ◌∷◌, some, arith, ltb, ◌==◌,
  if◌then◌else◌, Bool-cases, inl, inr,
}
use uvg_torrent_c.Bitfield.{Bitfield, set_bit}
use uvg_torrent_c.Bitfield.Laws.{
  IsValid, bit, get_bit-bit, set_bit-IsValid, bit-set_bit, counts-set_bit,
}
use uvg_torrent_c.TorrentData.{TorrentData, Claim}
use uvg_torrent_c.TorrentData.Claims.{
  release_claim, release_loop, torrent_data_release_expired_claims,
}
use uvg_torrent_c.TorrentData.Claims.Invariant.{Unclaimed, AllHeld, HasClaims}

-- The claims whose deadline has not passed, in the same order.
abbrev pub unexpired : ℕ → List Claim → List Claim
unexpired now [] = []
unexpired now (c ∷ cs) = if ltb c.deadline now then unexpired now cs else c ∷ unexpired now cs

-- A claim for the chunk has expired.
abbrev pub expired : ℕ → List Claim → ℕ → Bool
expired now [] j = false
expired now (c ∷ cs) j = (ltb c.deadline now && (c.chunk_id == j)) || expired now cs j

Unclaimed-unexpired :
    (now i : ℕ) (cs : List Claim) → Unclaimed i cs → Unclaimed i (unexpired now cs)
Unclaimed-unexpired now i [] u = tt
Unclaimed-unexpired now i (c ∷ cs) u = elim (Bool-cases (ltb c.deadline now)) [
  | inl t ↦ rw t (Unclaimed-unexpired now i cs u.1)
  | inr f ↦ rw f (u.0, Unclaimed-unexpired now i cs u.1)
]

expired-false : (now i : ℕ) (cs : List Claim) → Unclaimed i cs → expired now cs i ≡ false
expired-false now i [] u = refl
expired-false now i (c ∷ cs) u = ground (arith, expired-false now i cs u.1)

module _ (now : ℕ) {completed : Bitfield} (w : IsValid completed) where
  -- What the walk leaves: the unexpired claims, and free chunks in place of expired claims on chunks
  -- that are not completed.
  pub record Released (b : Bitfield) (cs : List Claim) (b' : Bitfield) : Type 0 where
    pub same_count : b'.bit_count ≡ b.bit_count
    pub has_claims : HasClaims b' (unexpired now cs)
    pub frees :
        (j : ℕ) → bit b' j ≡ (if expired now cs j && (bit completed j == 0) then 0 else bit b j)

  module _ (b : Bitfield) (c : Claim) (v : IsValid b) (lt : c.chunk_id < b.bit_count)
      (covers : b.bit_count ≤ completed.bit_count) where
    freed : Bitfield
    freed = if bit completed c.chunk_id == 0 then set_bit b c.chunk_id 0 else b

    release_claim-freed : release_claim completed c b ≡ some freed
    unfolding release_claim freed
    release_claim-freed = ground (arith, get_bit-bit c.chunk_id w (omega arith))

    freed-IsValid : IsValid freed
    unfolding freed
    freed-IsValid = elim (Bool-cases (bit completed c.chunk_id == 0)) [
      | inl t ↦ rw t (set_bit-IsValid c.chunk_id 0 v (omega arith))
      | inr f ↦ rw f v
    ]

    count-freed : freed.bit_count ≡ b.bit_count
    unfolding freed
    count-freed = ground (arith, counts-set_bit b c.chunk_id 0)

    bit-freed :
        (j : ℕ) → bit freed j ≡ (if (c.chunk_id == j) && (bit completed j == 0) then 0 else bit b j)
    unfolding freed
    bit-freed j = ground (arith, bit-set_bit c.chunk_id 0 v (omega arith) j lt)

    freed-AllHeld : (cs : List Claim) → Unclaimed c.chunk_id cs → AllHeld b cs → AllHeld freed cs
    freed-AllHeld [] u h = tt
    freed-AllHeld (d ∷ cs) u h = (
      omega (arith, count-freed, h.0),
      ground (arith, bit-freed d.chunk_id, u.0, h.1),
      h.2,
      freed-AllHeld cs u.1 h.3,
    )

  loop-Released :
      (cs : List Claim) (b : Bitfield)
      → IsValid b
      → AllHeld b cs
      → b.bit_count ≤ completed.bit_count
      → (b' : Bitfield) × (release_loop now completed cs b ≡ some (unexpired now cs, b'))
        × Released b cs b'
  unfolding release_loop
  loop-Released [] b v h covers = (
    b,
    refl,
    record { same_count = refl; has_claims = record { valid = v; held = tt }; frees = λ j. refl },
  )
  loop-Released (c ∷ cs) b v (lt, held, apart, rest) covers =
      elim (Bool-cases (ltb c.deadline now)) [
        | inl t ↦
            let b₁ = freed b c v lt covers in
            let (b', run, r) =
              loop-Released cs b₁ (freed-IsValid b c v lt covers)
                (freed-AllHeld b c v lt covers cs apart rest)
                (omega (arith, count-freed b c v lt covers)) in
            (
              b',
              rw (t, release_claim-freed b c v lt covers) run,
              record {
                same_count = r.same_count ∙ count-freed b c v lt covers;
                has_claims = rw t r.has_claims;
                frees = λ j. ground (arith, r.frees j, bit-freed b c v lt covers j);
              },
            )
        | inr f ↦
            let (b', run, r) = loop-Released cs b v rest covers in
            (
              b',
              rw (f, run) refl,
              record {
                same_count = r.same_count;
                has_claims = record {
                  valid = r.has_claims.valid;
                  held = rw f (
                    omega (arith, r.same_count),
                    ground (arith, r.frees c.chunk_id, expired-false now c.chunk_id cs apart),
                    Unclaimed-unexpired now c.chunk_id cs apart,
                    r.has_claims.held,
                  );
                };
                frees = λ j. ground (arith, r.frees j);
              },
            )
      ]

-- On initialized data whose claims and bits agree, `torrent_data_release_expired_claims` keeps
-- exactly the claims whose deadline has not passed, and their chunks stay claimed; of the others it
-- frees the chunks that are not completed, and no bit besides. The bit field of completed chunks is
-- valid and has at least as many bits.
pub release_expired_lem :
    (now : ℕ) (td : TorrentData)
    → td.initialized ≡ 1
    → HasClaims td.claimed td.claims
    → IsValid td.completed
    → td.claimed.bit_count ≤ td.completed.bit_count
    → (b' : Bitfield) × (torrent_data_release_expired_claims now td
        ≡ some (record td { claims = unexpired now td.claims; claimed = b' }))
      × HasClaims b' (unexpired now td.claims)
      × ((j : ℕ)
          → bit b' j ≡ (
              if expired now td.claims j && (bit td.completed j == 0) then 0 else bit td.claimed j))
unfolding torrent_data_release_expired_claims
release_expired_lem now td e h w covers =
    let (b', run, r) = loop-Released now w td.claims td.claimed h.valid h.held covers in
    let on : (td.initialized == 1) ≡ true = ground arith in
    (b', rw (on, run) refl, r.has_claims, r.frees)
