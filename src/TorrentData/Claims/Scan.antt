-- ===== src/TorrentData/Claims/Scan.antt =====
-- The scan of `torrent_data_claim_chunk` in src/torrent/torrent_data.c for a free chunk.
use uvg_torrent_c.Prelude.{
  ℕ, zero, suc, ◌+◌, ◌≤◌, ◌<◌, ◌≡◌, ◌&&◌, some, arith, ◌==◌, Bool-cases, inl, inr, ℕ_discrete,
}
use uvg_torrent_c.Bitfield.{Bitfield}
use uvg_torrent_c.Bitfield.Laws.{IsValid, bit, get_bit-bit}
use uvg_torrent_c.TorrentData.Claims.{Found, chunk, nothing, out_of_bounds, is_free, find_chunk}

-- Nobody has claimed the chunk, and the peer has it.
abbrev pub IsFree : Bitfield → Bitfield → ℕ → Type 0
IsFree claimed interested i = (bit claimed i ≡ 0) × (bit interested i ≡ 1)

-- The first free chunk from `i` on, before the end `e`; never a read out of bounds.
abbrev pub IsFirst : Bitfield → Bitfield → ℕ → ℕ → Found → Type 0
IsFirst claimed interested i e (chunk j) =
    (i ≤ j)
    × (j < e)
    × IsFree claimed interested j
    × ((k : ℕ) → i ≤ k → k < j → ¬ IsFree claimed interested k)
IsFirst claimed interested i e nothing = (k : ℕ) → i ≤ k → k < e → ¬ IsFree claimed interested k
IsFirst claimed interested i e out_of_bounds = ⊥

module _ {claimed interested : Bitfield} (v : IsValid claimed) (w : IsValid interested)
    (covers : claimed.bit_count ≤ interested.bit_count) where
  is_free_lem :
      (i : ℕ)
      → i < claimed.bit_count
      → is_free claimed interested i ≡ some ((bit claimed i == 0) && (bit interested i == 1))
  unfolding is_free
  is_free_lem i h = ground (arith, get_bit-bit i v h, get_bit-bit i w (omega arith))

  IsFirst-later :
      (i e : ℕ) (f : Found)
      → ¬ IsFree claimed interested i
      → IsFirst claimed interested (i + 1) e f
      → IsFirst claimed interested i e f
  IsFirst-later i e (chunk j) n (lo, hi, free, before) = (
    omega arith,
    hi,
    free,
    λ k a b. elim (ℕ_discrete i k) [ yes p ↦ rw (← p) n | no q ↦ before k (omega arith) b ],
  )
  IsFirst-later i e nothing n none_later =
      λ k a b. elim (ℕ_discrete i k) [ yes p ↦ rw (← p) n | no q ↦ none_later k (omega arith) b ]
  IsFirst-later i e out_of_bounds n h = h

  find_chunk-IsFirst :
      (rounds i : ℕ)
      → i + rounds ≤ claimed.bit_count
      → IsFirst claimed interested i (i + rounds) (find_chunk claimed interested i rounds)
  unfolding find_chunk
  find_chunk-IsFirst zero i h = λ k a b. absurd (omega arith)
  find_chunk-IsFirst (suc rounds) i h =
      let e : i + suc rounds ≡ (i + 1) + rounds = omega arith in
      elim (Bool-cases ((bit claimed i == 0) && (bit interested i == 1))) [
        | inl t ↦
            rw (is_free_lem i (omega arith), find_chunk, t)
              (omega arith, omega arith, ground arith, λ k a b. absurd (omega arith))
        | inr f ↦
            rw (is_free_lem i (omega arith), find_chunk, f, e)
              (IsFirst-later i ((i + 1) + rounds) _ (ground arith)
                (find_chunk-IsFirst rounds (i + 1) (omega arith)))
      ]

  -- The scan of all chunks finds the first free one, and nothing only if none is free.
  pub scan_lem :
      IsFirst claimed interested 0 claimed.bit_count
        (find_chunk claimed interested 0 claimed.bit_count)
  scan_lem =
      let e : 0 + claimed.bit_count ≡ claimed.bit_count = omega arith in
      rw e at (find_chunk-IsFirst claimed.bit_count 0 (omega arith))
