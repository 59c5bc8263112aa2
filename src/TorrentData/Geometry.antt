-- ===== src/TorrentData/Geometry.antt =====
-- How src/torrent/torrent_data.c cuts the data: `torrent_data_get_chunk_info` and
-- `torrent_data_get_piece_info`.
use uvg_torrent_c.Prelude.{
  dec_lt, ℕ, suc, ◌+◌, ◌-◌, ◌*◌, ◌/◌, ◌%◌, ◌^◌, ◌≤◌, ◌<◌, ◌≡◌, ◌∙◌, ap, arith, min,
}
use native.Mathlib.Nat.{
  le-div_iff_mul-le, lt-mul-div-succ, div-lt_iff_lt-mul, mul-div-mul_left, div-le_self, div-add-mod,
  mod-lt,
}
use uvg_torrent_c.Prelude.Words.{word}
use uvg_torrent_c.TorrentData.{
  TorrentData, ChunkInfo, PieceInfo, info, count_of, torrent_data_get_chunk_info,
  torrent_data_get_piece_info,
}

-- The sizes of a torrent that is initialized: a piece is a number of whole chunks, there is some
-- data, no sum of sizes wraps, and the ids are `int`s.
pub record IsSized (td : TorrentData) : Type 0 where
  pub chunk_pos : 0 < td.chunk_size
  pub chunks_per_piece : ℕ
  pub whole_chunks : td.piece_size ≡ td.chunk_size * chunks_per_piece
  pub some_chunks : 0 < chunks_per_piece
  pub data_pos : 0 < td.data_size
  pub small : td.data_size + td.piece_size < word
  pub int_ids : td.data_size < td.chunk_size * 2 ^ 31
  pub pieces_counted : td.piece_count ≡ count_of td.data_size td.piece_size
  pub chunks_counted : td.chunk_count ≡ count_of td.data_size td.chunk_size

-- Rounding up: the last of `(d + (c - 1)) / c` parts of size `c` begins before `d`, and ends there or
-- behind it.
pub ceil_lower : (d c i : ℕ) → 0 < c → i < (d + (c - 1)) / c → c * i < d
ceil_lower d c i pos h =
    let whole : suc i * c ≤ d + (c - 1) =
      (le-div_iff_mul-le {k = c} {x = suc i} {y = d + (c - 1)} pos).0 h in
    omega arith

pub ceil_upper : (d c : ℕ) → 0 < c → d ≤ c * ((d + (c - 1)) / c)
ceil_upper d c pos = omega (arith, lt-mul-div-succ (d + (c - 1)) {b = c} pos)

-- The code's count does not wrap.
pub count_of_lem :
    (d c : ℕ) → 0 < c → d + c < word → d < c * 2 ^ 31 → count_of d c ≡ (d + (c - 1)) / c
count_of_lem d c pos small int =
    let sum : (d + (c + word - 1) % word) % word ≡ d + (c - 1) = omega arith in
    let few : (d + (c - 1)) / c < 2 ^ 31 + 1 =
      (div-lt_iff_lt-mul {k = c} {x = d + (c - 1)} {y = 2 ^ 31 + 1} pos).1 (omega arith) in
    rw sum (omega arith)

module _ {td : TorrentData} (w : IsSized td) where
  pub chunk_le_piece : td.chunk_size ≤ td.piece_size
  chunk_le_piece = rw w.whole_chunks (grind (arith, w.some_chunks))

  pub chunk_count-div : td.chunk_count ≡ (td.data_size + (td.chunk_size - 1)) / td.chunk_size
  chunk_count-div =
      w.chunks_counted
      ∙ count_of_lem td.data_size td.chunk_size w.chunk_pos (omega (arith, w.small, chunk_le_piece))
          w.int_ids

  pub piece_pos : 0 < td.piece_size
  piece_pos = omega (arith, w.chunk_pos, chunk_le_piece)

  pub piece_count-div : td.piece_count ≡ (td.data_size + (td.piece_size - 1)) / td.piece_size
  piece_count-div =
      w.pieces_counted
      ∙ count_of_lem td.data_size td.piece_size piece_pos w.small
          (omega (arith, w.int_ids, chunk_le_piece))

  -- A chunk begins inside the data.
  pub chunk_begins : (i : ℕ) → i < td.chunk_count → td.chunk_size * i < td.data_size
  chunk_begins i h = ceil_lower td.data_size td.chunk_size i w.chunk_pos (rw chunk_count-div at h)

  pub piece_begins : (i : ℕ) → i < td.piece_count → td.piece_size * i < td.data_size
  piece_begins i h = ceil_lower td.data_size td.piece_size i piece_pos (rw piece_count-div at h)

  chunk_in_piece : (i : ℕ) → (td.chunk_size * i) / td.piece_size ≡ i / w.chunks_per_piece
  chunk_in_piece i = rw w.whole_chunks (mul-div-mul_left i w.chunks_per_piece w.chunk_pos)

  pub chunk_info_lem :
      (i : ℕ)
      → i < td.chunk_count
      → torrent_data_get_chunk_info td i
        ≡ info (record {
          chunk_id = i;
          piece_id = i / w.chunks_per_piece;
          chunk_size = min td.chunk_size (td.data_size - td.chunk_size * i);
          chunk_offset = td.chunk_size * i;
        })
  unfolding torrent_data_get_chunk_info
  chunk_info_lem i h =
      let begins = chunk_begins i h in
      let offset : (td.chunk_size * i) % word ≡ td.chunk_size * i = omega (arith, w.small) in
      let id : i / w.chunks_per_piece < 2 ^ 32 =
        omega (arith, w.chunks_counted, div-le_self i w.chunks_per_piece) in
      rw (offset, chunk_in_piece i) (ground (arith, piece_pos))

  pub piece_info_lem :
      (i : ℕ)
      → i < td.piece_count
      → torrent_data_get_piece_info td i
        ≡ info (record {
          piece_id = i;
          piece_size = min td.piece_size (td.data_size - td.piece_size * i);
          piece_offset = td.piece_size * i;
        })
  unfolding torrent_data_get_piece_info
  piece_info_lem i h =
      let begins = piece_begins i h in
      let offset : (td.piece_size * i) % word ≡ td.piece_size * i = omega (arith, w.small) in
      rw offset (ground (arith, piece_pos))

  -- A chunk is the chunks of the pieces before its own, and those before it in its own piece.
  pub chunk_split :
      (i : ℕ)
      → (td.chunk_size * i
          ≡ td.piece_size * (i / w.chunks_per_piece) + td.chunk_size * (i % w.chunks_per_piece))
        × (td.chunk_size * (i % w.chunks_per_piece) + td.chunk_size ≤ td.piece_size)
  chunk_split i =
      let k = w.chunks_per_piece in
      let parts : k * (i / k) + i % k ≡ i = div-add-mod i k in
      let below : i % k < k = mod-lt i w.some_chunks in
      let scaled : td.chunk_size * (i % k) + td.chunk_size ≤ td.chunk_size * k = grind arith in
      rw w.whole_chunks (omega (arith, ap (λ (n : ℕ). td.chunk_size * n) parts), scaled)

  pub piece_of_chunk : (i : ℕ) → i < td.chunk_count → i / w.chunks_per_piece < td.piece_count
  piece_of_chunk i h =
      let q = i / w.chunks_per_piece in
      let upper : td.data_size ≤ td.piece_size * td.piece_count =
        rw piece_count-div (ceil_upper td.data_size td.piece_size piece_pos) in
      elim (dec_lt q td.piece_count) [
        | yes b ↦ b
        | no n ↦
            let ge : td.piece_count ≤ q = omega arith in
            let scaled : td.piece_size * td.piece_count ≤ td.piece_size * q = grind arith in
            absurd (omega (arith, chunk_split i, chunk_begins i h))
      ]

  -- Where the sizes of the data are set and agree, a chunk that exists has a size, stands in the
  -- piece that its info names, and that piece is no longer than the buffer that the code allocates
  -- for it and ends within the data.
  pub chunk_fits :
      (i : ℕ)
      → i < td.chunk_count
      → (ci : ChunkInfo) × (pi : PieceInfo) × (torrent_data_get_chunk_info td i ≡ info ci)
        × (torrent_data_get_piece_info td ci.piece_id ≡ info pi)
        × (0 < ci.chunk_size)
        × (pi.piece_offset ≤ ci.chunk_offset)
        × (ci.chunk_offset + ci.chunk_size ≤ pi.piece_offset + pi.piece_size)
        × (pi.piece_size ≤ td.piece_size)
        × (pi.piece_offset + pi.piece_size ≤ td.data_size)
  chunk_fits i h =
      let q = i / w.chunks_per_piece in
      let inside = piece_of_chunk i h in
      let begins = chunk_begins i h in
      let (split, room) = chunk_split i in
      let begins' = piece_begins q inside in
      (
        record {
          chunk_id = i;
          piece_id = q;
          chunk_size = min td.chunk_size (td.data_size - td.chunk_size * i);
          chunk_offset = td.chunk_size * i;
        },
        record {
          piece_id = q;
          piece_size = min td.piece_size (td.data_size - td.piece_size * q);
          piece_offset = td.piece_size * q;
        },
        chunk_info_lem i h,
        piece_info_lem q inside,
        omega (arith, w.chunk_pos),
        omega arith,
        omega (arith, w.chunk_pos),
        omega arith,
        omega arith,
      )

  -- Where the sizes of the data are set and agree, a chunk ends where the next one begins or, if
  -- that is earlier, where the data ends; the last chunk ends there.
  pub chunks_tile :
      (i : ℕ)
      → i < td.chunk_count
      → (ci : ChunkInfo) × (torrent_data_get_chunk_info td i ≡ info ci)
        × (ci.chunk_offset + ci.chunk_size ≡ min (td.chunk_size * (i + 1)) td.data_size)
        × (i + 1 ≡ td.chunk_count → ci.chunk_offset + ci.chunk_size ≡ td.data_size)
  chunks_tile i h =
      let begins = chunk_begins i h in
      let upper : td.data_size ≤ td.chunk_size * td.chunk_count =
        rw chunk_count-div (ceil_upper td.data_size td.chunk_size w.chunk_pos) in
      (
        record {
          chunk_id = i;
          piece_id = i / w.chunks_per_piece;
          chunk_size = min td.chunk_size (td.data_size - td.chunk_size * i);
          chunk_offset = td.chunk_size * i;
        },
        chunk_info_lem i h,
        omega arith,
        λ e. omega (arith, ap (λ (n : ℕ). td.chunk_size * n) e),
      )
