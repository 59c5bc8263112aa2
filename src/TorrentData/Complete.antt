-- ===== src/TorrentData/Complete.antt =====
-- `torrent_data_is_piece_complete` of src/torrent/torrent_data.c compares whole bytes; what that says
-- of the chunks of the piece.
use uvg_torrent_c.Prelude.{
  ◌↔◌, dec_lt, ℕ, zero, suc, ◌+◌, ◌*◌, ◌/◌, ◌%◌, ◌^◌, ◌≤◌, ◌<◌, ◌≡◌, refl, sym, ◌∙◌, Bool, true,
  not, arith, ◌==◌, if◌then◌else◌, get_or,
}
use native.Mathlib.Nat.{le-div_iff_mul-le, div-lt_iff_lt-mul, div-div-eq-div-mul}
use uvg_torrent_c.Prelude.Bits.{table_holds, table_row}
use uvg_torrent_c.Bitfield.{Bitfield, get_in_byte}
use uvg_torrent_c.Bitfield.Laws.{IsValid, bit}
use uvg_torrent_c.TorrentData.{
  TorrentData, all_full, uints_per_piece, torrent_data_is_piece_complete,
}

table-of_rows : (n : ℕ) (p : ℕ → Bool) → ((x : ℕ) → x < n → p x ≡ true) → table_holds p n ≡ true
unfolding table_holds
table-of_rows zero p h = refl
table-of_rows (suc n) p h = rw (h n (omega arith)) (table-of_rows n p (λ x lt. h x (omega arith)))

-- A byte is 0xFF exactly if its eight bits are 1.
abbrev byte_entry : ℕ → Bool
byte_entry b = if table_holds (λ j. get_in_byte b j == 1) 8 then b == 0xFF else not (b == 0xFF)

byte_table : table_holds byte_entry 256 ≡ true
unfolding table_holds get_in_byte
byte_table = refl

full_byte : (b : ℕ) → b < 256 → ((j : ℕ) → j < 8 → get_in_byte b j ≡ 1) → b ≡ 0xFF
full_byte b h ones =
    let entry : byte_entry b ≡ true = table_row _ 256 b h byte_table in
    let all : table_holds (λ j. get_in_byte b j == 1) 8 ≡ true =
      table-of_rows 8 _ (λ j lt. ground (arith, ones j lt)) in
    ground arith

bit_of_full : (j : ℕ) → j < 8 → get_in_byte 0xFF j ≡ 1
bit_of_full j h =
    let t : (get_in_byte 0xFF j == 1) ≡ true =
      table_row (λ j. get_in_byte 0xFF j == 1) 8 j h (unfold table_holds get_in_byte in refl) in
    ground arith

-- The loop over the bytes.
all_full_sound :
    (b : Bitfield) (i r x : ℕ)
    → all_full b i r ≡ true
    → i ≤ x
    → x < i + r
    → x < b.bytes_count
    → get_or b.bytes x 0 ≡ 0xFF
unfolding all_full
all_full_sound b i zero x h lo hi inside = absurd (omega arith)
all_full_sound b i (suc r) x h lo hi inside = elim (dec_lt i x) [
  | yes lt ↦ ground (arith, all_full_sound b (i + 1) r x)
  | no n ↦ let e : i ≡ x = omega arith in ground arith
]

all_full_complete :
    (b : Bitfield) (i r : ℕ)
    → ((x : ℕ) → i ≤ x → x < i + r → x < b.bytes_count → get_or b.bytes x 0 ≡ 0xFF)
    → all_full b i r ≡ true
unfolding all_full
all_full_complete b i zero h = refl
all_full_complete b i (suc r) h =
    let rest =
      all_full_complete b (i + 1) r (λ x lo hi inside. h x (omega arith) (omega arith) inside) in
    ground (arith, h i (omega arith) (omega arith))

-- The bits behind the last chunk are 1, as `bitfield_new` leaves them.
abbrev pub IsPadded : Bitfield → Type 0
IsPadded b = (j : ℕ) → b.bit_count ≤ j → j < 8 * b.bytes_count → bit b j ≡ 1

bit_lem : (b : Bitfield) (i : ℕ) → bit b i ≡ get_in_byte (get_or b.bytes (i / 8) 0) (i % 8)
unfolding bit
bit_lem b i = refl

module _ (td : TorrentData) (v : IsValid td.completed) (padded : IsPadded td.completed) (u p : ℕ)
    (u_pos : 0 < u) (whole : td.piece_size / td.chunk_size ≡ 8 * u) (int : 8 * u < 2 ^ 32) where
  uints : uints_per_piece td ≡ u
  uints = rw whole (omega arith)

  byte_in_piece : (x : ℕ) → (x / u ≡ p) ↔ ((p * u ≤ x) × (x < p * u + u))
  byte_in_piece x = (
    λ e. (
      (le-div_iff_mul-le {k = u} {x = p} {y = x} u_pos).0 (omega arith),
      omega (arith, (div-lt_iff_lt-mul {k = u} {x = x} {y = suc p} u_pos).0 (omega arith)),
    ),
    λ h. omega (
      arith,
      (le-div_iff_mul-le {k = u} {x = p} {y = x} u_pos).1 h.0,
      (div-lt_iff_lt-mul {k = u} {x = x} {y = suc p} u_pos).1 (omega arith),
    ),
  )

  complete_bit :
      torrent_data_is_piece_complete td p ≡ true
      → (i : ℕ) → i < td.completed.bit_count
      → i / (8 * u) ≡ p
      → bit td.completed i ≡ 1
  unfolding torrent_data_is_piece_complete bit
  complete_bit h i lt e =
      let (lo, hi) = (byte_in_piece (i / 8)).0 (div-div-eq-div-mul i 8 u ∙ e) in
      rw
        (all_full_sound td.completed (p * u) u (i / 8) (rw uints at h) lo hi
          (omega (arith, v.sized)))
        (bit_of_full (i % 8) (omega arith))

  ones_complete :
      ((i : ℕ) → i < td.completed.bit_count → i / (8 * u) ≡ p → bit td.completed i ≡ 1)
      → torrent_data_is_piece_complete td p ≡ true
  unfolding torrent_data_is_piece_complete
  ones_complete ones = rw uints (
      all_full_complete td.completed (p * u) u (λ x lo hi inside.
        full_byte (get_or td.completed.bytes x 0) (v.in_range x)
          (λ j lt. byte_bit x j lo hi inside lt)))
    where
      one_at :
          (x j : ℕ)
          → p * u ≤ x
          → x < p * u + u
          → x < td.completed.bytes_count
          → j < 8
          → bit td.completed (8 * x + j) ≡ 1
      one_at x j lo hi inside lt = elim (dec_lt (8 * x + j) td.completed.bit_count) [
        | yes h ↦
            let e : (8 * x + j) / 8 ≡ x = omega arith in
            ones (8 * x + j) h
              (sym (div-div-eq-div-mul (8 * x + j) 8 u) ∙ rw e ((byte_in_piece x).1 (lo, hi)))
        | no n ↦ padded (8 * x + j) (omega arith) (omega arith)
      ]

      byte_bit :
          (x j : ℕ)
          → p * u ≤ x
          → x < p * u + u
          → x < td.completed.bytes_count
          → j < 8
          → get_in_byte (get_or td.completed.bytes x 0) j ≡ 1
      byte_bit x j lo hi inside lt =
          let e : (8 * x + j) / 8 ≡ x = omega arith in
          let e' : (8 * x + j) % 8 ≡ j = omega arith in
          rw (bit_lem td.completed (8 * x + j), e, e') at (one_at x j lo hi inside lt)

  -- Where the chunks of a piece fill whole bytes, and the bits of the last byte that belong to no
  -- chunk are set, a piece is complete exactly if all its chunks are.
  pub is_piece_complete_iff :
      (torrent_data_is_piece_complete td p ≡ true)
      ↔ ((i : ℕ) → i < td.completed.bit_count → i / (8 * u) ≡ p → bit td.completed i ≡ 1)
  is_piece_complete_iff = (complete_bit, ones_complete)

-- A piece of fewer than eight chunks always counts as complete, whatever chunks are there.
pub small_piece_complete :
    (td : TorrentData) (p : ℕ)
    → td.piece_size / td.chunk_size < 8
    → torrent_data_is_piece_complete td p ≡ true
unfolding torrent_data_is_piece_complete all_full
small_piece_complete td p h = let e : uints_per_piece td ≡ 0 = omega arith in rw e
