-- ===== src/Bitfield/Laws.antt =====
-- What the bit operations of src/bitfield/bitfield.c promise to their callers.
use uvg_torrent_c.Prelude.{
  ℕ, ◌+◌, ◌/◌, ◌%◌, ◌≤◌, ◌<◌, ◌≡◌, refl, Bool, true, ◌&&◌, some, arith, dec_lt, ℕ_discrete, ◌∙◌,
  ltb, lt→ltb, ◌==◌, if◌then◌else◌, length, get_or, set, length-set, get_or-set_self, get_or-set_ne,
  get_elem?-get_or,
}
use uvg_torrent_c.Prelude.Bits.{table_holds, table_row}
use uvg_torrent_c.Bitfield.{Bitfield, set_in_byte, get_in_byte, set_bit, get_bit}

-- One entry of the table: a write of `v` at bit `i` of byte `b`, read back at bit `j`.
abbrev entry : ℕ → ℕ → ℕ → ℕ → Bool
entry v i j b =
    (get_in_byte (set_in_byte b i v) j == (if i == j then v else get_in_byte b j))
    && ltb (set_in_byte b i v) 256

byte_table :
    table_holds
      (λ v. table_holds (λ i. table_holds (λ j. table_holds (λ b. entry v i j b) 256) 8) 8)
      2
    ≡ true
unfolding table_holds set_in_byte get_in_byte
byte_table = refl

pub set_in_byte_laws :
    (v i j b : ℕ)
    → v < 2
    → i < 8
    → j < 8
    → b < 256
    → (get_in_byte (set_in_byte b i v) j ≡ (if i == j then v else get_in_byte b j))
      × (set_in_byte b i v < 256)
set_in_byte_laws v i j b hv hi hj hb =
    let row = table_row _ 2 v hv byte_table in
    let column = table_row _ 8 i hi row in
    let line = table_row _ 8 j hj column in
    let cell : entry v i j b ≡ true = table_row _ 256 b hb line in ground arith

pub record IsValid (b : Bitfield) : Type 0 where
  pub sized : b.bytes_count ≡ (b.bit_count + 7) / 8
  pub allocated : length b.bytes ≡ b.bytes_count
  pub in_range : (i : ℕ) → get_or b.bytes i 0 < 256

-- `bitfield_get_bit` reads inside the bytes, and its value.
pub get_bit-get_or :
    (b : Bitfield) (i : ℕ)
    → i / 8 < length b.bytes
    → get_bit b i ≡ some (get_in_byte (get_or b.bytes (i / 8) 0) (i % 8))
unfolding get_bit
get_bit-get_or b i h = rw (get_elem?-get_or b.bytes (i / 8) 0 h, get_bit)

pub set_bit-set :
    (b : Bitfield) (i v : ℕ)
    → i / 8 < length b.bytes
    → i < b.bit_count
    → set_bit b i v
      ≡ record b { bytes = set b.bytes (i / 8) (set_in_byte (get_or b.bytes (i / 8) 0) (i % 8) v) }
unfolding set_bit
set_bit-set b i v h k = rw (lt→ltb _ _ k, get_elem?-get_or b.bytes (i / 8) 0 h)

pub set_bit_self : (b : Bitfield) (i v : ℕ) → b.bit_count ≤ i → set_bit b i v ≡ b
unfolding set_bit
set_bit_self b i v h = ground arith

-- The bits as a function of the index.
unfoldable pub bit : Bitfield → ℕ → ℕ
bit b i = get_in_byte (get_or b.bytes (i / 8) 0) (i % 8)

pub bit-lt : (b : Bitfield) (i : ℕ) → bit b i < 2
unfolding bit get_in_byte
bit-lt b i = ground arith

pub index_in_bytes : {b : Bitfield} (i : ℕ) → IsValid b → i < b.bit_count → i / 8 < length b.bytes
index_in_bytes i w h = omega arith

pub get_bit-bit :
    {b : Bitfield} (i : ℕ) → IsValid b → i < b.bit_count → get_bit b i ≡ some (bit b i)
unfolding bit
get_bit-bit {b} i w h = get_bit-get_or b i (index_in_bytes i w h)

module _ {b : Bitfield} (i v : ℕ) (w : IsValid b) (hv : v < 2) where
  set_bytes-in_range : (k : ℕ) → i < b.bit_count → get_or (set_bit b i v).bytes k 0 < 256
  set_bytes-in_range k h =
      let byte = get_or b.bytes (i / 8) 0 in
      rw (set_bit-set b i v (index_in_bytes i w h) h) (elim (ℕ_discrete (i / 8) k) [
        | yes e ↦
            rw
              (
                ← e,
                get_or-set_self b.bytes (i / 8) (set_in_byte byte (i % 8) v) 0
                    (index_in_bytes i w h),
              )
              (set_in_byte_laws v (i % 8) 0 byte hv (omega arith) (omega arith)
                (w.in_range (i / 8))).1
        | no n ↦
            rw (get_or-set_ne b.bytes (i / 8) k (set_in_byte byte (i % 8) v) 0 n) (w.in_range k)
      ])

  pub set_bit-IsValid : IsValid (set_bit b i v)
  set_bit-IsValid = elim (dec_lt i b.bit_count) [
    | no n ↦ rw (set_bit_self b i v (omega arith)) w
    | yes h ↦ record {
      sized = rw (set_bit-set b i v (index_in_bytes i w h) h) w.sized;
      allocated =
          rw (set_bit-set b i v (index_in_bytes i w h) h)
            (length-set b.bytes (i / 8) _ ∙ w.allocated);
      in_range = λ k. set_bytes-in_range k h;
    }
  ]

  -- In a valid bit field a write of 0 or 1 inside the field changes its own bit and no other.
  pub bit-set_bit :
      (j : ℕ) → i < b.bit_count → bit (set_bit b i v) j ≡ (if i == j then v else bit b j)
  unfolding bit
  bit-set_bit j h =
      let byte = get_or b.bytes (i / 8) 0 in
      let inside = index_in_bytes i w h in
      rw (set_bit-set b i v inside h) (elim (ℕ_discrete (i / 8) (j / 8)) [
        | yes e ↦
            rw (← e, get_or-set_self b.bytes (i / 8) (set_in_byte byte (i % 8) v) 0 inside)
              (ground (
                arith,
                set_in_byte_laws v (i % 8) (j % 8) byte hv (omega arith) (omega arith)
                    (w.in_range (i / 8)),
              ))
        | no n ↦
            rw (get_or-set_ne b.bytes (i / 8) (j / 8) (set_in_byte byte (i % 8) v) 0 n)
              (ground arith)
      ])

pub counts-set_bit :
    (b : Bitfield) (i v : ℕ)
    → ((set_bit b i v).bit_count ≡ b.bit_count) × ((set_bit b i v).bytes_count ≡ b.bytes_count)
unfolding set_bit
counts-set_bit b i v = ground arith
