-- ===== src/Bitfield/Fresh.antt =====
-- `bitfield_new` of src/bitfield/bitfield.c: the loop that gives every bit its default value.
use uvg_torrent_c.Prelude.{
  ℕ, zero, suc, ◌+◌, ◌*◌, ◌/◌, ◌%◌, ◌≤◌, ◌<◌, ◌≡◌, refl, ◌∙◌, ◌&&◌, arith, ltb, leb, if◌then◌else◌,
  get_or, replicate, length-replicate,
}
use uvg_torrent_c.Bitfield.{Bitfield, get_in_byte, set_bit, set_from, new}
use uvg_torrent_c.Bitfield.Laws.{IsValid, bit, set_bit-IsValid, bit-set_bit, counts-set_bit}

get_or-replicate : (n i d : ℕ) → get_or (replicate n d) i 0 ≡ (if ltb i n then d else 0)
get_or-replicate zero i d = ground arith
get_or-replicate (suc n) zero d = ground arith
get_or-replicate (suc n) (suc i) d = get_or-replicate n i d ∙ ground arith

counts-set_from :
    (r i v : ℕ) (b : Bitfield)
    → ((set_from r i v b).bit_count ≡ b.bit_count)
      × ((set_from r i v b).bytes_count ≡ b.bytes_count)
unfolding set_from
counts-set_from zero i v b = (refl, refl)
counts-set_from (suc r) i v b =
    ground (arith, counts-set_from r (i + 1) v (set_bit b i v), counts-set_bit b i v)

module _ (v : ℕ) (hv : v < 2) where
  set_from-IsValid : (r i : ℕ) {b : Bitfield} → IsValid b → IsValid (set_from r i v b)
  unfolding set_from
  set_from-IsValid zero i w = w
  set_from-IsValid (suc r) i w = set_from-IsValid r (i + 1) (set_bit-IsValid i v w hv)

  bit-set_from :
      (r i j : ℕ) {b : Bitfield}
      → IsValid b
      → i + r ≤ b.bit_count
      → bit (set_from r i v b) j ≡ (if leb i j && ltb j (i + r) then v else bit b j)
  unfolding set_from
  bit-set_from zero i j w h = ground arith
  bit-set_from (suc r) i j {b} w h = ground (
    arith,
    bit-set_from r (i + 1) j (set_bit-IsValid i v w hv),
    bit-set_bit i v w hv j,
    counts-set_bit b i v,
  )

  module _ (n d : ℕ) (hd : d < 256) where
    blank-IsValid :
        IsValid
          (record { bit_count = n; bytes_count = (n + 7) / 8; bytes = replicate ((n + 7) / 8) d })
    blank-IsValid = record {
      sized = refl;
      allocated = length-replicate _ d;
      in_range = λ i. rw (get_or-replicate ((n + 7) / 8) i d) (ground arith);
    }

    pub new-IsValid : IsValid (new n v d)
    unfolding new
    new-IsValid = set_from-IsValid n 0 blank-IsValid

    -- In a new field the bits of the field have the first default, and the bits left over in the
    -- last byte have those of the second.
    pub bit-new :
        (j : ℕ)
        → bit (new n v d) j ≡ (
            if ltb j n
            then v
            else if ltb j (8 * ((n + 7) / 8))
            then get_in_byte d (j % 8)
            else get_in_byte 0 (j % 8))
    unfolding new bit
    bit-new j =
        bit-set_from n 0 j blank-IsValid (omega arith)
        ∙ rw (get_or-replicate ((n + 7) / 8) (j / 8) d) (ground arith)

pub counts-new : (n v d : ℕ) → ((new n v d).bit_count ≡ n) × ((new n v d).bytes_count ≡ (n + 7) / 8)
unfolding new
counts-new n v d = counts-set_from n 0 v _
