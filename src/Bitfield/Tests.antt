-- ===== src/Bitfield/Tests.antt =====
-- Runs of the code of src/bitfield/bitfield.c, and the laws at concrete bit fields.
use uvg_torrent_c.Prelude.{ℕ, zero, suc, get_or, ◌<◌, ◌≡◌, refl, [], ◌∷◌, arith, some, none}
use uvg_torrent_c.Bitfield.{Bitfield, get_in_byte, set_in_byte, set_bit, get_bit, set_from, new}
use uvg_torrent_c.Bitfield.Laws.{IsValid, set_bit-IsValid}
use uvg_torrent_c.Bitfield.Fresh.{new-IsValid}

abbrev twelve : Bitfield
twelve = record { bit_count = 12; bytes_count = 2; bytes = 0xA0 ∷ 0x0F ∷ [] }

twelve-IsValid : IsValid twelve
twelve-IsValid = record { sized = refl; allocated = refl; in_range = bytes_below }
  where
    bytes_below : (i : ℕ) → get_or twelve.bytes i 0 < 256
    bytes_below zero = omega arith
    bytes_below (suc zero) = omega arith
    bytes_below (suc (suc i)) = omega arith

reads :
    (get_bit twelve 0 ≡ some 1)
    × (get_bit twelve 1 ≡ some 0)
    × (get_bit twelve 15 ≡ some 1)
    × (get_bit twelve 16 ≡ none)
unfolding get_bit get_in_byte
reads = (refl, refl, refl, refl)

new_twelve : new 12 0 0xFF ≡ record { bit_count = 12; bytes_count = 2; bytes = 0x00 ∷ 0x0F ∷ [] }
unfolding new set_from set_bit set_in_byte
new_twelve = refl

set_bit-IsValid_example : IsValid (set_bit twelve 9 1)
set_bit-IsValid_example = set_bit-IsValid 9 1 twelve-IsValid (omega arith)

new-IsValid_example : IsValid (new 12 0 0xFF)
new-IsValid_example = new-IsValid 0 (omega arith) 12 0xFF (omega arith)
