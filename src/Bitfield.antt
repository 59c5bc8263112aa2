-- ===== src/Bitfield.antt =====
-- src/bitfield/bitfield.c: a field of bits packed into bytes, the highest bit of a byte first.
mod Tests
pub mod Laws
pub mod Fresh
use Prim.Native.Nat.{bit_and, bit_or}
use uvg_torrent_c.Prelude.{
  ℕ, zero, suc, ◌+◌, ◌-◌, ◌*◌, ◌/◌, ◌%◌, ◌^◌, Bool, true, false, not, List, Option, none, some, ltb,
  ◌==◌, if◌then◌else◌, get_elem?, set, replicate,
}

-- `struct Bitfield`; the mutex is taken by the callers that need it, see `TorrentData`.
pub record Bitfield : Type 0 where
  pub bit_count : ℕ
  pub bytes_count : ℕ
  pub bytes : List ℕ

-- `0x80 >> bit_index`
abbrev pub mask : ℕ → ℕ
mask bit_index = 0x80 / 2 ^ bit_index

-- `byte &= ~mask` and `byte |= mask`, on a `uint8_t`; any other `val` changes nothing.
unfoldable pub set_in_byte : ℕ → ℕ → ℕ → ℕ
set_in_byte byte bit_index val =
    if val == 0
    then bit_and byte (255 - mask bit_index)
    else if val == 1
    then bit_or byte (mask bit_index)
    else byte

-- `(int) ((byte & mask) != 0)`
unfoldable pub get_in_byte : ℕ → ℕ → ℕ
get_in_byte byte bit_index = if bit_and byte (mask bit_index) == 0 then 0 else 1

-- A write past the bytes changes nothing here; `Laws.IsValid` rules it out.
unfoldable pub set_bit : Bitfield → ℕ → ℕ → Bitfield
set_bit b bit val =
    if ltb bit b.bit_count
    then record b {
      bytes = elim (get_elem? b.bytes (bit / 8)) [
        | none ↦ b.bytes
        | some byte ↦ set b.bytes (bit / 8) (set_in_byte byte (bit % 8) val)
      ];
    }
    else b

-- There is no test against `bit_count`: `none` is a read past the bytes.
unfoldable pub get_bit : Bitfield → ℕ → Option ℕ
get_bit b bit = elim (get_elem? b.bytes (bit / 8)) [
  | none ↦ none
  | some byte ↦ some (get_in_byte byte (bit % 8))
]

-- `for (int i = 0; i < bit_count; i++) bitfield_set_bit(b, i, val)`, over the rounds left.
unfoldable pub set_from : ℕ → ℕ → ℕ → Bitfield → Bitfield
set_from zero i val b = b
set_from (suc rounds) i val b = set_from rounds (i + 1) val (set_bit b i val)

unfoldable pub new : ℕ → ℕ → ℕ → Bitfield
new bit_count default_bit_value default_byte_value =
    let bytes_count = (bit_count + 7) / 8 in
    set_from bit_count 0 default_bit_value (record {
      bit_count = bit_count;
      bytes_count = bytes_count;
      bytes = replicate bytes_count default_byte_value;
    })
