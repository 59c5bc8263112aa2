-- ===== src/Prelude/Words.antt =====
-- Unsigned machine words: `size_t` and `uint64_t` arithmetic wraps at 2 ^ 64.
use Prim.Native.Nat.{ℕ, ◌+◌, ◌-◌, ◌*◌, ◌%◌, ◌^◌}
use mathlib.Core.Bool.{Bool}
use uvg_torrent_c.Prelude.Tests.{ltb, if◌then◌else◌}

abbrev pub word : ℕ
word = 2 ^ 64

abbrev pub add64 : ℕ → ℕ → ℕ
add64 a b = (a + b) % word

abbrev pub sub64 : ℕ → ℕ → ℕ
sub64 a b = (a + word - b) % word

abbrev pub mul64 : ℕ → ℕ → ℕ
mul64 a b = (a * b) % word

-- A value stored into an `int`, as its 32 bits.
abbrev pub to_int : ℕ → ℕ
to_int a = a % 2 ^ 32

-- `MIN(x, y)`
abbrev pub min_of : ℕ → ℕ → ℕ
min_of x y = if ltb x y then x else y

-- Two's complement: `a < b` for an `int64_t`, and an `int32_t` stored into one.
abbrev pub slt64 : ℕ → ℕ → Bool
slt64 a b = ltb ((a + 2 ^ 63) % word) ((b + 2 ^ 63) % word)

abbrev pub extend64 : ℕ → ℕ
extend64 a = if ltb a (2 ^ 31) then a else a + 2 ^ 64 - 2 ^ 32

-- `a < b` for an `int`.
abbrev pub slt32 : ℕ → ℕ → Bool
slt32 a b = ltb ((a + 2 ^ 31) % 2 ^ 32) ((b + 2 ^ 31) % 2 ^ 32)
