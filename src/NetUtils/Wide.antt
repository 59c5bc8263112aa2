-- ===== src/NetUtils/Wide.antt =====
-- The numbers of 64 and of 16 bits in the network's order: `byteswap64` and what is built on it, and
-- `htons`, `ntohs`, of src/net_utils/net_utils.c on a little-endian host.
use uvg_torrent_c.Prelude.{
  ℕ, ◌+◌, ◌*◌, ◌/◌, ◌%◌, ◌^◌, ◌<◌, ◌≡◌, ◌∙◌, ap, List, [], ◌∷◌, ◌++◌, get_or, drop, arith,
}
use uvg_torrent_c.NetUtils.{swap32, u32_bytes, u32_of_bytes}

-- `v2` is less than 2 ^ 32, so the bitwise or is a sum; the shift wraps at 2 ^ 64.
unfoldable pub byteswap64 : ℕ → ℕ
byteswap64 input =
    let v1 = swap32 (input % 2 ^ 32) in
    let v2 = swap32 (input / 2 ^ 32) in v1 * 2 ^ 32 % 2 ^ 64 + v2

unfoldable pub htonll : ℕ → ℕ
htonll input = byteswap64 input

unfoldable pub ntohll : ℕ → ℕ
ntohll input = byteswap64 input

-- The two bytes in the other order: what `htons` and `ntohs` of the C library do on such a host.
abbrev pub swap16 : ℕ → ℕ
swap16 n = n % 2 ^ 8 * 2 ^ 8 + n / 2 ^ 8 % 2 ^ 8

unfoldable pub htons : ℕ → ℕ
htons input = swap16 input

unfoldable pub ntohs : ℕ → ℕ
ntohs input = swap16 input

-- A `uint16_t` and a `uint64_t` as their bytes in memory, and back.
unfoldable pub u16_bytes : ℕ → List ℕ
u16_bytes n = n % 2 ^ 8 ∷ n / 2 ^ 8 % 2 ^ 8 ∷ []

unfoldable pub u16_of_bytes : List ℕ → ℕ
u16_of_bytes bs = get_or bs 0 0 + get_or bs 1 0 * 2 ^ 8

unfoldable pub u64_bytes : ℕ → List ℕ
u64_bytes n = u32_bytes (n % 2 ^ 32) ++ u32_bytes (n / 2 ^ 32 % 2 ^ 32)

unfoldable pub u64_of_bytes : List ℕ → ℕ
u64_of_bytes bs = u32_of_bytes bs + u32_of_bytes (drop 4 bs) * 2 ^ 32

pub ntohs-htons : (n : ℕ) → n < 2 ^ 16 → ntohs (htons n) ≡ n
unfolding ntohs htons
ntohs-htons n h = omega arith

pub htons-lt : (n : ℕ) → htons n < 2 ^ 16
unfolding htons
htons-lt n = omega arith

pub u16_of_bytes-u16_bytes :
    (n : ℕ) (rest : List ℕ) → n < 2 ^ 16 → u16_of_bytes (u16_bytes n ++ rest) ≡ n
unfolding u16_of_bytes u16_bytes
u16_of_bytes-u16_bytes n rest h = omega arith

swap32-swap32 : (n : ℕ) → n < 2 ^ 32 → swap32 (swap32 n) ≡ n
swap32-swap32 n h = omega arith

swap32-lt : (n : ℕ) → swap32 n < 2 ^ 32
swap32-lt n = omega arith

-- The halves of a number that is put together from two of 32 bits.
low_half : (a b : ℕ) → a < 2 ^ 32 → b < 2 ^ 32 → (a * 2 ^ 32 % 2 ^ 64 + b) % 2 ^ 32 ≡ b
low_half a b ha hb = omega arith

high_half : (a b : ℕ) → a < 2 ^ 32 → b < 2 ^ 32 → (a * 2 ^ 32 % 2 ^ 64 + b) / 2 ^ 32 ≡ a
high_half a b ha hb = omega arith

join_halves : (n : ℕ) → n < 2 ^ 64 → n / 2 ^ 32 * 2 ^ 32 % 2 ^ 64 + n % 2 ^ 32 ≡ n
join_halves n h = omega arith

-- `byteswap64` undoes itself: a number of 64 bits comes back from the network's order.
pub byteswap64-byteswap64 : (n : ℕ) → n < 2 ^ 64 → byteswap64 (byteswap64 n) ≡ n
unfolding byteswap64
byteswap64-byteswap64 n h =
    let a = swap32 (n % 2 ^ 32) in
    let b = swap32 (n / 2 ^ 32) in
    let ha : a < 2 ^ 32 = swap32-lt (n % 2 ^ 32) in
    let hb : b < 2 ^ 32 = swap32-lt (n / 2 ^ 32) in
    let back_low : swap32 a ≡ n % 2 ^ 32 = swap32-swap32 (n % 2 ^ 32) (omega arith) in
    let back_high : swap32 b ≡ n / 2 ^ 32 = swap32-swap32 (n / 2 ^ 32) (omega arith) in
    let low : swap32 ((a * 2 ^ 32 % 2 ^ 64 + b) % 2 ^ 32) ≡ n / 2 ^ 32 =
      ap (λ x. swap32 x) (low_half a b ha hb) ∙ back_high in
    let high : swap32 ((a * 2 ^ 32 % 2 ^ 64 + b) / 2 ^ 32) ≡ n % 2 ^ 32 =
      ap (λ x. swap32 x) (high_half a b ha hb) ∙ back_low in
    (λ i. low i * 2 ^ 32 % 2 ^ 64 + high i) ∙ join_halves n h

-- A number of 64 bits that is sent in the network's order is read as itself.
pub ntohll-htonll : (n : ℕ) → n < 2 ^ 64 → ntohll (htonll n) ≡ n
unfolding ntohll htonll
ntohll-htonll n h = byteswap64-byteswap64 n h

pub htonll-lt : (n : ℕ) → htonll n < 2 ^ 64
unfolding htonll byteswap64
htonll-lt n = omega (arith, swap32-lt (n % 2 ^ 32), swap32-lt (n / 2 ^ 32))

pub u64_of_bytes-u64_bytes :
    (n : ℕ) (rest : List ℕ) → n < 2 ^ 64 → u64_of_bytes (u64_bytes n ++ rest) ≡ n
unfolding u64_of_bytes u64_bytes u32_bytes u32_of_bytes
u64_of_bytes-u64_bytes n rest h = omega arith
