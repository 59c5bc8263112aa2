-- ===== src/NetUtils.antt =====
-- The byte order of src/net_utils/net_utils.c, on a little-endian host, and how such a host keeps a
-- `uint32_t` in memory.
pub mod Wide
pub mod Waiting
use uvg_torrent_c.Prelude.{ℕ, ◌+◌, ◌*◌, ◌/◌, ◌%◌, ◌^◌, ◌<◌, ◌≡◌, List, [], ◌∷◌, ◌++◌, get_or, arith}

-- The four bytes in the other order: what `ntohl` and `htonl` of the C library do on such a host.
abbrev pub swap32 : ℕ → ℕ
swap32 n =
    n % 2 ^ 8 * 2 ^ 24
    + n / 2 ^ 8 % 2 ^ 8 * 2 ^ 16
    + n / 2 ^ 16 % 2 ^ 8 * 2 ^ 8
    + n / 2 ^ 24 % 2 ^ 8

unfoldable pub ntohl : ℕ → ℕ
ntohl n = swap32 n

unfoldable pub htonl : ℕ → ℕ
htonl n = swap32 n

-- A `uint32_t` as its bytes in memory, and back.
unfoldable pub u32_bytes : ℕ → List ℕ
u32_bytes n = n % 2 ^ 8 ∷ n / 2 ^ 8 % 2 ^ 8 ∷ n / 2 ^ 16 % 2 ^ 8 ∷ n / 2 ^ 24 % 2 ^ 8 ∷ []

unfoldable pub u32_of_bytes : List ℕ → ℕ
u32_of_bytes bs =
    get_or bs 0 0 + get_or bs 1 0 * 2 ^ 8 + get_or bs 2 0 * 2 ^ 16 + get_or bs 3 0 * 2 ^ 24

-- A number of 32 bits comes back from the network's order.
pub ntohl-htonl : (n : ℕ) → n < 2 ^ 32 → ntohl (htonl n) ≡ n
unfolding ntohl htonl
ntohl-htonl n h = omega arith

pub htonl-lt : (n : ℕ) → htonl n < 2 ^ 32
unfolding htonl
htonl-lt n = omega arith

pub ntohl-lt : (n : ℕ) → ntohl n < 2 ^ 32
unfolding ntohl
ntohl-lt n = omega arith

pub u32_of_bytes-u32_bytes :
    (n : ℕ) (rest : List ℕ) → n < 2 ^ 32 → u32_of_bytes (u32_bytes n ++ rest) ≡ n
unfolding u32_of_bytes u32_bytes
u32_of_bytes-u32_bytes n rest h = omega arith

pub u32_bytes-u32_of_bytes :
    (a b c d : ℕ)
    → a < 256
    → b < 256
    → c < 256
    → d < 256
    → u32_bytes (u32_of_bytes (a ∷ b ∷ c ∷ d ∷ [])) ≡ a ∷ b ∷ c ∷ d ∷ []
unfolding u32_of_bytes u32_bytes
u32_bytes-u32_of_bytes a b c d ha hb hc hd =
    let n = a + b * 2 ^ 8 + c * 2 ^ 16 + d * 2 ^ 24 in
    let ea : n % 2 ^ 8 ≡ a = omega arith in
    let eb : n / 2 ^ 8 % 2 ^ 8 ≡ b = omega arith in
    let ec : n / 2 ^ 16 % 2 ^ 8 ≡ c = omega arith in
    let ed : n / 2 ^ 24 % 2 ^ 8 ≡ d = omega arith in λ i. ea i ∷ eb i ∷ ec i ∷ ed i ∷ []
