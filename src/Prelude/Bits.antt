-- ===== src/Prelude/Bits.antt =====
-- Facts about bytes that are proved by checking every value: tables with a row for each number.
use Prim.Native.Nat.{ℕ, zero, suc, ◌<◌}
use mathlib.Core.Path.{◌≡◌}
use mathlib.Core.Bool.{Bool, true, false}
use native.Mathlib.Decide.{ℕ_discrete}
use native.Mathlib.Omega.{arith}
use uvg_torrent_c.Prelude.Tests.{if◌then◌else◌}

-- The first `rows` rows of the table hold.
unfoldable pub table_holds : (row : ℕ → Bool) → (rows : ℕ) → Bool
table_holds row zero = true
table_holds row (suc rows) = if row rows then table_holds row rows else false

-- One row of a table that holds.
pub table_row :
    (row : ℕ → Bool) (rows i : ℕ) → i < rows → table_holds row rows ≡ true → row i ≡ true
unfolding table_holds
table_row row (suc rows) i inside table = elim (ℕ_discrete rows i) [
  | yes last ↦ rw (← last) (ground arith)
  | no earlier ↦ table_row row rows i (omega arith) (ground arith)
]
table_row row zero i inside table = absurd (omega arith)
