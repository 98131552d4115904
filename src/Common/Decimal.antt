-- ===== src/Common/Decimal.antt =====
-- backend/src/common/decimal.ts, over exact fixed-point amounts.
--
-- An amount of money is an integer number of hundredths of a kwacha, an amount of gas an integer
-- number of grams: the scales of the columns (2 and 3 digits). On such values `toNumber`,
-- `asDecimal`, and `round2`/`round3` of a sum or a difference are the identity, so they leave no
-- trace; a product or a quotient is rounded by `round_div`. The source rounds the float nearest to
-- `value * 100`: where the exact value is a tie, that float may lie below it, as in `round2(1.005)`,
-- and the source then rounds down.
use haroti_lpg_management.Prelude.{ℤ, pos, pos_part, ◌+ℤ◌, div_floor, ◌+◌, ◌*◌, ◌≤◌, ◌<◌, ℕ, arith}

-- `Math.round(n / d)` of the exact quotient: the nearest integer, and a tie goes up.
unfoldable pub round_div : ℤ → ℕ → ℤ
round_div n d = div_floor (n +ℤ n +ℤ pos d) (d + d)

-- The rounded quotient of a natural number by a positive divisor is within half a unit of the
-- exact quotient, and a tie goes up.
pub round_div_nearest :
    (n d : ℕ)
    → 0 < d
    → (pos_part (round_div (pos n) d) * (2 * d) ≤ 2 * n + d)
      × (2 * n + d < (pos_part (round_div (pos n) d) + 1) * (2 * d))
unfolding round_div div_floor ◌+ℤ◌
round_div_nearest n d h = grind arith
