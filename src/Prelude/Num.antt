-- ===== src/Prelude/Num.antt =====
-- The numbers of the language. A finite double is a whole multiple of 2 ^ -1074, so `fin k` stands
-- for k * 2 ^ -1074 and the order and `Math.min`, `Math.max` are exact; the two zeros are one.
-- What rounds (products, sums, `Math.round`) is a parameter of the definitions that use it.
use mathlib.Core.Bool.{Bool, true, false}
use midnight_buildathons_bac.Prelude.Tests.{if◌then◌else◌}
use midnight_buildathons_bac.Prelude.Int.{ℤ, pos, ltb_ℤ, leb_ℤ, eqb_ℤ}

pub data Num : Type 0 where
  nan neg_inf pos_inf : Num
  fin : ℤ → Num

-- `Number.isFinite(x)`.
abbrev pub is_finite : Num → Bool
is_finite (fin a) = true
is_finite _ = false

-- `x < y`; every comparison with NaN is false.
abbrev pub num_lt : Num → Num → Bool
num_lt nan y = false
num_lt neg_inf nan = false
num_lt neg_inf neg_inf = false
num_lt neg_inf _ = true
num_lt pos_inf y = false
num_lt (fin a) nan = false
num_lt (fin a) neg_inf = false
num_lt (fin a) pos_inf = true
num_lt (fin a) (fin b) = ltb_ℤ a b

-- `x <= y`.
abbrev pub num_le : Num → Num → Bool
num_le nan y = false
num_le neg_inf nan = false
num_le neg_inf _ = true
num_le pos_inf pos_inf = true
num_le pos_inf _ = false
num_le (fin a) nan = false
num_le (fin a) neg_inf = false
num_le (fin a) pos_inf = true
num_le (fin a) (fin b) = leb_ℤ a b

-- `x === y`.
abbrev pub num_eq : Num → Num → Bool
num_eq neg_inf neg_inf = true
num_eq pos_inf pos_inf = true
num_eq (fin a) (fin b) = eqb_ℤ a b
num_eq _ _ = false

-- `Math.min(x, y)`.
abbrev pub num_min : Num → Num → Num
num_min nan y = nan
num_min neg_inf nan = nan
num_min neg_inf _ = neg_inf
num_min pos_inf y = y
num_min (fin a) nan = nan
num_min (fin a) neg_inf = neg_inf
num_min (fin a) pos_inf = fin a
num_min (fin a) (fin b) = if ltb_ℤ b a then fin b else fin a

-- `Math.max(x, y)`.
abbrev pub num_max : Num → Num → Num
num_max nan y = nan
num_max pos_inf nan = nan
num_max pos_inf _ = pos_inf
num_max neg_inf y = y
num_max (fin a) nan = nan
num_max (fin a) pos_inf = pos_inf
num_max (fin a) neg_inf = fin a
num_max (fin a) (fin b) = if ltb_ℤ a b then fin b else fin a

abbrev pub num_zero : Num
num_zero = fin (pos 0)
