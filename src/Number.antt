-- ===== src/Number.antt =====
-- The two number types of the program. `decimal.Decimal` is the package
-- github.com/shopspring/decimal and `float64` is IEEE arithmetic, for which there is no model in the
-- language: both are type parameters, used through the operations that the program calls. An element
-- of `D` is a decimal up to the equality of its value (`Cmp` is 0), which is all that the program
-- looks at.
pub mod Laws
pub mod Whole
pub mod Sums
use coinex_bot.Prelude.{ℕ, Bool, Text, Option, List, foldl, if◌then◌else◌}
use coinex_bot.Prelude.Results.{Result, ok, panic}

-- The methods of `decimal.Decimal` that the program calls, each under its own name.
pub record Decimal (D : Type 0) : Type 0 where
  pub zero_dec : D
  pub new_from_int : ℕ → D
  pub add : D → D → D
  pub sub : D → D → D
  pub mul : D → D → D
  pub div : D → D → D
  pub neg : D → D
  pub abs : D → D
  pub is_zero : D → Bool
  pub is_positive : D → Bool
  pub is_negative : D → Bool
  pub less_than : D → D → Bool
  pub less_than_or_equal : D → D → Bool
  pub greater_than : D → D → Bool
  pub greater_than_or_equal : D → D → Bool
  -- `NewFromString`, with `none` for its error
  pub new_from_string : Text → Option D
  -- `String`
  pub string : D → Text
  -- `StringFixed(places)`
  pub string_fixed : ℕ → D → Text

-- The operations of `float64` that the program uses. A literal of the source is the quotient of two
-- whole numbers: `literal 3 100` is 0.03.
pub record Float (F : Type 0) : Type 0 where
  pub literal : ℕ → ℕ → F
  pub of_int : ℕ → F
  -- `int(x)` of an `x` that is not negative; 0 where `x` is no finite number
  pub trunc : F → ℕ
  pub plus : F → F → F
  pub minus : F → F → F
  pub times : F → F → F
  pub over : F → F → F
  pub negate : F → F
  pub lt : F → F → Bool
  pub le : F → F → Bool
  pub eq : F → F → Bool
  -- `math.Abs`, `math.Sqrt` and `math.Pow`
  pub absolute : F → F
  pub sqrt : F → F
  pub pow : F → F → F
  -- `math.Log`, `math.Exp`, `math.Min`, and `int(math.Round(x))` of an `x` that is not negative
  pub log : F → F
  pub exp : F → F
  pub min_float : F → F → F
  pub round : F → ℕ
  -- `math.Inf(-1)`
  pub neg_inf : F
  -- neither a NaN nor an infinity
  pub is_finite : F → Bool
  -- the verb `%.0f`
  pub show_whole : F → Text

-- `Float64` (also `InexactFloat64`), and the value of `NewFromFloat` at a finite number.
pub record Convert (D F : Type 0) : Type 0 where
  pub float64 : D → F
  pub new_from_float : F → D

-- `NewFromFloat`, which panics on a NaN and on an infinity.
unfoldable pub from_float : {D F : Type 0} ⦃f : Float F⦄ ⦃c : Convert D F⦄ → F → Result D
from_float ⦃f⦄ ⦃c⦄ x = if f.is_finite x then ok (c.new_from_float x) else panic

-- A loop `sum += x` from 0.
unfoldable pub sum_floats : {F : Type 0} ⦃f : Float F⦄ → List F → F
sum_floats ⦃f⦄ xs = foldl f.plus (f.of_int 0) xs
