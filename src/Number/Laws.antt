-- ===== src/Number/Laws.antt =====
-- What is assumed of the decimals where a theorem needs it. `Add`, `Sub`, `Mul`, `Neg` and the
-- comparisons of github.com/shopspring/decimal are exact, so they are those of an ordered ring;
-- nothing is assumed of `Div`, which rounds.
use coinex_bot.Prelude.{◌≡◌, ◌⊎◌, ◌↔◌, true, false, not, some}
use coinex_bot.Number.{Decimal, Float}

pub record IsDecimal (D : Type 0) ⦃d : Decimal D⦄ : Type 0 where
  pub add_comm : (x y : D) → d.add x y ≡ d.add y x
  pub add_assoc : (x y z : D) → d.add (d.add x y) z ≡ d.add x (d.add y z)
  pub add_zero : (x : D) → d.add x d.zero_dec ≡ x
  pub sub_add : (x y : D) → d.add (d.sub x y) y ≡ x
  pub add_sub : (x y : D) → d.sub (d.add x y) y ≡ x
  pub mul_zero : (x : D) → d.mul x d.zero_dec ≡ d.zero_dec
  pub zero_iff : (x : D) → (d.is_zero x ≡ true) ↔ (x ≡ d.zero_dec)
  pub positive_lem : (x : D) → d.is_positive x ≡ d.less_than d.zero_dec x
  pub negative_lem : (x : D) → d.is_negative x ≡ d.less_than x d.zero_dec
  pub greater_lem : (x y : D) → d.greater_than x y ≡ d.less_than y x
  pub less_or_equal_lem : (x y : D) → d.less_than_or_equal x y ≡ not (d.less_than y x)
  pub greater_or_equal_lem : (x y : D) → d.greater_than_or_equal x y ≡ not (d.less_than x y)
  pub less_irrefl : (x : D) → d.less_than x x ≡ false
  pub less_trans :
      (x y z : D) → d.less_than x y ≡ true → d.less_than y z ≡ true → d.less_than x z ≡ true
  pub less_total : (x y : D) → (d.less_than x y ≡ true) ⊎ ((x ≡ y) ⊎ (d.less_than y x ≡ true))

-- The text of a decimal reads back as the decimal.
pub record IsPrinted (D : Type 0) ⦃d : Decimal D⦄ : Type 0 where
  pub read_string : (x : D) → d.new_from_string (d.string x) ≡ some x

-- Of the floats: what holds of the order of `float64` when no number is a NaN.
pub record IsFloatOrder (F : Type 0) ⦃f : Float F⦄ : Type 0 where
  pub lt_irrefl : (x : F) → f.lt x x ≡ false
  pub lt_asym : (x y : F) → f.lt x y ≡ true → f.lt y x ≡ false
  pub not_lt_trans : (x y z : F) → f.lt x y ≡ false → f.lt y z ≡ false → f.lt x z ≡ false
