-- ===== src/Number/Whole.antt =====
-- Whole numbers as decimals and as floats: a concrete instance, in which the laws hold and in which
-- the tests run.
use coinex_bot.Prelude.{
  ℕ, zero, suc, leb, ◌*◌, ◌^◌, ◌+◌, ◌/◌, ◌≡◌, refl, ◌⊎◌, Bool, true, not, ◌&&◌, List, [], ◌∷◌, All,
  Option, none, some, arith, ◌==◌, if◌then◌else◌, Text,
}
use coinex_bot.Prelude.Int.{
  ℤ, pos, negsuc, pos_part, neg_part, sub_ℕ, ◌+ℤ◌, ◌-ℤ◌, ◌*ℤ◌, ltb_ℤ, abs, +ℤ_comm, +ℤ_assoc,
}
use coinex_bot.Number.{Decimal, Float, Convert}
use coinex_bot.Number.Laws.{IsDecimal, IsPrinted, IsFloatOrder}

abbrev pub eq_ℤ : ℤ → ℤ → Bool
eq_ℤ a b = not (ltb_ℤ a b) && not (ltb_ℤ b a)

-- Rounds to zero.
unfoldable pub quot : ℤ → ℤ → ℤ
quot a b =
    let q = (pos_part a + neg_part a) / (pos_part b + neg_part b) in
    if ltb_ℤ a (pos 0)
    then (if ltb_ℤ b (pos 0) then pos q else sub_ℕ 0 q)
    else (if ltb_ℤ b (pos 0) then sub_ℕ 0 q else pos q)

-- A number is written with its sign and one byte, which need not be a digit.
unfoldable pub print : ℤ → Text
print (pos n) = b'+' ∷ n ∷ []
print (negsuc n) = b'-' ∷ n ∷ []

-- The sign may be left out, so two texts can stand for the same number.
unfoldable pub read : Text → Option ℤ
read (n ∷ []) = some (pos n)
read (s ∷ n ∷ []) = if s == b'+' then some (pos n) else if s == b'-' then some (negsuc n) else none
read _ = none

instance abbrev pub whole_decimal : Decimal ℤ
whole_decimal = record {
  zero_dec = pos 0;
  new_from_int = pos;
  add = ◌+ℤ◌;
  sub = ◌-ℤ◌;
  mul = ◌*ℤ◌;
  div = quot;
  neg = λ a. pos 0 -ℤ a;
  abs = abs;
  is_zero = λ a. eq_ℤ a (pos 0);
  is_positive = λ a. ltb_ℤ (pos 0) a;
  is_negative = λ a. ltb_ℤ a (pos 0);
  less_than = ltb_ℤ;
  less_than_or_equal = λ a b. not (ltb_ℤ b a);
  greater_than = λ a b. ltb_ℤ b a;
  greater_than_or_equal = λ a b. not (ltb_ℤ a b);
  new_from_string = read;
  string = print;
  string_fixed = λ places a. print a;
}

-- The greatest number up to `k` whose square is at most `n`.
unfoldable pub root : ℕ → ℕ → ℕ
root zero n = 0
root (suc k) n = let below = root k n in if leb (suc k * suc k) n then suc k else below

instance abbrev pub whole_float : Float ℤ
whole_float = record {
  literal = λ n m. pos (n / m);
  of_int = pos;
  trunc = pos_part;
  plus = ◌+ℤ◌;
  minus = ◌-ℤ◌;
  times = ◌*ℤ◌;
  over = quot;
  negate = λ a. pos 0 -ℤ a;
  lt = ltb_ℤ;
  le = λ a b. not (ltb_ℤ b a);
  eq = eq_ℤ;
  absolute = abs;
  sqrt = λ a. pos (root (pos_part a) (pos_part a));
  pow = λ a b. pos (pos_part a ^ pos_part b);
  log = λ a. a;
  exp = λ a. pos 1;
  min_float = λ a b. if ltb_ℤ b a then b else a;
  round = pos_part;
  neg_inf = negsuc 1000000;
  is_finite = λ _. true;
  show_whole = print;
}

instance abbrev pub whole_convert : Convert ℤ ℤ
whole_convert = record { float64 = λ a. a; new_from_float = λ a. a }

less_total_ℤ : (x y : ℤ) → (ltb_ℤ x y ≡ true) ⊎ ((x ≡ y) ⊎ (ltb_ℤ y x ≡ true))
less_total_ℤ x y = ground arith

pub Whole-IsDecimal : IsDecimal ℤ
unfolding ◌+ℤ◌ ◌-ℤ◌ ◌*ℤ◌
Whole-IsDecimal = record {
  add_comm = +ℤ_comm;
  add_assoc = +ℤ_assoc;
  add_zero = λ x. ground arith;
  sub_add = λ x y. ground arith;
  add_sub = λ x y. ground arith;
  mul_zero = λ x. ground arith;
  zero_iff = λ x. ground arith;
  positive_lem = λ x. refl;
  negative_lem = λ x. refl;
  greater_lem = λ x y. refl;
  less_or_equal_lem = λ x y. refl;
  greater_or_equal_lem = λ x y. refl;
  less_irrefl = λ x. ground arith;
  less_trans = λ x y z p q. ground arith;
  less_total = less_total_ℤ;
}

pub Whole-IsPrinted : IsPrinted ℤ
unfolding read print
Whole-IsPrinted = record { read_string = elim [ pos n ↦ refl | negsuc n ↦ refl ] }

pub Whole-IsFloatOrder : IsFloatOrder ℤ
Whole-IsFloatOrder = record {
  lt_irrefl = λ x. ground arith;
  lt_asym = λ x y h. ground arith;
  not_lt_trans = λ x y z h k. ground arith;
}

pub all_finite : (xs : List ℤ) → All (λ x. whole_float.is_finite x ≡ true) xs
all_finite [] = tt
all_finite (x ∷ xs) = (refl, all_finite xs)
