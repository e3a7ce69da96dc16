-- ===== src/Prelude/Results.antt =====
-- What a Go function that returns an error, or panics, comes back with.
use coinex_bot.Prelude.{◌≡◌, refl, Bool, true, false, if◌then◌else◌, Option, none, some, Text}

pub data Result {ℓ} (A : Type ℓ) : Type ℓ where
  ok : A → Result A
  err : Text → Result A
  panic : Result A

infixl 5 ◌>>=◌
abbrev pub ◌>>=◌ {ℓ κ} : {A : Type ℓ} {B : Type κ} → Result A → (A → Result B) → Result B
ok a >>= f = f a
err e >>= f = err e
panic >>= f = panic

-- `RequireFromString` and its like: a value that is not there is a panic.
abbrev pub require {ℓ} : {A : Type ℓ} → Option A → Result A
require none = panic
require (some a) = ok a

-- fmt.Errorf(prefix + ": %w", err)
abbrev pub map_error {ℓ} : {A : Type ℓ} → (Text → Text) → Result A → Result A
map_error f (ok a) = ok a
map_error f (err e) = err (f e)
map_error f panic = panic

-- A chain that succeeds has a first step that does, and goes on from its value.
pub first_ok {ℓ κ} :
    {A : Type ℓ} {B : Type κ} {b : B} (next : A → Result B) (first : Result A)
    → (first >>= next) ≡ ok b
    → (value : A) × (first ≡ ok value) × (next value ≡ ok b)
first_ok next panic h = cc
first_ok next (err e) h = cc
first_ok next (ok value) h = (value, refl, h)

-- The call comes back, with neither an error nor a panic, and its value satisfies `P`.
pub data Gives {ℓ κ} {A : Type ℓ} (P : A → Type κ) : Result A → Type (ℓ ⊔ κ) where
  gives : {a : A} → P a → Gives P (ok a)

pub Gives-bind {ℓ κ ℓ' κ'} :
    {A : Type ℓ} {B : Type ℓ'} {P : A → Type κ} {Q : B → Type κ'} {r : Result A} {f : A → Result B}
    → Gives P r
    → ((a : A) → P a → Gives Q (f a))
    → Gives Q (r >>= f)
Gives-bind (gives p) k = k _ p

pub Gives-if {ℓ κ} :
    {A : Type ℓ} {P : A → Type κ} (b : Bool) {x y : Result A}
    → (b ≡ true → Gives P x)
    → (b ≡ false → Gives P y)
    → Gives P (if b then x else y)
Gives-if true hx hy = hx refl
Gives-if false hx hy = hy refl

pub Gives-imp {ℓ κ κ'} :
    {A : Type ℓ} {P : A → Type κ} {Q : A → Type κ'} {r : Result A}
    → Gives P r
    → ((a : A) → P a → Q a)
    → Gives Q r
Gives-imp (gives p) k = gives (k _ p)

pub Gives-value {ℓ κ} :
    {A : Type ℓ} {P : A → Type κ} {r : Result A} → Gives P r → (a : A) × (r ≡ ok a) × P a
Gives-value (gives p) = (_, refl, p)

pub ok_injective {ℓ} : {A : Type ℓ} {a b : A} → ok a ≡ ok b → a ≡ b
ok_injective h = cc h

-- Two chains from one first step agree if what follows each of its values does.
pub same_rest {ℓ κ} :
    {A : Type ℓ} {B : Type κ} {next other : A → Result B} (first : Result A)
    → ((value : A) → next value ≡ other value)
    → (first >>= next) ≡ (first >>= other)
same_rest panic same = refl
same_rest (err e) same = refl
same_rest (ok value) same = same value

-- A chain whose second step is a chain that ends in `last` is one that ends in it as a whole.
pub end_outside {ℓ κ} :
    {A : Type ℓ} {B C : Type κ} {whole : A → Result C} (middle : A → Result B) (last : B → Result C)
    (first : Result A)
    → ((value : A) → whole value ≡ (middle value >>= last))
    → (first >>= whole) ≡ ((first >>= middle) >>= last)
end_outside middle last panic same = refl
end_outside middle last (err e) same = refl
end_outside middle last (ok value) same = same value
