-- ===== src/Prelude/Slices.antt =====
-- Go's reads of slices: an index out of range is a panic.
use coinex_bot.Prelude.{
  ℕ, zero, suc, ◌+◌, ◌-◌, ◌≤◌, ◌<◌, ◌≡◌, refl, List, [], ◌∷◌, arith, length, take, drop, min, All,
  All₂, All₂, length-take,
}
use coinex_bot.Prelude.Results.{Result, ok, panic, ◌>>=◌, Gives, gives, Gives-bind}

module _ {ℓ} {A : Type ℓ} where
  -- `xs[len(xs)-1]`
  unfoldable pub last : List A → Result A
  last [] = panic
  last (x ∷ []) = ok x
  last (x ∷ y ∷ xs) = last (y ∷ xs)

  -- `xs[len(xs)-2]`
  unfoldable pub before_last : List A → Result A
  before_last [] = panic
  before_last (x ∷ []) = panic
  before_last (x ∷ y ∷ []) = ok x
  before_last (x ∷ y ∷ z ∷ xs) = before_last (y ∷ z ∷ xs)

  -- `xs[i]`
  unfoldable pub index : List A → ℕ → Result A
  index [] i = panic
  index (x ∷ xs) zero = ok x
  index (x ∷ xs) (suc i) = index xs i

  -- `xs[i:i+n]` for i from 0 to `count - 1`
  unfoldable pub slices : ℕ → ℕ → List A → List (List A)
  slices zero n xs = []
  slices (suc count) n xs = take n xs ∷ slices count n (drop 1 xs)

  pub last-Gives : (xs : List A) → 0 < length xs → Gives (λ _. Unit {0}) (last xs)
  unfolding last
  last-Gives [] h = absurd (omega arith)
  last-Gives (x ∷ []) h = gives tt
  last-Gives (x ∷ y ∷ xs) h = last-Gives (y ∷ xs) (omega arith)

  pub before_last-Gives : (xs : List A) → 1 < length xs → Gives (λ _. Unit {0}) (before_last xs)
  unfolding before_last
  before_last-Gives [] h = absurd (omega arith)
  before_last-Gives (x ∷ []) h = absurd (omega arith)
  before_last-Gives (x ∷ y ∷ []) h = gives tt
  before_last-Gives (x ∷ y ∷ z ∷ xs) h = before_last-Gives (y ∷ z ∷ xs) (omega arith)

  -- What all elements satisfy, the one that is read satisfies.
  pub index-Gives {κ} :
      {P : A → Type κ} (xs : List A) (i : ℕ) → i < length xs → All P xs → Gives P (index xs i)
  unfolding index
  index-Gives [] i h p = absurd (omega arith)
  index-Gives (x ∷ xs) zero h p = gives p.0
  index-Gives (x ∷ xs) (suc i) h p = index-Gives xs i (omega arith) p.1

  -- Within the list each slice is as long as it says.
  pub slices-full :
      (count n : ℕ) (xs : List A)
      → count + n ≤ suc (length xs)
      → All (λ (w : List A). length w ≡ n) (slices count n xs)
  unfolding slices
  slices-full zero n xs h = tt
  slices-full (suc zero) n [] h = (omega (arith, length-take {A = A} n []), tt)
  slices-full (suc (suc count)) n [] h = absurd (omega arith)
  slices-full (suc count) n (x ∷ xs) h =
      (omega (arith, length-take n (x ∷ xs)), slices-full count n xs (omega arith))

module _ {ℓ κ} {A : Type ℓ} {B : Type κ} where
  -- A loop whose body may panic, over the elements that it fills the result from.
  unfoldable pub map_ok : (A → Result B) → List A → Result (List B)
  map_ok f [] = ok []
  map_ok f (x ∷ xs) = f x >>= λ y. map_ok f xs >>= λ ys. ok (y ∷ ys)

  unfoldable pub each_pair : (A → A → B) → List A → List B
  each_pair f [] = []
  each_pair f (x ∷ []) = []
  each_pair f (x ∷ y ∷ xs) = f x y ∷ each_pair f (y ∷ xs)

  pub map_ok-Gives {ι ο} :
      {P : A → Type ι} {Q : B → Type ο} (f : A → Result B) (xs : List A)
      → ((x : A) → P x → Gives Q (f x))
      → All P xs
      → Gives (λ (ys : List B). (length ys ≡ length xs) × All Q ys) (map_ok f xs)
  unfolding map_ok
  map_ok-Gives f [] step h = gives (refl, tt)
  map_ok-Gives f (x ∷ xs) step h =
      Gives-bind (step x h.0)
        λ y q. Gives-bind (map_ok-Gives f xs step h.1) λ ys r. gives (omega (arith, r.0), (q, r.1))

  pub map_ok-All₂ {ι} :
      {P : A → Type ι} {R : A → B → Type 0} (f : A → Result B) (xs : List A)
      → ((x : A) → P x → Gives (R x) (f x))
      → All P xs
      → Gives (All₂ R xs) (map_ok f xs)
  unfolding map_ok
  map_ok-All₂ f [] step h = gives tt
  map_ok-All₂ f (x ∷ xs) step h =
      Gives-bind (step x h.0) λ y q. Gives-bind (map_ok-All₂ f xs step h.1) λ ys r. gives (q, r)

  pub length-each_pair : (f : A → A → B) (xs : List A) → length (each_pair f xs) ≡ length xs - 1
  unfolding each_pair
  length-each_pair f [] = refl
  length-each_pair f (x ∷ []) = refl
  length-each_pair f (x ∷ y ∷ xs) = omega (arith, length-each_pair f (y ∷ xs))

-- A loop over the indices of two slices whose body may panic.
unfoldable pub zip_ok {ℓ κ ι} :
    {A : Type ℓ} {B : Type κ} {C : Type ι} → (A → B → Result C) → List A → List B → Result (List C)
zip_ok f [] ys = ok []
zip_ok f (x ∷ xs) [] = ok []
zip_ok f (x ∷ xs) (y ∷ ys) = f x y >>= λ z. zip_ok f xs ys >>= λ zs. ok (z ∷ zs)

unfoldable pub zip_with {ℓ κ ι} :
    {A : Type ℓ} {B : Type κ} {C : Type ι} → (A → B → C) → List A → List B → List C
zip_with f [] ys = []
zip_with f (x ∷ xs) [] = []
zip_with f (x ∷ xs) (y ∷ ys) = f x y ∷ zip_with f xs ys

pub length-zip_with {ℓ κ ι} :
    {A : Type ℓ} {B : Type κ} {C : Type ι} (f : A → B → C) (xs : List A) (ys : List B)
    → length (zip_with f xs ys) ≡ min (length xs) (length ys)
unfolding zip_with
length-zip_with f [] ys = omega arith
length-zip_with f (x ∷ xs) [] = omega arith
length-zip_with f (x ∷ xs) (y ∷ ys) = omega (arith, length-zip_with f xs ys)

pub zip_ok-Gives {ℓ κ ι ο} :
    {A : Type ℓ} {B : Type κ} {C : Type ι} {W : Type ο} (P : W → Type 0) (g : A → B → W)
    (f : A → B → Result C) (xs : List A) (ys : List B)
    → ((x : A) (y : B) → P (g x y) → Gives (λ _. Unit {0}) (f x y))
    → All P (zip_with g xs ys)
    → Gives (λ _. Unit {0}) (zip_ok f xs ys)
unfolding zip_ok zip_with
zip_ok-Gives P g f [] ys step h = gives tt
zip_ok-Gives P g f (x ∷ xs) [] step h = gives tt
zip_ok-Gives P g f (x ∷ xs) (y ∷ ys) step h =
    Gives-bind (step x y h.0)
      λ _ _. Gives-bind (zip_ok-Gives P g f xs ys step h.1) (λ _ _. gives tt)
