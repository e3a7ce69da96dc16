-- ===== src/Prelude/Predicates.antt =====
-- Predicates on lists by recursion, which compute to tuples.
use mathlib.Core.Path.{◌≡◌, refl, ap}
use mathlib.Core.List.{List, [], ◌∷◌, ◌++◌}
use Prim.Native.Nat.{ℕ, zero, suc}
use coinex_bot.Prelude.Lists.{replicate}

module _ {ℓ κ} {A : Type ℓ} (P : A → Type κ) where
  abbrev pub All : List A → Type κ
  All [] = Unit
  All (x ∷ xs) = P x × All xs

  pub All-append : (xs ys : List A) → All xs → All ys → All (xs ++ ys)
  All-append [] ys hx hy = hy
  All-append (x ∷ xs) ys hx hy = (hx.0, All-append xs ys hx.1 hy)

pub All-replicate {ℓ κ} :
    {A : Type ℓ} (P : A → Type κ) (n : ℕ) (a : A) → P a → All P (replicate n a)
All-replicate P zero a p = tt
All-replicate P (suc n) a p = (p, All-replicate P n a p)

pub All-imp {ℓ κ ι} :
    {A : Type ℓ} (P : A → Type κ) (Q : A → Type ι) (xs : List A)
    → ((x : A) → P x → Q x)
    → All P xs
    → All Q xs
All-imp P Q [] f h = tt
All-imp P Q (x ∷ xs) f h = (f x h.0, All-imp P Q xs f h.1)

-- Lists of one length, related place by place.
abbrev pub All₂ {ℓ κ} : {A : Type ℓ} {B : Type κ} → (A → B → Type 0) → List A → List B → Type 0
All₂ R [] [] = Unit
All₂ R [] (y ∷ ys) = ⊥
All₂ R (x ∷ xs) [] = ⊥
All₂ R (x ∷ xs) (y ∷ ys) = R x y × All₂ R xs ys

-- What the first list has, the second has at the same places.
pub data IsPrefix {ℓ} {A : Type ℓ} : List A → List A → Type ℓ where
  no_more : {ys : List A} → IsPrefix [] ys
  same_head : {x : A} {xs ys : List A} → IsPrefix xs ys → IsPrefix (x ∷ xs) (x ∷ ys)

pub IsPrefix-append {ℓ} :
    {A : Type ℓ} {xs zs : List A} → IsPrefix xs zs → (rest : List A) × (zs ≡ xs ++ rest)
IsPrefix-append (no_more {ys = ys}) = (ys, refl)
IsPrefix-append (same_head {x = x} p) = let (rest, e) = IsPrefix-append p in (rest, ap (◌∷◌ x) e)
