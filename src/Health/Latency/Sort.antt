-- ===== src/Health/Latency/Sort.antt =====
-- internal/health/monitor.go, the insertion sort in `percentile`.
use mathlib.Core.List.{Permᴰ}
use mathlib.Core.List.Permᴰ
use coinex_bot.Prelude.{
  suc, ◌≤◌, ◌≡◌, refl, ap, ◌∙◌, inl, inr, List, [], ◌∷◌, ◌++◌, arith, append-nil, ltb, length,
  Bool-cases, All, All-imp,
}
use coinex_bot.Models.{Duration}
use coinex_bot.Health.Latency.{slide, sort_from, onto, sort}

abbrev pub IsAscending : List Duration → Type 0
IsAscending [] = Unit {0}
IsAscending (x ∷ xs) = All (λ y. x ≤ y) xs × IsAscending xs

abbrev IsDescending : List Duration → Type 0
IsDescending [] = Unit {0}
IsDescending (x ∷ xs) = All (λ y. y ≤ x) xs × IsDescending xs

slide-All :
    (b x : Duration) (left : List Duration)
    → x ≤ b
    → All (λ y. y ≤ b) left
    → All (λ y. y ≤ b) (slide x left)
unfolding slide
slide-All b x [] h a = (h, tt)
slide-All b x (y ∷ left) h a = ground (arith, slide-All b x left h a.1)

slide-IsDescending :
    (x : Duration) (left : List Duration) → IsDescending left → IsDescending (slide x left)
unfolding slide
slide-IsDescending x [] v = (tt, tt)
slide-IsDescending x (y ∷ left) v = ground (
  arith,
  slide-IsDescending x left v.1,
  slide-All y x left,
  All-imp (λ z. z ≤ y) (λ z. z ≤ x) left,
)

sort_from-IsDescending :
    (left right : List Duration) → IsDescending left → IsDescending (sort_from left right)
unfolding sort_from
sort_from-IsDescending left [] v = v
sort_from-IsDescending left (x ∷ right) v =
    sort_from-IsDescending (slide x left) right (slide-IsDescending x left v)

abbrev AllBelow : List Duration → List Duration → Type 0
AllBelow xs ys = All (λ x. All (λ y. x ≤ y) ys) xs

AllBelow-cons :
    (z : Duration) (xs ys : List Duration)
    → All (λ x. x ≤ z) xs
    → AllBelow xs ys
    → AllBelow xs (z ∷ ys)
AllBelow-cons z [] ys h a = tt
AllBelow-cons z (x ∷ xs) ys h a = ((h.0, a.0), AllBelow-cons z xs ys h.1 a.1)

onto-IsAscending :
    (xs ys : List Duration)
    → IsDescending xs
    → IsAscending ys
    → AllBelow xs ys
    → IsAscending (onto xs ys)
unfolding onto
onto-IsAscending [] ys v w a = w
onto-IsAscending (x ∷ xs) ys v w a =
    onto-IsAscending xs (x ∷ ys) v.1 (a.0, w) (AllBelow-cons x xs ys v.0 a.1)

AllBelow-nil : (xs : List Duration) → AllBelow xs []
AllBelow-nil [] = tt
AllBelow-nil (x ∷ xs) = (tt, AllBelow-nil xs)

slide-perm : (x : Duration) (left : List Duration) → Permᴰ (slide x left) (x ∷ left)
unfolding slide
slide-perm x [] = Permᴰ.refl _
slide-perm x (y ∷ left) = elim (Bool-cases (ltb x y)) [
  | inl less ↦ rw less (Permᴰ.trans (Permᴰ.cons refl (slide-perm x left)) (Permᴰ.swap refl refl))
  | inr done ↦ rw done (Permᴰ.refl _)
]

sort_from-perm : (left right : List Duration) → Permᴰ (sort_from left right) (left ++ right)
unfolding sort_from
sort_from-perm left [] = rw append-nil (Permᴰ.refl left)
sort_from-perm left (x ∷ right) = Permᴰ.trans (sort_from-perm (slide x left) right) (
    Permᴰ.trans (Permᴰ.append_right right (slide-perm x left))
      (Permᴰ.symm (Permᴰ.middle x left right)))

onto-perm : (xs ys : List Duration) → Permᴰ (onto xs ys) (xs ++ ys)
unfolding onto
onto-perm [] ys = Permᴰ.refl ys
onto-perm (x ∷ xs) ys = Permᴰ.trans (onto-perm xs (x ∷ ys)) (Permᴰ.middle x xs ys)

-- The sort of `percentile` puts the samples in ascending order, and loses and adds none.
pub sort_lem : (xs : List Duration) → IsAscending (sort xs) × Permᴰ (sort xs) xs
unfolding sort
sort_lem xs = (
  onto-IsAscending (sort_from [] xs) [] (sort_from-IsDescending [] xs tt) tt
      (AllBelow-nil (sort_from [] xs)),
  Permᴰ.trans (onto-perm (sort_from [] xs) [])
      (Permᴰ.trans (Permᴰ.append-nil (sort_from [] xs)) (sort_from-perm [] xs)),
)

pub length-perm : {xs ys : List Duration} → Permᴰ xs ys → length xs ≡ length ys
length-perm Permᴰ.nil = refl
length-perm (Permᴰ.cons e p) = ap suc (length-perm p)
length-perm (Permᴰ.swap e e') = refl
length-perm (Permᴰ.trans p q) = length-perm p ∙ length-perm q
