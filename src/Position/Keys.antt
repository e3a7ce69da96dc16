-- ===== src/Position/Keys.antt =====
-- internal/position/manager.go, `Key`: no two pairs of market and side share a key.
use coinex_bot.Prelude.{◌≡◌, refl, ◌≢◌, [], ◌∷◌, ◌++◌, arith, All, Text}
use coinex_bot.Models.{OrderSide, buy, sell, side_text}
use coinex_bot.Position.{position_key}

abbrev NoColon : Text → Type 0
NoColon = All (λ c. c ≢ b':')

NoColon-middle : (m s : Text) → NoColon (m ++ (b':' ∷ s)) → ⊥
NoColon-middle [] s h = h.0 refl
NoColon-middle (c ∷ m) s h = NoColon-middle m s h.1

-- What follows the last colon of a text, and what precedes it, are determined.
split_last :
    (m n s t : Text) → NoColon s → NoColon t → m ++ (b':' ∷ s) ≡ n ++ (b':' ∷ t) → (m ≡ n) × (s ≡ t)
split_last [] [] s t hs ht e = (refl, cc)
split_last [] (c ∷ n) s t hs ht e =
    let e' : s ≡ n ++ (b':' ∷ t) = cc in absurd (NoColon-middle n t (rw e' at hs))
split_last (c ∷ m) [] s t hs ht e =
    let e' : m ++ (b':' ∷ s) ≡ t = cc in absurd (NoColon-middle m s (rw (← e') at ht))
split_last (c ∷ m) (b ∷ n) s t hs ht e = let (p, q) = split_last m n s t hs ht (cc) in (cc, q)

side_text-NoColon : (s : OrderSide) → NoColon (side_text s)
side_text-NoColon buy = omega arith
side_text-NoColon sell = omega arith

side_of_text : (s t : OrderSide) → side_text s ≡ side_text t → s ≡ t
side_of_text buy buy e = refl
side_of_text sell sell e = refl
side_of_text buy sell e = ground arith
side_of_text sell buy e = ground arith

-- Two positions share a key only if they agree in market and side, whatever bytes (colons too) the
-- market's name holds.
pub position_key_injective :
    (market market' : Text) (side side' : OrderSide)
    → position_key market side ≡ position_key market' side'
    → (market ≡ market') × (side ≡ side')
unfolding position_key
position_key_injective market market' side side' e =
    let (p, q) =
      split_last market market' (side_text side) (side_text side') (side_text-NoColon side)
        (side_text-NoColon side') e in
    (p, side_of_text side side' q)
