-- ===== src/Strategies/Registered.antt =====
-- internal/strategies/strategy.go: what the registry holds after `init`.
use coinex_bot.Prelude.{
  ◌≡◌, refl, ◌∙◌, true, false, Bool, not, ◌&&◌, List, [], ◌∷◌, some, arith, All, Text, text_eq,
  text_eq_refl, if◌then◌else◌,
}
use coinex_bot.Prelude.Dict.{lookup-insert}
use coinex_bot.Number.{Float}
use coinex_bot.Strategies.Registry.{
  BuiltIn, name_of, Registry, register_strategy, get_strategy, register_all, built_ins,
}

abbrev pub IsOther : {F : Type 0} → Text → List (BuiltIn F) → Type 0
IsOther name ss = All (λ s. text_eq (name_of s) name ≡ false) ss

-- No two strategies of the list share a name.
abbrev AreApart : {F : Type 0} → List (BuiltIn F) → Type 0
AreApart [] = Unit {0}
AreApart (s ∷ ss) = IsOther (name_of s) ss × AreApart ss

-- The same as a test.
abbrev is_new : {F : Type 0} → Text → List (BuiltIn F) → Bool
is_new name [] = true
is_new name (s ∷ ss) = not (text_eq (name_of s) name) && is_new name ss

abbrev apart : {F : Type 0} → List (BuiltIn F) → Bool
apart [] = true
apart (s ∷ ss) = is_new (name_of s) ss && apart ss

module _ {F : Type 0} where
  is_new-IsOther : (name : Text) (ss : List (BuiltIn F)) → is_new name ss ≡ true → IsOther name ss
  is_new-IsOther name [] h = tt
  is_new-IsOther name (s ∷ ss) h = (ground arith, is_new-IsOther name ss (ground arith))

  apart-AreApart : (ss : List (BuiltIn F)) → apart ss ≡ true → AreApart ss
  apart-AreApart [] h = tt
  apart-AreApart (s ∷ ss) h =
      (is_new-IsOther (name_of s) ss (ground arith), apart-AreApart ss (ground arith))

  get_strategy-other :
      (name : Text) (ss : List (BuiltIn F)) (r : Registry F)
      → IsOther name ss
      → get_strategy name (register_all ss r) ≡ get_strategy name r
  unfolding get_strategy register_all register_strategy
  get_strategy-other name [] r h = refl
  get_strategy-other name (s ∷ ss) r h =
      get_strategy-other name ss (register_strategy s r) h.1
      ∙ lookup-insert (name_of s) name s r
      ∙ rw (h.0, if◌then◌else◌) refl

  get_strategy-register_all :
      (ss : List (BuiltIn F)) (r : Registry F)
      → AreApart ss
      → All (λ s. get_strategy (name_of s) (register_all ss r) ≡ some s) ss
  unfolding get_strategy register_all register_strategy
  get_strategy-register_all [] r h = tt
  get_strategy-register_all (s ∷ ss) r h = (
    get_strategy-other (name_of s) ss (register_strategy s r) h.0
        ∙ lookup-insert (name_of s) (name_of s) s r
        ∙ rw (text_eq_refl (name_of s), if◌then◌else◌) refl,
    get_strategy-register_all ss (register_strategy s r) h.1,
  )

module _ (F : Type 0) ⦃f : Float F⦄ where
  -- The names of the strategies that `init` registers are all different, so the 22 registrations leave
  -- each of them to be found under its name, whatever was registered before; any other name still gives
  -- what it gave.
  pub get_strategy-built_ins :
      (r : Registry F)
      → All (λ s. get_strategy (name_of s) (register_all built_ins r) ≡ some s) (built_ins {F = F})
        × ((name : Text)
            → IsOther name (built_ins {F = F})
            → get_strategy name (register_all built_ins r) ≡ get_strategy name r)
  unfolding built_ins name_of text_eq
  get_strategy-built_ins r = (
    get_strategy-register_all built_ins r (apart-AreApart {F = F} built_ins refl),
    λ name other. get_strategy-other name built_ins r other,
  )
