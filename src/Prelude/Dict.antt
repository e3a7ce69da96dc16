-- ===== src/Prelude/Dict.antt =====
-- Go's map[string]V as an association list over byte strings. Go leaves the order of a `range` over
-- a map open; the list stands for one order, and what must not depend on it is proved for all.
use mathlib.Core.Path.{subst₂}
use coinex_bot.Prelude.{
  ◌≤◌, suc, ◌≡◌, refl, inl, inr, Bool, true, false, List, [], ◌∷◌, Option, none, some, arith,
  if◌then◌else◌, Bool-cases, length, Text, text_eq, text_eq_iff, text_eq_refl, eq_of_text_eq,
}

abbrev pub Dict {ℓ} : Type ℓ → Type ℓ
Dict V = List (Text × V)

module _ {ℓ} {V : Type ℓ} where
  -- `v, ok := m[k]`
  unfoldable pub lookup : Text → Dict V → Option V
  lookup k [] = none
  lookup k ((j, v) ∷ m) = if text_eq j k then some v else lookup k m

  -- `m[k] = v`
  unfoldable pub insert : Text → V → Dict V → Dict V
  insert k v [] = (k, v) ∷ []
  insert k v ((j, w) ∷ m) = if text_eq j k then (j, v) ∷ m else (j, w) ∷ insert k v m

  -- `delete(m, k)`
  unfoldable pub delete : Text → Dict V → Dict V
  delete k [] = []
  delete k ((j, w) ∷ m) = if text_eq j k then m else (j, w) ∷ delete k m

  abbrev pub has : Text → Dict V → Bool
  has k m = elim (lookup k m) [ none ↦ false | some _ ↦ true ]

  abbrev pub values : Dict V → List V
  values [] = []
  values ((k, v) ∷ m) = v ∷ values m

  abbrev pub Absent : Text → Dict V → Type 0
  Absent k [] = Unit {0}
  Absent k ((j, w) ∷ m) = (text_eq j k ≡ false) × Absent k m

  -- Every key stands once: what makes the list a map.
  abbrev pub Distinct : Dict V → Type 0
  Distinct [] = Unit {0}
  Distinct ((k, v) ∷ m) = Absent k m × Distinct m

  -- `ground` is given `text_eq_iff` at each pair of keys that is compared.
  pub lookup-insert :
      (k j : Text) (v : V) (m : Dict V)
      → lookup j (insert k v m) ≡ (if text_eq k j then some v else lookup j m)
  unfolding lookup insert
  lookup-insert k j v [] = refl
  lookup-insert k j v ((i, w) ∷ m) = ground (
    arith,
    text_eq_iff k j,
    text_eq_iff i k,
    text_eq_iff i j,
    text_eq_refl k,
    lookup-insert k j v m,
  )

  pub lookup-Absent : (k : Text) (m : Dict V) → Absent k m → lookup k m ≡ none
  unfolding lookup
  lookup-Absent k [] h = refl
  lookup-Absent k ((j, w) ∷ m) h = ground (arith, lookup-Absent k m h.1)

  pub Absent-lookup : (k : Text) (m : Dict V) → lookup k m ≡ none → Absent k m
  unfolding lookup
  Absent-lookup k [] h = tt
  Absent-lookup k ((j, w) ∷ m) h = ground (arith, Absent-lookup k m)

  pub lookup-delete :
      (k j : Text) (m : Dict V)
      → Distinct m
      → lookup j (delete k m) ≡ (if text_eq k j then none else lookup j m)
  unfolding lookup delete
  lookup-delete k j [] d = ground arith
  lookup-delete k j ((i, w) ∷ m) d = ground (
    arith,
    text_eq_iff k j,
    text_eq_iff i k,
    text_eq_iff i j,
    lookup-Absent i m d.0,
    lookup-delete k j m d.1,
  )

  Absent-insert :
      (i k : Text) (v : V) (m : Dict V) → text_eq k i ≡ false → Absent i m → Absent i (insert k v m)
  unfolding insert
  Absent-insert i k v [] e a = (e, tt)
  Absent-insert i k v ((j, w) ∷ m) e a = ground (arith, Absent-insert i k v m e a.1)

  Absent-delete : (i k : Text) (m : Dict V) → Absent i m → Absent i (delete k m)
  unfolding delete
  Absent-delete i k [] a = tt
  Absent-delete i k ((j, w) ∷ m) a = ground (arith, Absent-delete i k m a.1)

  pub Distinct-insert : (k : Text) (v : V) (m : Dict V) → Distinct m → Distinct (insert k v m)
  unfolding insert
  Distinct-insert k v [] d = (tt, tt)
  Distinct-insert k v ((j, w) ∷ m) d =
      ground
        (arith, text_eq_iff k j, text_eq_iff j k, Absent-insert j k v m, Distinct-insert k v m d.1)

  pub Distinct-delete : (k : Text) (m : Dict V) → Distinct m → Distinct (delete k m)
  unfolding delete
  Distinct-delete k [] d = tt
  Distinct-delete k ((j, w) ∷ m) d =
      ground (arith, Absent-delete j k m d.0, Distinct-delete k m d.1)

  pub length-insert_new :
      (k : Text) (v : V) (m : Dict V) → lookup k m ≡ none → length (insert k v m) ≡ suc (length m)
  unfolding lookup insert
  length-insert_new k v [] h = refl
  length-insert_new k v ((j, w) ∷ m) h = ground (arith, length-insert_new k v m)

  pub length-insert_old :
      (k : Text) (v w : V) (m : Dict V) → lookup k m ≡ some w → length (insert k v m) ≡ length m
  unfolding lookup insert
  length-insert_old k v w [] h = ground arith
  length-insert_old k v w ((j, u) ∷ m) h = ground (arith, length-insert_old k v w m)

  pub length-delete :
      (k : Text) (w : V) (m : Dict V) → lookup k m ≡ some w → suc (length (delete k m)) ≡ length m
  unfolding lookup delete
  length-delete k w [] h = ground arith
  length-delete k w ((j, u) ∷ m) h = ground (arith, length-delete k w m)

  pub delete-insert :
      (k : Text) (v : V) (m : Dict V) → lookup k m ≡ none → delete k (insert k v m) ≡ m
  unfolding lookup insert delete
  delete-insert k v [] h = ground (arith, text_eq_refl k)
  delete-insert k v ((j, w) ∷ m) h = ground (arith, delete-insert k v m)

  -- A property of all entries, keys included.
  module _ {κ} (P : Text → V → Type κ) where
    abbrev pub Entries : Dict V → Type κ
    Entries [] = Unit
    Entries ((k, v) ∷ m) = P k v × Entries m

    pub Entries-insert_new :
        (k : Text) (v : V) (m : Dict V)
        → lookup k m ≡ none
        → P k v
        → Entries m
        → Entries (insert k v m)
    unfolding lookup insert
    Entries-insert_new k v [] h p e = (p, tt)
    Entries-insert_new k v ((j, w) ∷ m) h p e = elim (Bool-cases (text_eq j k)) [
      | inl same ↦ ground arith
      | inr other ↦ rw other (e.0, Entries-insert_new k v m (rw (other, lookup) at h) p e.1)
    ]

    pub Entries-delete : (k : Text) (m : Dict V) → Entries m → Entries (delete k m)
    unfolding delete
    Entries-delete k [] e = tt
    Entries-delete k ((j, w) ∷ m) e = elim (Bool-cases (text_eq j k)) [
      | inl same ↦ rw same e.1
      | inr other ↦ rw other (e.0, Entries-delete k m e.1)
    ]

    pub Entries-lookup : (k : Text) (v : V) (m : Dict V) → lookup k m ≡ some v → Entries m → P k v
    unfolding lookup
    Entries-lookup k v [] h e = ground arith
    Entries-lookup k v ((j, w) ∷ m) h e = elim (Bool-cases (text_eq j k)) [
      | inl same ↦ subst₂ P (eq_of_text_eq j k same) (ground arith) e.0
      | inr other ↦ Entries-lookup k v m (rw (other, lookup) at h) e.1
    ]

  pub length-insert_bound : (k : Text) (v : V) (m : Dict V) → length (insert k v m) ≤ suc (length m)
  unfolding insert
  length-insert_bound k v [] = omega arith
  length-insert_bound k v ((j, w) ∷ m) = ground (arith, length-insert_bound k v m)

  pub length-delete_bound : (k : Text) (m : Dict V) → length (delete k m) ≤ length m
  unfolding delete
  length-delete_bound k [] = omega arith
  length-delete_bound k ((j, w) ∷ m) = ground (arith, length-delete_bound k m)
