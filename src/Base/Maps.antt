-- ===== src/Base/Maps.antt =====
-- `std::unordered_map` with numeric keys, as an association list.
use Prim.Native.Nat.{ℕ}
use mathlib.Core.Path.{◌≡◌, refl}
use mathlib.Core.Bool.{Bool, true, false}
use mathlib.Core.List.{List, [], ◌∷◌}
use mathlib.Core.Option.{Option, none, some}
use native.Mathlib.Omega.{arith}
use mathlib.Core.Logic.{inl, inr}
use velox_quant.Base.Tests.{◌==◌, if◌then◌else◌, Bool-cases}

abbrev pub Assoc {ℓ} : Type ℓ → Type ℓ
Assoc V = List (ℕ × V)

module _ {ℓ} {V : Type ℓ} where
  -- `m[key] = val`: an entry that is there already is replaced in its place.
  unfoldable pub insert : ℕ → V → Assoc V → Assoc V
  insert key val [] = (key, val) ∷ []
  insert key val ((here, old) ∷ more) =
      if here == key then (key, val) ∷ more else (here, old) ∷ insert key val more

  -- `m.erase(key)`
  unfoldable pub erase : ℕ → Assoc V → Assoc V
  erase key [] = []
  erase key ((here, old) ∷ more) =
      let others = erase key more in if here == key then others else (here, old) ∷ others

  -- `m.find(key)`; the end of the map is `none`.
  unfoldable pub lookup : ℕ → Assoc V → Option V
  lookup key [] = none
  lookup key ((here, val) ∷ more) =
      let found_later = lookup key more in if here == key then some val else found_later

  -- `m.contains(key)`
  unfoldable pub contains : ℕ → Assoc V → Bool
  contains key [] = false
  contains key ((here, val) ∷ more) = if here == key then true else contains key more

  pub lookup-insert :
      (key other : ℕ) (val : V) (map : Assoc V)
      → lookup other (insert key val map) ≡ (if key == other then some val else lookup other map)
  unfolding lookup insert
  lookup-insert key other val [] = refl
  lookup-insert key other val ((here, old) ∷ more) =
      ground (arith, lookup-insert key other val more)

  pub lookup-erase :
      (k j : ℕ) (m : Assoc V) → lookup j (erase k m) ≡ (if k == j then none else lookup j m)
  unfolding lookup erase
  lookup-erase k j [] = ground arith
  lookup-erase k j ((i, w) ∷ m) = ground (arith, lookup-erase k j m)

  pub contains-lookup :
      (k : ℕ) (m : Assoc V) → contains k m ≡ elim (lookup k m) [ none ↦ false | some _ ↦ true ]
  unfolding lookup contains
  contains-lookup k [] = refl
  contains-lookup k ((j, w) ∷ m) = ground (arith, contains-lookup k m)

  pub contains→lookup :
      (k : ℕ) (m : Assoc V) → contains k m ≡ true → (v : V) × (lookup k m ≡ some v)
  unfolding lookup contains
  contains→lookup k [] h = absurd (let no : false ≡ true = h in cc)
  contains→lookup k ((j, w) ∷ m) h = elim (Bool-cases (j == k)) [
    | inl e ↦ (w, rw e refl)
    | inr e ↦ let (v, p) = contains→lookup k m (rw e at h) in (v, rw e p)
  ]
