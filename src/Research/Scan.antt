-- ===== src/Research/Scan.antt =====
-- ParameterScan of research/include/research/parameter_scan.hpp and research/src/parameter_scan.cpp,
-- and run_scan. `max_size` is the largest size that a vector of the results may have. A name is a number, equal where the strings are; `junk` is what a read beyond a range
-- would give.
pub mod Choices
pub mod Product
mod Tests
use velox_quant.Base.{
  ℕ, zero, suc, ◌+◌, ◌*◌, ◌%◌, ◌^◌, ◌==◌, ltb, Bool, true, false, if◌then◌else◌, Option, none, some,
  List, [], ◌∷◌, ◌++◌, length, get_or, map, replicate, Assoc, insert,
}

pub record ParameterScan {ℓ} (V : Type ℓ) : Type ℓ where
  pub param_names : List ℕ
  pub ranges : List (List V)

-- A result with the parameters it was run with.
pub record Run {ℓ κ} (V : Type ℓ) (R : Type κ) : Type (ℓ ⊔ κ) where
  pub params : Assoc V
  pub outcome : R

module _ {ℓ} {V : Type ℓ} where
  -- The assertion that the values are not empty is off in a release build.
  unfoldable pub add_range : ℕ → List V → ParameterScan V → ParameterScan V
  add_range name values s = record {
    param_names = s.param_names ++ name ∷ [];
    ranges = s.ranges ++ values ∷ [];
  }

  -- `n *= r.size()` for every range, in a `size_t`
  unfoldable pub product_of_sizes : ℕ → List (List V) → ℕ
  product_of_sizes n [] = n
  product_of_sizes n (r ∷ more) = product_of_sizes (n * length r % 2 ^ 64) more

  unfoldable pub combination_count : List (List V) → ℕ
  combination_count [] = 0
  combination_count (r ∷ more) = product_of_sizes 1 (r ∷ more)

  -- The odometer, from its last dimension: the flag says that a carry leaves its first one.
  unfoldable pub increment : List (List V) → List ℕ → List ℕ × Bool
  increment [] idx = (idx, true)
  increment (r ∷ more) [] = ([], true)
  increment (r ∷ more) (i ∷ idx) =
      let later = increment more idx in
      if later.1
      then (if ltb (suc i) (length r) then ((suc i) ∷ later.0, false) else (0 ∷ later.0, true))
      else (i ∷ later.0, false)

  -- `ranges_[i][idx[i]]` for every i
  unfoldable pub values_at : V → List (List V) → List ℕ → List V
  values_at junk [] idx = []
  values_at junk (r ∷ more) [] = []
  values_at junk (r ∷ more) (i ∷ idx) = get_or r i junk ∷ values_at junk more idx

  -- `params[names_[i]] = ...` for every i, in the order of the names
  unfoldable pub params_of : List ℕ → List V → Assoc V → Assoc V
  params_of (name ∷ names) (v ∷ vs) params = params_of names vs (insert name v params)
  params_of names vs params = params

  unfoldable pub enumerate : V → List ℕ → List (List V) → ℕ → List ℕ → List (Assoc V)
  enumerate junk names ranges zero idx = []
  enumerate junk names ranges (suc total) idx =
      params_of names (values_at junk ranges idx) []
      ∷ enumerate junk names ranges total (increment ranges idx).0

  -- `none` is the exception of `reserve` for more than `max_size` results.
  unfoldable pub combinations : ℕ → V → ParameterScan V → Option (List (Assoc V))
  combinations max_size junk s =
      let total = combination_count s.ranges in
      if total == 0
      then some []
      else if ltb max_size total
      then none
      else some (enumerate junk s.param_names s.ranges total (replicate (length s.param_names) 0))

  unfoldable pub run_scan {κ} :
      {R : Type κ} → ℕ → V → ParameterScan V → (Assoc V → R) → Option (List (Run V R))
  run_scan max_size junk s fn = elim (combinations max_size junk s) [
    | none ↦ none
    | some all ↦ some (map (λ params. record { params = params; outcome = fn params }) all)
  ]
