-- ===== src/Research/Scan/Product.antt =====
-- The odometer of research/src/parameter_scan.cpp gives the product of the ranges, each choice once,
-- with the last range varying fastest.
use velox_quant.Base.{ℕ, List, [], Assoc}
use velox_quant.Research.Scan.{params_of}

module _ {ℓ} {V : Type ℓ} where
  -- The parameters of a choice.
  abbrev pub named : List ℕ → List V → Assoc V
  named names vs = params_of names vs []
