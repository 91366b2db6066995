-- ===== src/Research/Scan/Tests.antt =====
-- A grid of two and three values.
use velox_quant.Base.{ℕ, [], ◌∷◌}
use velox_quant.Research.Scan.{ParameterScan}

abbrev grid : ParameterScan ℕ
grid = record { param_names = 7 ∷ 8 ∷ []; ranges = (1 ∷ 2 ∷ []) ∷ (10 ∷ 20 ∷ 30 ∷ []) ∷ [] }
