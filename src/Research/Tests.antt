-- ===== src/Research/Tests.antt =====
-- A run of `make_windows` on ten bars.
use velox_quant.Base.{◌≡◌, List, some, arith}
use velox_quant.Research.Windows.{
  WalkForwardConfig, WalkForwardWindow, make_windows, Tiles, make_windows-Tiles,
}

abbrev short_config : WalkForwardConfig
short_config = record { train_bars = 4; test_bars = 2; step_bars = 3 }

make_windows-Tiles_example :
    (ws : List WalkForwardWindow) × (make_windows short_config 10 ≡ some ws)
    × Tiles short_config 10 0 0 ws
make_windows-Tiles_example =
    make_windows-Tiles short_config 10 (omega arith)
      (record { window = omega arith; last_step = omega arith })
