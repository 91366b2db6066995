-- ===== src/Reporting/Cli/Tests.antt =====
-- A parser with one flag (1, or 2) and one option (3, or 4).
use velox_quant.Base.{refl, inl, inr, arith, List, [], ◌∷◌, ◌++◌}
use velox_quant.Reporting.Cli.{CliParser, parse}
use velox_quant.Reporting.Cli.Settings.{Setting, flag_set, option_set, word, render}
use velox_quant.Reporting.Cli.Queries.{Answers}
use velox_quant.Reporting.Cli.Render.{parse-render}

abbrev small_parser : CliParser
small_parser = record {
  prog_name = 0;
  description = 0;
  flags = record { lng = 1; shrt = 2; desc = 0 } ∷ [];
  options = record { lng = 3; shrt = 4; meta = 0; desc = 0 } ∷ [];
}

abbrev three_settings : List Setting
three_settings = flag_set 2 1 ∷ option_set 3 3 77 ∷ word 9 ∷ []

parse-render_example :
    Answers three_settings [] (parse small_parser (0 ∷ render three_settings))
    × Answers three_settings (4 ∷ []) (parse small_parser (0 ∷ render three_settings ++ 4 ∷ []))
parse-render_example =
    parse-render small_parser 0 three_settings 4 3
      (
        inl (inr refl, refl),
        (
          (((ground arith, ground arith), tt), inl (inl refl, refl)),
          ((((ground arith, ground arith), tt), ((ground arith, ground arith), tt)), tt),
        ),
      )
      ((ground arith, ground arith), tt) (inl (inr refl, refl))
