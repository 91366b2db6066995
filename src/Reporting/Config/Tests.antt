-- ===== src/Reporting/Config/Tests.antt =====
-- The configuration "a.b: c" and "d: e".
use velox_quant.Base.{◌≡◌, refl, [], ◌∷◌}
use velox_quant.Reporting.Config.{
  Store, dot, after, before, trim, trim_front, trim_back, indent, is_empty, is_quoted, eqb_text,
  get_string, parse, dump,
}
use velox_quant.Reporting.Config.Texts.{absent}
use velox_quant.Reporting.Config.RoundTrip.{IsEntry, Fresh, parse-dump}

abbrev two_entries : Store
two_entries = (97 ∷ dot ∷ 98 ∷ [], 99 ∷ []) ∷ (100 ∷ [], 101 ∷ []) ∷ []

first-IsEntry : IsEntry (97 ∷ dot ∷ 98 ∷ [], 99 ∷ [])
unfolding IsEntry absent trim trim_front trim_back indent is_empty is_quoted after before
first-IsEntry = (
  record { one_line = refl; no_comment = refl; trimmed = refl; filled = refl; unquoted = refl },
  (
    record {
      one_line = refl;
      no_comment = refl;
      no_colon = refl;
      trimmed = refl;
      at_start = refl;
      filled = refl;
    },
    record {
      one_line = refl;
      no_comment = refl;
      no_colon = refl;
      trimmed = refl;
      at_start = refl;
      filled = refl;
    },
  ),
)

second-IsEntry : IsEntry (100 ∷ [], 101 ∷ [])
unfolding IsEntry absent trim trim_front trim_back indent is_empty is_quoted after before
second-IsEntry = (
  record { one_line = refl; no_comment = refl; trimmed = refl; filled = refl; unquoted = refl },
  record {
    one_line = refl;
    no_comment = refl;
    no_colon = refl;
    trimmed = refl;
    at_start = refl;
    filled = refl;
  },
)

parse-dump_example : parse (dump two_entries) ≡ two_entries
unfolding Fresh get_string eqb_text
parse-dump_example = parse-dump two_entries (first-IsEntry, (second-IsEntry, tt)) (refl, (refl, tt))
