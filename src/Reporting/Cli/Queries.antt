-- ===== src/Reporting/Cli/Queries.antt =====
-- What the queries of ParsedArgs in reporting/include/reporting/cli.hpp answer once settings are applied.
use velox_quant.Base.{
  ℕ, ◌≡◌, ◌==◌, Bool, true, false, ◌||◌, if◌then◌else◌, refl, sym, ap, ◌∙◌, Option, none, some,
  List, [], ◌∷◌, ◌++◌, append-nil, append_assoc, lookup, lookup-insert, arith,
}
use velox_quant.Reporting.Cli.{
  ParsedArgs, flag, option, set_flag, set_option, add_positional, add_error, no_args,
}
use velox_quant.Reporting.Cli.Settings.{
  Setting, flag_set, option_set, word, apply_settings, flag_set, option_set, word,
}

errors-apply_settings :
    (settings : List Setting) (r : ParsedArgs) → (apply_settings settings r).errors ≡ r.errors
unfolding apply_settings
errors-apply_settings [] r = refl
errors-apply_settings (flag_set tok lng ∷ more) r = errors-apply_settings more (set_flag lng r)
errors-apply_settings (option_set tok lng val ∷ more) r =
    errors-apply_settings more (set_option lng val r)
errors-apply_settings (word tok ∷ more) r = errors-apply_settings more (add_positional tok r)

-- Whether a flag is among the settings, by its long name.
unfoldable pub is_set : ℕ → List Setting → Bool
is_set name [] = false
is_set name (flag_set tok lng ∷ more) = (lng == name) || is_set name more
is_set name (_ ∷ more) = is_set name more

-- The last value of an option among the settings, by its long name.
unfoldable pub last_value : ℕ → List Setting → Option ℕ
last_value name [] = none
last_value name (option_set tok lng val ∷ more) = elim (last_value name more) [
  | some later ↦ some later
  | none ↦ if lng == name then some val else none
]
last_value name (_ ∷ more) = last_value name more

unfoldable pub words : List Setting → List ℕ
words [] = []
words (word tok ∷ more) = tok ∷ words more
words (_ ∷ more) = words more

-- The queries of a result answer by the settings.
pub record Answers (settings : List Setting) (lacks : List ℕ) (r : ParsedArgs) : Type 0 where
  pub flags_ok : (name : ℕ) → flag name r ≡ is_set name settings
  pub options_ok : (name : ℕ) → option name r ≡ last_value name settings
  pub words_ok : r.positional ≡ words settings
  pub errors_ok : r.errors ≡ lacks

flag-set_flag :
    (name lng : ℕ) (r : ParsedArgs) → flag name (set_flag lng r) ≡ (lng == name) || flag name r
unfolding flag
flag-set_flag name lng r = ground (arith, lookup-insert lng name true r.flags)

flag-apply_settings :
    (name : ℕ) (settings : List Setting) (r : ParsedArgs)
    → flag name (apply_settings settings r) ≡ is_set name settings || flag name r
unfolding apply_settings is_set flag
flag-apply_settings name [] r = refl
flag-apply_settings name (flag_set tok lng ∷ more) r =
    ground (arith, flag-apply_settings name more (set_flag lng r), flag-set_flag name lng r)
flag-apply_settings name (option_set tok lng val ∷ more) r =
    flag-apply_settings name more (set_option lng val r)
flag-apply_settings name (word tok ∷ more) r = flag-apply_settings name more (add_positional tok r)

option-apply_settings :
    (name : ℕ) (settings : List Setting) (r : ParsedArgs)
    → option name (apply_settings settings r)
      ≡ elim (last_value name settings) [ some val ↦ some val | none ↦ option name r ]
unfolding apply_settings last_value option
option-apply_settings name [] r = refl
option-apply_settings name (flag_set tok lng ∷ more) r =
    option-apply_settings name more (set_flag lng r)
option-apply_settings name (option_set tok lng val ∷ more) r = ground (
  arith,
  option-apply_settings name more (set_option lng val r),
  lookup-insert lng name val r.options,
)
option-apply_settings name (word tok ∷ more) r =
    option-apply_settings name more (add_positional tok r)

positional-apply_settings :
    (settings : List Setting) (r : ParsedArgs)
    → (apply_settings settings r).positional ≡ r.positional ++ words settings
unfolding apply_settings words
positional-apply_settings [] r = sym (append-nil r.positional)
positional-apply_settings (flag_set tok lng ∷ more) r =
    positional-apply_settings more (set_flag lng r)
positional-apply_settings (option_set tok lng val ∷ more) r =
    positional-apply_settings more (set_option lng val r)
positional-apply_settings (word tok ∷ more) r =
    positional-apply_settings more (add_positional tok r)
    ∙ append_assoc r.positional (tok ∷ []) (words more)

pub Answers-apply_settings :
    (settings : List Setting) → Answers settings [] (apply_settings settings no_args)
unfolding flag option lookup
Answers-apply_settings settings = record {
  flags_ok = λ name. ground (arith, flag-apply_settings name settings no_args);
  options_ok = λ name. ground (arith, option-apply_settings name settings no_args);
  words_ok = positional-apply_settings settings no_args;
  errors_ok = errors-apply_settings settings no_args;
}

pub Answers-add_error :
    (settings : List Setting) (tok : ℕ) (r : ParsedArgs)
    → Answers settings [] r
    → Answers settings (tok ∷ []) (add_error tok r)
unfolding flag option
Answers-add_error settings tok r h = record {
  flags_ok = h.flags_ok;
  options_ok = h.options_ok;
  words_ok = h.words_ok;
  errors_ok = ap (λ es. es ++ tok ∷ []) h.errors_ok;
}
