-- ===== src/Reporting/Cli.antt =====
-- CliParser of reporting/include/reporting/cli.hpp and reporting/src/cli.cpp. A string is a number,
-- equal where the strings are: the parser only compares them.
pub mod Settings
pub mod Queries
pub mod Render
mod Tests
use velox_quant.Base.{
  ℕ, ◌==◌, Bool, true, false, ◌||◌, if◌then◌else◌, Option, none, some, List, [], ◌∷◌, ◌++◌, Assoc,
  lookup, insert,
}

pub record FlagDef : Type 0 where
  pub lng : ℕ
  pub shrt : ℕ
  pub desc : ℕ

pub record OptionDef : Type 0 where
  pub lng : ℕ
  pub shrt : ℕ
  pub meta : ℕ
  pub desc : ℕ

pub record CliParser : Type 0 where
  pub prog_name : ℕ
  pub description : ℕ
  pub flags : List FlagDef
  pub options : List OptionDef

-- `errors` holds the options that lack their argument.
pub record ParsedArgs : Type 0 where
  pub flags : Assoc Bool
  pub options : Assoc ℕ
  pub positional : List ℕ
  pub errors : List ℕ

abbrev pub no_args : ParsedArgs
no_args = record { flags = []; options = []; positional = []; errors = [] }

abbrev pub new_cli : ℕ → ℕ → CliParser
new_cli prog description = record {
  prog_name = prog;
  description = description;
  flags = [];
  options = [];
}

unfoldable pub add_flag : ℕ → ℕ → ℕ → CliParser → CliParser
add_flag lng shrt desc p = record p {
  flags = p.flags ++ record { lng = lng; shrt = shrt; desc = desc } ∷ [];
}

unfoldable pub add_option : ℕ → ℕ → ℕ → ℕ → CliParser → CliParser
add_option lng shrt meta desc p = record p {
  options = p.options ++ record { lng = lng; shrt = shrt; meta = meta; desc = desc } ∷ [];
}

-- The first flag that a token names, by its long name.
unfoldable pub named_flag : ℕ → List FlagDef → Option ℕ
named_flag tok [] = none
named_flag tok (f ∷ more) =
    let later = named_flag tok more in
    if (tok == f.lng) || (tok == f.shrt) then some f.lng else later

unfoldable pub named_option : ℕ → List OptionDef → Option ℕ
named_option tok [] = none
named_option tok (o ∷ more) =
    let later = named_option tok more in
    if (tok == o.lng) || (tok == o.shrt) then some o.lng else later

abbrev pub set_flag : ℕ → ParsedArgs → ParsedArgs
set_flag lng r = record r { flags = insert lng true r.flags }

abbrev pub set_option : ℕ → ℕ → ParsedArgs → ParsedArgs
set_option lng val r = record r { options = insert lng val r.options }

abbrev pub add_positional : ℕ → ParsedArgs → ParsedArgs
add_positional tok r = record r { positional = r.positional ++ tok ∷ [] }

abbrev pub add_error : ℕ → ParsedArgs → ParsedArgs
add_error tok r = record r { errors = r.errors ++ tok ∷ [] }

-- The loop over the tokens behind the name of the program.
unfoldable pub parse_from : CliParser → List ℕ → ParsedArgs → ParsedArgs
parse_from p [] r = r
parse_from p (tok ∷ []) r = elim (named_flag tok p.flags) [
  | some f ↦ set_flag f r
  | none ↦ elim (named_option tok p.options) [
    | some o ↦ add_error tok r
    | none ↦ add_positional tok r
  ]
]
parse_from p (tok ∷ next ∷ more) r = elim (named_flag tok p.flags) [
  | some f ↦ parse_from p (next ∷ more) (set_flag f r)
  | none ↦ elim (named_option tok p.options) [
    | some o ↦ parse_from p more (set_option o next r)
    | none ↦ parse_from p (next ∷ more) (add_positional tok r)
  ]
]

unfoldable pub parse : CliParser → List ℕ → ParsedArgs
parse p [] = no_args
parse p (program ∷ tokens) = parse_from p tokens no_args

-- `ParsedArgs::flag`
unfoldable pub flag : ℕ → ParsedArgs → Bool
flag name r = elim (lookup name r.flags) [ none ↦ false | some b ↦ b ]

unfoldable pub option : ℕ → ParsedArgs → Option ℕ
option name r = lookup name r.options

unfoldable pub option_or : ℕ → ℕ → ParsedArgs → ℕ
option_or name dflt r = elim (option name r) [ none ↦ dflt | some val ↦ val ]
