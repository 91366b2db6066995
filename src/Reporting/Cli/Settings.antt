-- ===== src/Reporting/Cli/Settings.antt =====
-- The settings that a command line for CliParser of reporting/src/cli.cpp is written from.
use velox_quant.Base.{ℕ, ◌≡◌, ◌≢◌, ◌⊎◌, inl, inr, refl, none, some, List, [], ◌∷◌, All, map, arith}
use velox_quant.Reporting.Cli.{
  CliParser, ParsedArgs, FlagDef, OptionDef, named_flag, named_option, set_flag, set_option,
  add_positional,
}

-- A setting on the command line: a flag or an option by one of its names, with its long name, or
-- another word.
pub data Setting : Type 0 where
  flag_set : ℕ → ℕ → Setting
  option_set : ℕ → ℕ → ℕ → Setting
  word : ℕ → Setting

unfoldable pub render : List Setting → List ℕ
render [] = []
render (flag_set tok lng ∷ more) = tok ∷ render more
render (option_set tok lng val ∷ more) = tok ∷ val ∷ render more
render (word tok ∷ more) = tok ∷ render more

-- A name is neither the long nor the short name of any entry.
abbrev pub NotNamed : ℕ → List (ℕ × ℕ) → Type 0
NotNamed tok names = All (λ n. (tok ≢ n.0) × (tok ≢ n.1)) names

-- The first entry that has a name as its long or its short one has this long name.
abbrev pub NamedFirst : ℕ → ℕ → List (ℕ × ℕ) → Type 0
NamedFirst tok lng [] = ⊥
NamedFirst tok lng (n ∷ more) =
    (((tok ≡ n.0) ⊎ (tok ≡ n.1)) × (n.0 ≡ lng))
    ⊎ ((tok ≢ n.0) × (tok ≢ n.1) × NamedFirst tok lng more)

abbrev pub flag_names : CliParser → List (ℕ × ℕ)
flag_names p = map (λ f. (f.lng, f.shrt)) p.flags

abbrev pub option_names : CliParser → List (ℕ × ℕ)
option_names p = map (λ o. (o.lng, o.shrt)) p.options

-- The names are those of a flag, of an option and not of a flag, and of neither.
abbrev pub Fits : CliParser → Setting → Type 0
Fits p (flag_set tok lng) = NamedFirst tok lng (flag_names p)
Fits p (option_set tok lng val) = NotNamed tok (flag_names p) × NamedFirst tok lng (option_names p)
Fits p (word tok) = NotNamed tok (flag_names p) × NotNamed tok (option_names p)

pub named_flag-none :
    (tok : ℕ) (flags : List FlagDef)
    → NotNamed tok (map (λ f. (f.lng, f.shrt)) flags)
    → named_flag tok flags ≡ none
unfolding named_flag
named_flag-none tok [] h = refl
named_flag-none tok (f ∷ more) h = ground (arith, h.0, named_flag-none tok more h.1)

named_option-none :
    (tok : ℕ) (options : List OptionDef)
    → NotNamed tok (map (λ o. (o.lng, o.shrt)) options)
    → named_option tok options ≡ none
unfolding named_option
named_option-none tok [] h = refl
named_option-none tok (o ∷ more) h = ground (arith, h.0, named_option-none tok more h.1)

named_flag-first :
    (tok lng : ℕ) (flags : List FlagDef)
    → NamedFirst tok lng (map (λ f. (f.lng, f.shrt)) flags)
    → named_flag tok flags ≡ some lng
unfolding named_flag
named_flag-first tok lng [] h = absurd h
named_flag-first tok lng (f ∷ more) (inl (inl is, e)) = ground arith
named_flag-first tok lng (f ∷ more) (inl (inr is, e)) = ground arith
named_flag-first tok lng (f ∷ more) (inr (a, b, later)) =
    ground (arith, named_flag-first tok lng more later)

pub named_option-first :
    (tok lng : ℕ) (options : List OptionDef)
    → NamedFirst tok lng (map (λ o. (o.lng, o.shrt)) options)
    → named_option tok options ≡ some lng
unfolding named_option
named_option-first tok lng [] h = absurd h
named_option-first tok lng (o ∷ more) (inl (inl is, e)) = ground arith
named_option-first tok lng (o ∷ more) (inl (inr is, e)) = ground arith
named_option-first tok lng (o ∷ more) (inr (a, b, later)) =
    ground (arith, named_option-first tok lng more later)

-- What the parser finds of the names of a setting.
abbrev pub Found : CliParser → Setting → Type 0
Found p (flag_set tok lng) = named_flag tok p.flags ≡ some lng
Found p (option_set tok lng val) =
    (named_flag tok p.flags ≡ none) × (named_option tok p.options ≡ some lng)
Found p (word tok) = (named_flag tok p.flags ≡ none) × (named_option tok p.options ≡ none)

Found-Fits : (p : CliParser) (s : Setting) → Fits p s → Found p s
Found-Fits p (flag_set tok lng) h = named_flag-first tok lng p.flags h
Found-Fits p (option_set tok lng val) h =
    (named_flag-none tok p.flags h.0, named_option-first tok lng p.options h.1)
Found-Fits p (word tok) h = (named_flag-none tok p.flags h.0, named_option-none tok p.options h.1)

pub All-Found :
    (p : CliParser) (settings : List Setting) → All (Fits p) settings → All (Found p) settings
All-Found p [] h = tt
All-Found p (s ∷ more) h = (Found-Fits p s h.0, All-Found p more h.1)

-- The settings one after the other: a later setting of an option replaces an earlier one.
unfoldable pub apply_settings : List Setting → ParsedArgs → ParsedArgs
apply_settings [] r = r
apply_settings (flag_set tok lng ∷ more) r = apply_settings more (set_flag lng r)
apply_settings (option_set tok lng val ∷ more) r = apply_settings more (set_option lng val r)
apply_settings (word tok ∷ more) r = apply_settings more (add_positional tok r)
