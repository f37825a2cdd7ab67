-- ===== src/Filter.antt =====
-- filepathfilter/filepathfilter.go: which paths a command looks at. A pattern's matching is that of
-- the library wildmatch, of which the constructor is an argument.
pub mod Decision
mod Tests
use git_lfs.Prelude.{
  Bool, true, false, not, ◌&&◌, ◌||◌, Option, none, some, List, [], ◌∷◌, Text, map, ltb, length,
  if◌then◌else◌,
}

-- The interface `Pattern`: `Match` and `String`.
pub record Pattern : Type 0 where
  pub matches : Text → Bool
  pub text : Text

pub record Filter : Type 0 where
  pub include : List Pattern
  pub exclude : List Pattern
  pub default_value : Bool

pub data PatternType : Type 0 where
  git_ignore git_attributes : PatternType

pub record Options : Type 0 where
  pub default_value : Bool

-- The option `DefaultValue`.
abbrev pub default_value_option : Bool → Options → Options
default_value_option val args = record args { default_value = val }

unfoldable pub set_options : List (Options → Options) → Options → Options
set_options [] args = args
set_options (setter ∷ setters) args = set_options setters (setter args)

unfoldable pub new_from_patterns : List Pattern → List Pattern → List (Options → Options) → Filter
unfolding set_options
new_from_patterns include exclude setters = record {
  include = include;
  exclude = exclude;
  default_value = (set_options setters (record { default_value = true })).default_value;
}

module _ (wildmatch : PatternType → Text → Text → Bool) where
  unfoldable pub new_pattern : Text → PatternType → Pattern
  new_pattern p ptype = record { matches = wildmatch ptype p; text = p }

  unfoldable pub convert_to_wildmatch : List Text → PatternType → List Pattern
  unfolding new_pattern
  convert_to_wildmatch raw ptype = map (λ p. new_pattern p ptype) raw

  unfoldable pub new_filter :
      List Text → List Text → PatternType → List (Options → Options) → Filter
  unfolding new_from_patterns convert_to_wildmatch
  new_filter include exclude ptype setters =
      new_from_patterns (convert_to_wildmatch include ptype) (convert_to_wildmatch exclude ptype)
        setters

unfoldable pub wildmatch_to_string : List Pattern → List Text
wildmatch_to_string ps = map (λ p. p.text) ps

-- `Include` and `Exclude`
unfoldable pub included : Filter → List Text
unfolding wildmatch_to_string
included f = wildmatch_to_string f.include

unfoldable pub excluded : Filter → List Text
unfolding wildmatch_to_string
excluded f = wildmatch_to_string f.exclude

-- The loop over the patterns that include a path, and the one over those that exclude it.
unfoldable pub any_matches : Text → List Pattern → Bool
any_matches filename [] = false
any_matches filename (p ∷ ps) = if p.matches filename then true else any_matches filename ps

-- A nil filter is `none`.
unfoldable pub allows : Option Filter → Text → Bool
unfolding any_matches
allows none filename = true
allows (some f) filename =
    let is_included = any_matches filename f.include in
    if not is_included && ltb 0 (length f.include)
    then false
    else if not is_included && not f.default_value
    then false
    else if any_matches filename f.exclude
    then false
    else true
