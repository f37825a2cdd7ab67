-- ===== src/GitAttr/Tests.antt =====
-- The attributes of git/gitattr at concrete lines. A pattern stands for itself.
use git_lfs.Prelude.{
  ◌≡◌, refl, true, false, Option, none, some, inl, List, [], ◌∷◌, ◌++◌, Text, codes,
  text_comparable, keep, arith,
}
use git_lfs.Prelude.Dict
use git_lfs.Strings.{has_prefix, cut_prefix, trim_space}
use git_lfs.GitAttr.{
  Attr, Line, is_given, parsed, parse_trimmed, parse_lines, parse_texts, scan_from, drop_counted,
  line_ending, new_macro_processor, process_lines,
}
use git_lfs.GitAttr.Printing.{IsAttr, pattern_head, print_line, line_of, parse_trimmed-print_line}
use git_lfs.GitAttr.Macros.{last_defined, with_macros, process_lines-with_macros}

abbrev same : Text → Text
same pattern = pattern

abbrev no_unquote : Text → Option Text
no_unquote s = none

abbrev filter_lfs : Attr
filter_lfs = record { k = codes "filter"; v = codes "lfs"; unspecified = false }

abbrev no_text : Attr
no_text = record { k = codes "text"; v = codes "false"; unspecified = false }

abbrev any_merge : Attr
any_merge = record { k = codes "merge"; v = []; unspecified = true }

abbrev attrs : List Attr
attrs = filter_lfs ∷ no_text ∷ any_merge ∷ []

filter_lfs-IsAttr : IsAttr filter_lfs
unfolding is_given has_prefix
filter_lfs-IsAttr = record {
  not_empty = refl;
  no_minus = refl;
  no_bang = refl;
  no_equals = ground arith;
  name_word = ground arith;
  value_word = ground arith;
  no_value = λ u. absurd (ground arith);
}

no_text-IsAttr : IsAttr no_text
unfolding is_given has_prefix
no_text-IsAttr = record {
  not_empty = refl;
  no_minus = refl;
  no_bang = refl;
  no_equals = ground arith;
  name_word = ground arith;
  value_word = ground arith;
  no_value = λ u. absurd (ground arith);
}

any_merge-IsAttr : IsAttr any_merge
unfolding is_given has_prefix
any_merge-IsAttr = record {
  not_empty = refl;
  no_minus = refl;
  no_bang = refl;
  no_equals = ground arith;
  name_word = ground arith;
  value_word = tt;
  no_value = λ u. refl;
}

parse_trimmed-print_line_example :
    parse_trimmed same no_unquote (print_line (pattern_head (codes "*.psd")) attrs)
    ≡ parsed (line_of same no_unquote (pattern_head (codes "*.psd")) attrs)
unfolding is_given has_prefix cut_prefix
parse_trimmed-print_line_example =
    parse_trimmed-print_line same no_unquote (pattern_head (codes "*.psd")) attrs
      (ground arith, refl, refl, refl, refl)
      (filter_lfs-IsAttr, (no_text-IsAttr, (any_merge-IsAttr, tt)))

abbrev set_attr : Text → Attr
set_attr k = record { k = k; v = codes "true"; unspecified = false }

abbrev macro_line : Line Text
macro_line = record { pattern = none; macro_name = codes "big"; attrs = attrs }

abbrev pattern_line : Line Text
pattern_line = record {
  pattern = some (codes "*.psd");
  macro_name = [];
  attrs = set_attr (codes "big") ∷ [];
}

process_lines-with_macros_example :
    (process_lines new_macro_processor ((macro_line ∷ []) ++ pattern_line ∷ []) true).0
    ≡ (process_lines new_macro_processor (macro_line ∷ []) true).0
      ++ record {
        pattern = some (codes "*.psd");
        macro_name = [];
        attrs =
            with_macros
              (λ name. last_defined (Dict.lookup name new_macro_processor) name (macro_line ∷ []))
              (set_attr (codes "big") ∷ []);
      }
        ∷ (process_lines (process_lines new_macro_processor (macro_line ∷ []) true).1 [] true).0
process_lines-with_macros_example =
    process_lines-with_macros new_macro_processor (macro_line ∷ []) [] pattern_line (codes "*.psd")
      refl

-- Two lines of which one ends in a carriage return: the ending is a line feed.
mixed_endings :
    parse_lines same no_unquote (codes "a b\n# c" ++ 13 ∷ 10 ∷ [])
    ≡ inl (
      record { pattern = some (codes "a"); macro_name = []; attrs = set_attr (codes "b") ∷ [] }
          ∷ [],
      codes "\n",
    )
unfolding parse_lines parse_texts scan_from trim_space parse_trimmed drop_counted line_ending keep
mixed_endings = refl
