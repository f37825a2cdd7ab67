-- ===== src/Filter/Tests.antt =====
-- A filter of filepathfilter/filepathfilter.go at concrete paths, with prefixes for patterns.
use git_lfs.Prelude.{◌≡◌, ◌↔◌, ◌⊎◌, refl, Bool, true, false, some, [], ◌∷◌, Text, codes, map}
use git_lfs.Strings.{has_prefix}
use git_lfs.Filter.{Filter, PatternType, git_ignore, allows, new_filter, default_value_option}
use git_lfs.Filter.Decision.{Matches, Misses, allows_iff}

abbrev by_prefix : PatternType → Text → Text → Bool
by_prefix ptype p filename = has_prefix p filename

abbrev docs_only : Filter
docs_only =
    new_filter by_prefix (codes "docs/" ∷ []) (codes "docs/man" ∷ []) git_ignore
      (map default_value_option (false ∷ []))

allowed : allows (some docs_only) (codes "docs/api.md") ≡ true
unfolding allows new_filter has_prefix
allowed = refl

rejected : allows (some docs_only) (codes "docs/man/a.1") ≡ false
unfolding allows new_filter has_prefix
rejected = refl

allows_iff_example : (allows (some docs_only) (codes "docs/api.md") ≡ true) ↔ (
    (Matches (codes "docs/api.md") docs_only.include
      ⊎ ((docs_only.include ≡ []) × (docs_only.default_value ≡ true)))
    × Misses (codes "docs/api.md") docs_only.exclude)
allows_iff_example = allows_iff docs_only (codes "docs/api.md")
