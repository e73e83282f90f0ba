-- ===== src/Tests/Config.antt =====
-- Concrete inputs for pkg/doczcore/config.
use docz.Prelude.{
  ℕ, Bool, true, false, ◌⊎◌, ◌++◌, ◌≡◌, ◌≢◌, ◌↔◌, refl, none, some, List, [], ◌∷◌, map, All,
}
use docz.Prelude.Pairs.{AllPairs}
use docz.Text.{Text, codes, equal, has_prefix, contains_byte, is_space}
use docz.Text.Trim.{trim_left, trim_right, trim_space}
use docz.Text.Lines.{split}
use docz.Config.Paths.{
  normalize_repo_path, strip_dots, among, any_rune, ends_with, has_volume_name, without_empty_end,
  segments, is_stripped, ending_changes, check_path_segments, forbidden_path_rune, check_path_shape,
  validate_repo_relative_path, traversal, bad_ending,
}
use docz.Config.Paths.Resolve.{resolve, below, validate-resolve}
use docz.Config.Paths.Normal.{dots, place, normalize_repo_path-place}
use docz.Config.Access.{validate_access, normalize_access, normalize_from}
use docz.Config.Access.Grammar.{IsScope}
use docz.Config.Access.Kept.{Among, Kept}
use docz.Config.Access.Validate.{Differs, validate_access-valid, normalize_access-valid}

abbrev no_format : ℕ → Bool
no_format c = false

abbrev guide : Text
guide = codes "docs/guide/"

guide-valid : validate_repo_relative_path no_format (codes "api.exclude") guide true ≡ none
unfolding validate_repo_relative_path check_path_shape forbidden_path_rune any_rune contains_byte
    has_prefix has_volume_name segments split without_empty_end check_path_segments among equal
    ending_changes trim_right is_stripped
guide-valid = refl

parent-invalid :
    validate_repo_relative_path no_format [] (codes "docs/../../x") false ≡ some ([], traversal)
unfolding validate_repo_relative_path check_path_shape forbidden_path_rune any_rune contains_byte
    has_prefix has_volume_name segments split check_path_segments among equal ends_with
parent-invalid = refl

dots-invalid :
    validate_repo_relative_path no_format [] (codes "docs/.../x") false ≡ some ([], bad_ending)
unfolding validate_repo_relative_path check_path_shape forbidden_path_rune any_rune contains_byte
    has_prefix has_volume_name segments split check_path_segments among equal ends_with
    ending_changes trim_right is_stripped
dots-invalid = refl

validate-resolve_example :
    (resolve [] (map (trim_right is_stripped) (split b'/' guide))
      ≡ some (below [] (segments guide true)))
    × (segments guide true ≢ [])
validate-resolve_example =
    validate-resolve no_format (trim_right is_stripped) (λ s h. h) (codes "api.exclude") guide true
      guide-valid

-- The dots may end in front of an absolute path.
normalize_repo_path_absolute : normalize_repo_path (codes ".//etc/x") ≡ codes "/etc/x"
unfolding normalize_repo_path strip_dots trim_space trim_left trim_right is_space
normalize_repo_path_absolute = refl

normalize_repo_path-place_example :
    let value = codes " ././docs/x.md " in
    (n : ℕ) × (trim_space value ≡ dots n ++ normalize_repo_path value)
    × (has_prefix (normalize_repo_path value) (codes "./") ≡ false)
    × ((place (normalize_repo_path value) ≡ place (trim_space value))
        ⊎ ((has_prefix (normalize_repo_path value) (codes "/") ≡ true)
            × (validate_repo_relative_path no_format
                  (codes "wiki")
                  (normalize_repo_path value)
                  false
                ≢ none)))
normalize_repo_path-place_example =
    normalize_repo_path-place no_format (codes "wiki") (codes " ././docs/x.md ") false

abbrev scopes : List Text
scopes = codes " team-a:read" ∷ codes "public:read" ∷ codes "team-a:read " ∷ []

validate_access-valid_example :
    (validate_access scopes ≡ none) ↔ (All IsScope scopes × AllPairs Differs scopes)
validate_access-valid_example = validate_access-valid scopes

scopes-normal : normalize_access (λ s. s) scopes ≡ codes "team-a:read" ∷ codes "public:read" ∷ []
unfolding normalize_access normalize_from among equal trim_space trim_left trim_right is_space
scopes-normal = refl

normalize_access-valid_example :
    AllPairs Differs (normalize_access (λ s. s) scopes)
    × (Among (codes "team-a:read") (normalize_access (λ s. s) scopes)
        ↔ Kept (λ s. s) scopes (codes "team-a:read"))
    × ((validate_access (normalize_access (λ s. s) scopes) ≡ none)
        ↔ All IsScope (normalize_access (λ s. s) scopes))
normalize_access-valid_example = normalize_access-valid (λ s. s) scopes (codes "team-a:read")
