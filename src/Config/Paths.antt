-- ===== src/Config/Paths.antt =====
-- The verdict on a repo-relative path, of pkg/doczcore/config/paths.go. `none` is the nil error; the
-- Unicode category Cf is a parameter. filepath.IsAbs is that of a Unix host.
pub mod Resolve
pub mod Normal
use docz.Prelude.{
  ℕ, zero, suc, ◌+◌, ◌-◌, ◌*◌, ◌/◌, ◌%◌, ◌≤◌, ◌<◌, Bool, true, false, not, ◌&&◌, ◌||◌, ◌≡◌, ◌≢◌,
  ◌↔◌, ◌⊎◌, inl, inr, refl, sym, ap, ◌∙◌, subst, Option, none, some, List, [], ◌∷◌, ◌++◌,
  append-nil, append_assoc, map, String, arith, ltb, leb, ◌==◌, within, if◌then◌else◌, ltb→lt,
  lt→ltb, ==_iff, Bool-cases, Option-cases, ◌>>=◌, bind-eq_some, length, is_empty, take, drop,
  get_elem?, length-append, take-append-drop, All, All-append, All-append_left, All-append_right,
  All-weaken,
}
use docz.Prelude.Pairs.{
  AllPairs, AllPairs-append, AllPairs-unappend, AllPairs-reverse, AllPairs-weaken, All-reverse,
}
use docz.Text.{
  Text, codes, equal, cut_prefix, has_prefix, contains, contains_byte, is_space, is_blank,
  equal_iff, cut_prefix-append, cut_prefix-eq_some, contains_byte-append,
}
use docz.Text.Trim.{
  trim_left, trim_right, trim_space, trim_right-concat, trim_left_self, trim_space_self,
  trim_left-append, trim_right-cons, is_space_of_blank, trim_space-head,
}
use docz.Text.Lines.{
  split, join, lines_of, cons_head, newlines, newlines-append, split_of_lacks, split-ne-nil,
  length-lines_of, newlines_of_lacks,
}

pub data PathError : Type 0 where
  empty_path control_character backslash not_relative tilde directory : PathError
  traversal unclean bad_ending : PathError

-- the loop that strips every leading "./"
unfoldable pub strip_dots : Text → Text
strip_dots [] = []
strip_dots (a ∷ []) = a ∷ []
strip_dots (a ∷ b ∷ s) =
    let rest = strip_dots s in if a == b'.' && b == b'/' then rest else a ∷ b ∷ s

-- normalizeRepoPath
unfoldable pub normalize_repo_path : Text → Text
normalize_repo_path value = strip_dots (trim_space value)

-- slices.Contains
unfoldable pub among : Text → List Text → Bool
among t [] = false
among t (s ∷ ss) = equal s t || among t ss

-- Go's strings.ContainsFunc
unfoldable pub any_rune : (ℕ → Bool) → Text → Bool
any_rune p [] = false
any_rune p (c ∷ s) = p c || any_rune p s

-- strings.HasSuffix for one byte
unfoldable pub ends_with : ℕ → Text → Bool
ends_with b [] = false
ends_with b (c ∷ []) = c == b
ends_with b (c ∷ d ∷ s) = ends_with b (d ∷ s)

-- hasVolumeName
unfoldable pub has_volume_name : Text → Bool
has_volume_name (c ∷ d ∷ s) = d == b':' && (within b'a' b'z' c || within b'A' b'Z' c)
has_volume_name _ = false

-- The parts of a path without the last one, when that one is empty.
unfoldable pub without_empty_end : List Text → List Text
without_empty_end [] = []
without_empty_end (s ∷ []) = if is_empty s then [] else s ∷ []
without_empty_end (s ∷ t ∷ ss) = s ∷ without_empty_end (t ∷ ss)

abbrev pub drop_end : List Text → List Text
drop_end [] = []
drop_end (s ∷ []) = s ∷ []
drop_end (s ∷ t ∷ ss) = s ∷ without_empty_end (t ∷ ss)

-- The segments that checkPathSegments judges.
unfoldable pub segments : Text → Bool → List Text
segments value true = drop_end (split b'/' value)
segments value false = split b'/' value

-- What Win32 strips from the end of a path component.
unfoldable pub is_stripped : ℕ → Bool
is_stripped c = c == b' ' || c == b'.'

-- the loop over the segments
unfoldable pub ending_changes : List Text → Bool
ending_changes [] = false
ending_changes (s ∷ ss) = not (equal (trim_right is_stripped s) s) || ending_changes ss

unfoldable pub check_path_segments : List Text → Option PathError
check_path_segments segs =
    if among (codes "..") segs
    then some traversal
    else if among (codes ".") segs || among [] segs
    then some unclean
    else if ending_changes segs
    then some bad_ending
    else none

-- An error with the field that the caller names.
abbrev pub named : Text → Option PathError → Option (Text × PathError)
named field none = none
named field (some e) = some (field, e)

module _ (is_format : ℕ → Bool) where
  -- forbiddenPathRune
  unfoldable pub forbidden_path_rune : ℕ → Bool
  forbidden_path_rune r = ltb r 0x20 || r == 0x7f || within 0x80 0x9f r || is_format r

  -- checkPathShape
  unfoldable pub check_path_shape : Text → Bool → Option PathError
  check_path_shape value allow_dir =
      if is_empty value
      then some empty_path
      else if any_rune forbidden_path_rune value
      then some control_character
      else if contains_byte value b'\\'
      then some backslash
      else if has_prefix value (codes "/") || has_volume_name value
      then some not_relative
      else if has_prefix value (codes "~")
      then some tilde
      else if not allow_dir && ends_with b'/' value
      then some directory
      else check_path_segments (segments value allow_dir)

  -- validateRepoRelativePath
  unfoldable pub validate_repo_relative_path : Text → Text → Bool → Option (Text × PathError)
  validate_repo_relative_path field value allow_dir = named field (check_path_shape value allow_dir)
