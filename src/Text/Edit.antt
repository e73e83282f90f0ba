-- ===== src/Text/Edit.antt =====
-- The replacement of whole lines of a text.
use docz.Prelude.{ℕ, suc, Bool, true, ◌≡◌, [], ◌∷◌, ◌++◌, ◌==◌}
use docz.Text.{Text}
use docz.Text.Lines.{newlines}

-- A text that is empty or ends in a newline: a line begins behind it.
unfoldable pub ends_line : Text → Bool
ends_line [] = true
ends_line (c ∷ []) = c == b'\n'
ends_line (c ∷ d ∷ s) = ends_line (d ∷ s)

-- A text that is empty or begins with a newline: a line ends in front of it.
abbrev pub starts_newline : Text → Bool
starts_newline [] = true
starts_newline (c ∷ s) = c == b'\n'

-- `updated` is `content` with the text `new` in place of the lines `first` to `last`; the newline
-- behind the last of them is kept.
pub record Replaced (content updated new : Text) (first last : ℕ) : Type 0 where
  pub front : Text
  pub old : Text
  pub behind : Text
  pub before : content ≡ front ++ (old ++ behind)
  pub after : updated ≡ front ++ (new ++ behind)
  pub front_ends : ends_line front ≡ true
  pub behind_starts : starts_newline behind ≡ true
  pub first_line : suc (newlines front) ≡ first
  pub last_line : suc (newlines (front ++ old)) ≡ last
