-- ===== src/Docparse/Title/Frontmatter.antt =====
-- What Title of pkg/doczcore/docparse/title.go returns, and the frontmatter that it does not read.
use docz.Prelude.{
  true, false, ◌≡◌, inl, inr, refl, ap, ◌∙◌, Option, none, some, List, [], ◌∷◌, ◌++◌, Bool-cases,
  All,
}
use docz.Text.{Text}
use docz.Text.Trim.{trim_space}
use docz.Text.Lines.{lines_of}
use docz.Docparse.Blocks.{BlockSkipper, new_skipper, skip}
use docz.Docparse.Inline.{Unicode}
use docz.Docparse.Inline.Emphasis.{strip_inline_markdown-some}
use docz.Docparse.Title.{
  match_title, is_setext_title, is_frontmatter_delimiter, is_blank_line, behind_delimiter,
  drop_blank, or_lines, behind_opener, skip_frontmatter, title_at, title_from, title,
}

abbrev pub IsBlankLine : Text → Type 0
IsBlankLine l = is_blank_line l ≡ true

abbrev pub NotDelimiter : Text → Type 0
NotDelimiter l = is_frontmatter_delimiter l ≡ false

drop_blank-append :
    (blanks : List Text) (l : Text) (ls : List Text)
    → All IsBlankLine blanks
    → is_blank_line l ≡ false
    → drop_blank (blanks ++ (l ∷ ls)) ≡ l ∷ ls
unfolding drop_blank
drop_blank-append [] l ls h n = rw n refl
drop_blank-append (b ∷ blanks) l ls (h, hs) n = rw h (drop_blank-append blanks l ls hs n)

behind_delimiter-append :
    (meta : List Text) (closer : Text) (body : List Text)
    → All NotDelimiter meta
    → is_frontmatter_delimiter closer ≡ true
    → behind_delimiter (meta ++ (closer ∷ body)) ≡ some body
unfolding behind_delimiter
behind_delimiter-append [] closer body h e = rw e refl
behind_delimiter-append (m ∷ meta) closer body (h, hs) e =
    rw h (behind_delimiter-append meta closer body hs e)

-- A block of frontmatter: blank lines, a delimiter, a key, other lines and a delimiter.
pub record IsFrontmatter (lines body : List Text) : Type 0 where
  pub blanks : List Text
  pub opener : Text
  pub key : Text
  pub meta : List Text
  pub closer : Text
  pub shape : lines ≡ blanks ++ (opener ∷ ((key ∷ meta) ++ (closer ∷ body)))
  pub blank : All IsBlankLine blanks
  pub opens : is_frontmatter_delimiter opener ≡ true
  pub starts : is_blank_line opener ≡ false
  pub has_key : is_blank_line key ≡ false
  pub inside : All NotDelimiter (key ∷ meta)
  pub ends : is_frontmatter_delimiter closer ≡ true

skip_frontmatter-IsFrontmatter :
    (lines body : List Text) → IsFrontmatter lines body → skip_frontmatter lines ≡ body
unfolding skip_frontmatter
skip_frontmatter-IsFrontmatter lines body f =
    ap (behind_opener lines) dropped
    ∙ rw (f.opens, f.has_key)
        (ap (or_lines lines)
          (behind_delimiter-append (f.key ∷ f.meta) f.closer body f.inside f.ends))
  where
    dropped : drop_blank lines ≡ f.opener ∷ ((f.key ∷ f.meta) ++ (f.closer ∷ body))
    dropped = ap drop_blank f.shape ∙ drop_blank-append f.blanks f.opener _ f.blank f.starts

module _ (u : Unicode) where
  title_from-some :
      (b : BlockSkipper) (lines : List Text) → (t : Text) × (title_from u b lines ≡ some t)
  unfolding title_from
  title_from-some b [] = ([], refl)
  title_from-some b (line ∷ ls) =
      let (t, later) = title_from-some (skip b line).1 ls in
      elim (Bool-cases (skip b line).0) [
        | inl e ↦ (t, rw e later)
        | inr e ↦
            let (met, eq) =
              at (match_title (trim_space line)) (title_from u (skip b line).1 ls) t later in
            (met, rw e eq)
      ]
    where
      at :
          (found later : Option Text) (t : Text)
          → later ≡ some t
          → (met : Text) × (title_at u (trim_space line) ls found later ≡ some met)
      at (some text) later t h = strip_inline_markdown-some u (trim_space text)
      at none later t h = elim (Bool-cases (is_setext_title (trim_space line) ls)) [
        | inl e ↦ let (met, eq) = strip_inline_markdown-some u (trim_space line) in (met, rw e eq)
        | inr e ↦ (t, rw e h)
      ]

  -- For a document that opens with frontmatter Title returns, and what it returns is what its walk
  -- returns for the lines behind the closing delimiter alone.
  pub title-IsFrontmatter :
      (content : Text) (body : List Text)
      → IsFrontmatter (lines_of content) body
      → (t : Text) × (title u content ≡ some t) × (title_from u new_skipper body ≡ some t)
  unfolding title
  title-IsFrontmatter content body f =
      let (t, eq) = title_from-some new_skipper body in
      let skipped = skip_frontmatter-IsFrontmatter (lines_of content) body f in
      (t, ap (title_from u new_skipper) skipped ∙ eq, eq)
