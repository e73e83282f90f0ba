-- ===== src/Docparse/Markers/Spelling.antt =====
-- Reading back the canonical spellings.
use docz.Prelude.{ℕ, Bool, true, false, ◌≡◌, refl, some, [], ◌∷◌, ◌++◌, append_assoc, arith, All}
use docz.Text.{Text, codes, cut_prefix, has_prefix, is_space, is_blank, equal_iff}
use docz.Text.Trim.{trim_left, trim_space}
use docz.Text.Trim.{trim_space_self}
use docz.Docparse.Markers.{
  Role, start, finish, word, kind_token, role_token, closes, span, is_kind_head, is_kind_char,
  match_docz, spelling, parse_trimmed, parse_marker,
}

-- [a-z][a-z0-9-]*
abbrev pub IsKind : Text → Type 0
IsKind [] = ⊥
IsKind (c ∷ s) = (is_kind_head c ≡ true) × All (λ x. is_kind_char x ≡ true) s

-- A run of a class stops at the first character of another class.
span-append :
    (p : ℕ → Bool) (s rest : Text) (c : ℕ)
    → All (λ x. p x ≡ true) s
    → p c ≡ false
    → span p (s ++ (c ∷ rest)) ≡ (s, c ∷ rest)
unfolding span
span-append p [] rest c h hc = rw hc
span-append p (x ∷ s) rest c (hx, h) hc = rw (hx, span-append p s rest c h hc)

kind_token-append :
    (kind rest : Text) → IsKind kind → kind_token (kind ++ (b':' ∷ rest)) ≡ some (kind, b':' ∷ rest)
unfolding kind_token is_kind_char
kind_token-append [] rest h = absurd h
kind_token-append (c ∷ s) rest (hc, h) = rw (hc, span-append is_kind_char s rest b':' h refl)

-- no blank stands in front of a kind
kind_blanks : (kind rest : Text) → IsKind kind → trim_left is_blank (kind ++ rest) ≡ kind ++ rest
unfolding is_kind_head is_blank trim_left
kind_blanks [] rest h = absurd h
kind_blanks (c ∷ s) rest (hc, h) = ground arith

match_docz-spelling :
    (kind : Text) (role : Role) → IsKind kind → match_docz (spelling kind role) ≡ some (kind, role)
unfolding match_docz spelling word role_token closes cut_prefix is_blank trim_left
match_docz-spelling kind start h = rw (kind_blanks kind _ h, kind_token-append kind _ h)
match_docz-spelling kind finish h = rw (kind_blanks kind _ h, kind_token-append kind _ h)

-- a spelling without its first and its last character
inside : Text → Role → Text
inside kind start = codes "!--docz:" ++ (kind ++ codes ":start--")
inside kind finish = codes "!--docz:" ++ (kind ++ codes ":end--")

spelling-inside :
    (kind : Text) (role : Role) → spelling kind role ≡ b'<' ∷ (inside kind role ++ b'>' ∷ [])
unfolding spelling inside
spelling-inside kind start = rw (append_assoc kind (codes ":start--") (b'>' ∷ []))
spelling-inside kind finish = rw (append_assoc kind (codes ":end--") (b'>' ∷ []))

trim_space-spelling :
    (kind : Text) (role : Role) → trim_space (spelling kind role) ≡ spelling kind role
unfolding is_space
trim_space-spelling kind role =
    rw spelling-inside (trim_space_self b'<' b'>' (inside kind role) refl refl)

has_prefix-spelling :
    (kind : Text) (role : Role) → has_prefix (spelling kind role) (codes "<!--") ≡ true
unfolding has_prefix spelling
has_prefix-spelling kind role = refl

parse_trimmed-spelling :
    (kind : Text) (role : Role) (num : ℕ)
    → IsKind kind
    → parse_trimmed (spelling kind role) num
      ≡ some (record { kind = kind; role = role; line = num; canonical = true })
unfolding parse_trimmed
parse_trimmed-spelling kind role num h = ground (
  arith,
  match_docz-spelling kind role h,
  (equal_iff (spelling kind role) (spelling kind role)).1 refl,
)

-- The spelling that docz writes for a kind and a role is read as a canonical marker of that kind
-- and that role, whatever the kind.
pub parse_marker-spelling :
    (kind : Text) (role : Role) (num : ℕ)
    → IsKind kind
    → parse_marker (spelling kind role) num
      ≡ some (record { kind = kind; role = role; line = num; canonical = true })
unfolding parse_marker
parse_marker-spelling kind role num h =
    rw (trim_space-spelling kind role, has_prefix-spelling kind role)
      (parse_trimmed-spelling kind role num h)
