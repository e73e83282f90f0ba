-- ===== src/Text/Joined.antt =====
-- The lines of a text, and runs of them joined.
use docz.Prelude.{
  ℕ, suc, ◌+◌, true, false, ◌≡◌, ◌≢◌, inl, inr, refl, sym, ap, ◌∙◌, subst, List, [], ◌∷◌, ◌++◌,
  append-nil, append_assoc, arith, ◌==◌, ==_iff, Bool-cases, length, All, All-append_left,
  All-append_right,
}
use docz.Text.{Text, contains_byte}
use docz.Text.Lines.{
  split, join, lines_of, cons_head, newlines, newlines-append, split-ne-nil, newlines_of_lacks,
}
use docz.Text.Edit.{ends_line, starts_newline, Replaced}

abbrev pub Line : Text → Type 0
Line l = contains_byte l b'\n' ≡ false

pub split-Line : (s : Text) → All Line (lines_of s)
unfolding split contains_byte
split-Line [] = (refl, tt)
split-Line (c ∷ s) = elim (Bool-cases (c == b'\n')) [
  | inl e ↦ rw e (refl, split-Line s)
  | inr e ↦ rw e (grown e (lines_of s) (split-Line s))
]
  where
    grown : (c == b'\n') ≡ false → (ls : List Text) → All Line ls → All Line (cons_head c ls)
    grown e [] h = (ground arith, tt)
    grown e (l ∷ ls) (h, hs) = (ground arith, hs)

-- The lines of a text are joined to it again.
pub join-split : (s : Text) → join b'\n' (lines_of s) ≡ s
unfolding split
join-split [] = unfold join in refl
join-split (c ∷ s) = elim (Bool-cases (c == b'\n')) [
  | inl e ↦ rw e (
      nil_first (lines_of s) (split-ne-nil b'\n' s) (join-split s)
      ∙ ap (λ d. d ∷ s) (sym ((==_iff c b'\n').0 e)))
  | inr e ↦ rw e (head_first (lines_of s) (split-ne-nil b'\n' s) (join-split s))
]
  where
    nil_first : (ls : List Text) → ls ≢ [] → join b'\n' ls ≡ s → join b'\n' ([] ∷ ls) ≡ b'\n' ∷ s
    nil_first [] h eq = absurd (h refl)
    nil_first (l ∷ ls) h eq = unfold join in ap (◌∷◌ b'\n') eq

    head_first :
        (ls : List Text) → ls ≢ [] → join b'\n' ls ≡ s → join b'\n' (cons_head c ls) ≡ c ∷ s
    head_first [] h eq = absurd (h refl)
    head_first (l ∷ []) h eq = unfold join in ap (◌∷◌ c) eq
    head_first (l ∷ m ∷ ls) h eq = unfold join in ap (◌∷◌ c) eq

abbrev pub front_of : List Text → Text
front_of [] = []
front_of (l ∷ ls) = join b'\n' (l ∷ ls) ++ (b'\n' ∷ [])

abbrev pub behind_of : List Text → Text
behind_of [] = []
behind_of (l ∷ ls) = b'\n' ∷ join b'\n' (l ∷ ls)

join-cons : (l : Text) (ls : List Text) → join b'\n' (l ∷ ls) ≡ l ++ behind_of ls
unfolding join
join-cons l [] = sym (append-nil l)
join-cons l (m ∷ ls) = refl

behind_of-append : (xs ys : List Text) → behind_of (xs ++ ys) ≡ behind_of xs ++ behind_of ys
behind_of-append [] ys = refl
behind_of-append (x ∷ xs) ys = ap (◌∷◌ b'\n') (
    join-cons x (xs ++ ys)
    ∙ ap (◌++◌ x) (behind_of-append xs ys)
    ∙ sym (append_assoc x (behind_of xs) (behind_of ys))
    ∙ ap (λ t. t ++ behind_of ys) (sym (join-cons x xs)))

join-two :
    (y : Text) (ys zs : List Text)
    → join b'\n' ((y ∷ ys) ++ zs) ≡ join b'\n' (y ∷ ys) ++ behind_of zs
join-two y ys zs =
    join-cons y (ys ++ zs)
    ∙ ap (◌++◌ y) (behind_of-append ys zs)
    ∙ sym (append_assoc y (behind_of ys) (behind_of zs))
    ∙ ap (λ t. t ++ behind_of zs) (sym (join-cons y ys))

-- Three runs of lines, of which the second is not empty.
pub join-parts :
    (xs : List Text) (y : Text) (ys zs : List Text)
    → join b'\n' (xs ++ ((y ∷ ys) ++ zs)) ≡ front_of xs ++ (join b'\n' (y ∷ ys) ++ behind_of zs)
join-parts [] y ys zs = join-two y ys zs
join-parts (x ∷ xs) y ys zs =
    join-cons x (xs ++ ((y ∷ ys) ++ zs))
    ∙ ap (◌++◌ x) (behind_of-append xs ((y ∷ ys) ++ zs))
    ∙ sym (append_assoc x (behind_of xs) (behind_of ((y ∷ ys) ++ zs)))
    ∙ ap (λ t. t ++ behind_of ((y ∷ ys) ++ zs)) (sym (join-cons x xs))
    ∙ ap (λ t. join b'\n' (x ∷ xs) ++ (b'\n' ∷ t)) (join-two y ys zs)
    ∙ sym (append_assoc (join b'\n' (x ∷ xs)) (b'\n' ∷ []) _)

newlines-behind_of : (ls : List Text) → All Line ls → newlines (behind_of ls) ≡ length ls
unfolding newlines
newlines-behind_of [] h = refl
newlines-behind_of (l ∷ ls) (h, hs) = rw (join-cons l ls) (
    ap suc (
      newlines-append l (behind_of ls)
      ∙ ap (λ n. n + newlines (behind_of ls)) (newlines_of_lacks l h)
      ∙ zero_plus (newlines (behind_of ls))
      ∙ newlines-behind_of ls hs))
  where
    zero_plus : (n : ℕ) → 0 + n ≡ n
    zero_plus n = omega arith

pub newlines-join :
    (l : Text) (ls : List Text) → All Line (l ∷ ls) → newlines (join b'\n' (l ∷ ls)) ≡ length ls
newlines-join l ls (h, hs) = rw (join-cons l ls) (
    omega
      (arith, newlines-append l (behind_of ls), newlines_of_lacks l h, newlines-behind_of ls hs))

pub newlines-front_of : (ls : List Text) → All Line ls → newlines (front_of ls) ≡ length ls
newlines-front_of [] h = unfold newlines in refl
newlines-front_of (l ∷ ls) h =
    rw (newlines-append (join b'\n' (l ∷ ls)) (b'\n' ∷ []), newlines-join l ls h)
      (unfold newlines in omega arith)

ends_line_of_newline : (s : Text) → ends_line (s ++ (b'\n' ∷ [])) ≡ true
unfolding ends_line
ends_line_of_newline [] = refl
ends_line_of_newline (c ∷ []) = refl
ends_line_of_newline (c ∷ d ∷ s) = ends_line_of_newline (d ∷ s)

front_of-ends : (ls : List Text) → ends_line (front_of ls) ≡ true
front_of-ends [] = unfold ends_line in refl
front_of-ends (l ∷ ls) = ends_line_of_newline (join b'\n' (l ∷ ls))

behind_of-starts : (ls : List Text) → starts_newline (behind_of ls) ≡ true
behind_of-starts [] = refl
behind_of-starts (l ∷ ls) = refl

-- Another text takes the place of the middle one of three runs of lines.
pub parts-Replaced :
    (content new : Text) (xs : List Text) (y : Text) (ys zs : List Text)
    → lines_of content ≡ xs ++ ((y ∷ ys) ++ zs)
    → Replaced content
        (front_of xs ++ (new ++ behind_of zs))
        new
        (suc (length xs))
        (suc (length xs + length ys))
parts-Replaced content new xs y ys zs eq =
    let lines = subst (All Line) eq (split-Line content) in
    let counted = newlines-front_of xs (All-append_left Line xs ((y ∷ ys) ++ zs) lines) in
    let middle =
      newlines-join y ys
        (All-append_left Line (y ∷ ys) zs (All-append_right Line xs ((y ∷ ys) ++ zs) lines)) in
    record {
      front = front_of xs;
      old = join b'\n' (y ∷ ys);
      behind = behind_of zs;
      before = sym (join-split content) ∙ ap (join b'\n') eq ∙ join-parts xs y ys zs;
      after = refl;
      front_ends = front_of-ends xs;
      behind_starts = behind_of-starts zs;
      first_line = ap suc counted;
      last_line =
          omega (arith, newlines-append (front_of xs) (join b'\n' (y ∷ ys)), counted, middle);
    }
