-- ===== src/Docwrite/Status/Field.antt =====
-- The line of the frontmatter that pkg/doczcore/docwrite/status.go rewrites.
use docz.Prelude.{
  ℕ, Bool, true, false, ◌≡◌, ◌≢◌, inl, inr, refl, sym, ap, ◌∙◌, subst, Option, none, some, List, [],
  ◌∷◌, ◌++◌, append-nil, append_assoc, Bool-cases, All,
}
use docz.Text.{Text, codes, cut_prefix, is_blank, cut_prefix-append, cut_prefix-eq_some}
use docz.Docparse.Markers.{span}
use docz.Docwrite.Status.{
  Located, found, failed, between, parse_status_value, parse_status_line, rest_of, at_line,
  find_in_lines,
}
use docz.Docwrite.Status.Ranges.{span-append}
use docz.Docwrite.Status.Bare.{IsBlank}
use docz.Docwrite.Status.Scalar.{IsScalar, found-injective, parse_status_value-IsScalar}

-- The lines, each with the newline that ends it.
abbrev pub ended : List Text → Text
ended [] = []
ended (l ∷ ls) = l ++ (b'\n' ∷ ended ls)

abbrev pub NotStatus : Text → Type 0
NotStatus l = (rest : Text) → l ≢ codes "status:" ++ rest

-- The first line that begins with "status:", and the scalar behind the blanks that follow.
pub record IsField (lines : List Text) (front old behind : Text) : Type 0 where
  pub before : List Text
  pub after : List Text
  pub gap : Text
  pub value : Text
  pub opening : Text
  pub tail : Text
  pub splits : lines ≡ before ++ ((codes "status:" ++ (gap ++ value)) ∷ after)
  pub is_first : All NotStatus before
  pub all_blank : All IsBlank gap
  pub scalar : IsScalar value opening old tail
  pub in_front : front ≡ ended before ++ (codes "status:" ++ (gap ++ opening))
  pub follows : behind ≡ tail ++ rest_of after

-- A range in a text that has others around it.
pub between-found :
    (a b front old behind : Text) (l : Located)
    → between a b l ≡ found front old behind
    → (f : Text) × (t : Text) × (l ≡ found f old t) × (front ≡ a ++ f) × (behind ≡ t ++ b)
between-found a b front old behind (found f v t) h =
    let (x, y, z) = found-injective (a ++ f) v (t ++ b) front old behind h in
    (f, t, ap (λ w. found f w t) y, sym x, sym z)
between-found a b front old behind (failed e) h = cc

span-All : (p : ℕ → Bool) (s : Text) → All (λ c. p c ≡ true) (span p s).0
unfolding span
span-All p [] = tt
span-All p (c ∷ s) = elim (Bool-cases (p c)) [ inl e ↦ rw e (e, span-All p s) | inr e ↦ rw e tt ]

span-stops : (p : ℕ → Bool) (s : Text) (c : ℕ) (t : Text) → (span p s).1 ≡ c ∷ t → p c ≡ false
unfolding span
span-stops p [] c t h = cc
span-stops p (x ∷ s) c t h = elim (Bool-cases (p x)) [
  | inl e ↦ span-stops p s c t (rw e at h)
  | inr e ↦ subst (λ y. p y ≡ false) (ap head_of (rw e at h)) e
]
  where
    head_of : Text → ℕ
    head_of [] = x
    head_of (y ∷ r) = y

parse_status_line-IsField :
    (l rest front old behind : Text) (ls : List Text)
    → l ≡ codes "status:" ++ rest
    → between [] (rest_of ls) (parse_status_line rest) ≡ found front old behind
    → IsField (l ∷ ls) front old behind
unfolding parse_status_line
parse_status_line-IsField l rest front old behind ls e h =
    let gap = (span is_blank rest).0 in
    let value = (span is_blank rest).1 in
    let (f, t, inside, front_is, behind_is) =
      between-found [] (rest_of ls) front old behind
        (between (codes "status:" ++ gap) [] (parse_status_value value)) h in
    let (q, tail, parsed, f_is, t_is) =
      between-found (codes "status:" ++ gap) [] f old t (parse_status_value value) inside in
    record {
      before = [];
      after = ls;
      gap = gap;
      value = value;
      opening = q;
      tail = tail;
      splits = ap (λ x. x ∷ ls) (e ∙ ap (◌++◌ (codes "status:")) (sym (span-append is_blank rest)));
      is_first = tt;
      all_blank = span-All is_blank rest;
      scalar = parse_status_value-IsScalar value q old tail (span-stops is_blank rest) parsed;
      in_front = front_is ∙ f_is ∙ append_assoc (codes "status:") gap q;
      follows = behind_is ∙ ap (λ x. x ++ rest_of ls) (t_is ∙ append-nil tail);
    }

cut_prefix-NotStatus : (l : Text) → cut_prefix l (codes "status:") ≡ none → NotStatus l
cut_prefix-NotStatus l h rest e =
    missed (
      sym h ∙ ap (λ t. cut_prefix t (codes "status:")) e ∙ cut_prefix-append (codes "status:") rest)
  where
    missed : none ≢ some rest
    missed k = cc

IsField-later :
    (l : Text) (ls : List Text) (front old behind : Text)
    → NotStatus l
    → IsField ls front old behind
    → IsField (l ∷ ls) (l ++ (b'\n' ∷ front)) old behind
IsField-later l ls front old behind other h = record {
  before = l ∷ h.before;
  after = h.after;
  gap = h.gap;
  value = h.value;
  opening = h.opening;
  tail = h.tail;
  splits = ap (◌∷◌ l) h.splits;
  is_first = (other, h.is_first);
  all_blank = h.all_blank;
  scalar = h.scalar;
  in_front =
      ap (λ t. l ++ (b'\n' ∷ t)) h.in_front
      ∙ sym (append_assoc l (b'\n' ∷ ended h.before) (codes "status:" ++ (h.gap ++ h.opening)));
  follows = h.follows;
}

-- The loop over the lines stops at the first status line.
pub find_in_lines-IsField :
    (ls : List Text) (front old behind : Text)
    → find_in_lines ls ≡ found front old behind
    → IsField ls front old behind
unfolding find_in_lines
find_in_lines-IsField [] front old behind h = cc
find_in_lines-IsField (l ∷ ls) front old behind h =
    met (cut_prefix l (codes "status:")) refl (λ f t k. find_in_lines-IsField ls f old t k) h
  where
    met :
        (o : Option Text)
        → cut_prefix l (codes "status:") ≡ o
        → ((f t : Text) → find_in_lines ls ≡ found f old t → IsField ls f old t)
        → at_line l ls o (find_in_lines ls) ≡ found front old behind
        → IsField (l ∷ ls) front old behind
    met none e later k =
        let (f, t, inside, front_is, behind_is) =
          between-found (l ++ (b'\n' ∷ [])) [] front old behind (find_in_lines ls) k in
        subst (λ x. IsField (l ∷ ls) x old behind) (sym (front_is ∙ append_assoc l (b'\n' ∷ []) f))
          (subst (λ x. IsField (l ∷ ls) (l ++ (b'\n' ∷ f)) old x) (sym (behind_is ∙ append-nil t))
            (IsField-later l ls f old t (cut_prefix-NotStatus l e) (later f t inside)))
    met (some rest) e later k =
        parse_status_line-IsField l rest front old behind ls
          (cut_prefix-eq_some l (codes "status:") rest e) k
