-- ===== src/Docwrite/Status/Ranges.antt =====
-- The range of a status in its line and in the lines of the block, of pkg/doczcore/docwrite/status.go.
use docz.Prelude.{
  ℕ, Bool, ◌||◌, ◌≡◌, inl, inr, refl, sym, ap, subst, Option, none, some, List, [], ◌∷◌, ◌++◌,
  append-nil, append_assoc, ◌==◌, Bool-cases, take-append-drop,
}
use docz.Text.{Text, codes, cut_prefix, is_blank, cut_prefix-eq_some}
use docz.Text.Lines.{join}
use docz.Docparse.Markers.{span}
use docz.Docwrite.Status.{
  Located, found, failed, between, behind_value, to_quote, quoted_value, bare_value_len, is_shape,
  parse_status_value, parse_status_line, rest_of, at_line, find_in_lines,
}

-- The range lies in this text.
abbrev pub LiesIn : Text → Located → Type 0
LiesIn s (found front value behind) = front ++ (value ++ behind) ≡ s
LiesIn s (failed e) = Unit

pub between-LiesIn :
    (a s b : Text) (l : Located) → LiesIn s l → LiesIn (a ++ (s ++ b)) (between a b l)
between-LiesIn a s b (found front value behind) h =
    subst (λ t. (a ++ front) ++ (value ++ (behind ++ b)) ≡ a ++ (t ++ b)) h (simp append_assoc)
between-LiesIn a s b (failed e) h = tt

pub between-LiesIn_front :
    (a s : Text) (l : Located) → LiesIn s l → LiesIn (a ++ s) (between a [] l)
between-LiesIn_front a s l h =
    subst (λ t. LiesIn (a ++ t) (between a [] l)) (append-nil s) (between-LiesIn a s [] l h)

abbrev pub Parts : Text → Option (Text × Text) → Type 0
Parts s none = Unit
Parts s (some (value, behind)) = value ++ behind ≡ s

pub to_quote-Parts : (quote : ℕ) (s : Text) → Parts s (to_quote quote s)
unfolding to_quote
to_quote-Parts quote [] = tt
to_quote-Parts quote (c ∷ s) = elim (Bool-cases (c == quote)) [
  | inl e ↦ rw e refl
  | inr e ↦ rw e (one_more (to_quote quote s) (to_quote-Parts quote s))
]
  where
    one_more : (o : Option (Text × Text)) → Parts s o → Parts (c ∷ s) (behind_value c o)
    one_more none h = tt
    one_more (some (value, behind)) h = ap (◌∷◌ c) h

pub quoted_value-LiesIn :
    (quote : ℕ) (s : Text) (o : Option (Text × Text))
    → Parts s o
    → LiesIn (quote ∷ s) (quoted_value quote o)
quoted_value-LiesIn quote s none h = tt
quoted_value-LiesIn quote s (some (value, behind)) h = ap (◌∷◌ quote) h

pub parse_status_value-LiesIn : (s : Text) → LiesIn s (parse_status_value s)
unfolding parse_status_value
parse_status_value-LiesIn [] = refl
parse_status_value-LiesIn (c ∷ s) = elim (Bool-cases (c == b'"' || c == b'\'')) [
  | inl e ↦ rw e (quoted_value-LiesIn c s (to_quote c s) (to_quote-Parts c s))
  | inr e ↦ elim (Bool-cases (is_shape c)) [
    | inl k ↦ rw (e, k) tt
    | inr k ↦ rw (e, k) (take-append-drop (bare_value_len (c ∷ s)) (c ∷ s))
  ]
]

pub span-append : (p : ℕ → Bool) (s : Text) → (span p s).0 ++ (span p s).1 ≡ s
unfolding span
span-append p [] = refl
span-append p (c ∷ s) = elim (Bool-cases (p c)) [
  | inl e ↦ rw e (ap (◌∷◌ c) (span-append p s))
  | inr e ↦ rw e refl
]

pub parse_status_line-LiesIn :
    (rest : Text) → LiesIn (codes "status:" ++ rest) (parse_status_line rest)
unfolding parse_status_line
parse_status_line-LiesIn rest =
    let gap = (span is_blank rest).0 in
    let value = (span is_blank rest).1 in
    subst (λ t. LiesIn t (between (codes "status:" ++ gap) [] (parse_status_value value)))
      (ap (◌++◌ (codes "status:")) (span-append is_blank rest))
      (between-LiesIn_front (codes "status:" ++ gap) value (parse_status_value value)
        (parse_status_value-LiesIn value))

pub join-cons : (l : Text) (ls : List Text) → join b'\n' (l ∷ ls) ≡ l ++ rest_of ls
unfolding join
join-cons l [] = sym (append-nil l)
join-cons l (m ∷ ls) = refl

pub find_in_lines-LiesIn : (ls : List Text) → LiesIn (join b'\n' ls) (find_in_lines ls)
unfolding find_in_lines
find_in_lines-LiesIn [] = tt
find_in_lines-LiesIn (l ∷ ls) = rw (join-cons l ls) (
    met (cut_prefix l (codes "status:")) (cut_prefix-eq_some l (codes "status:"))
      (find_in_lines-LiesIn ls))
  where
    passed :
        (ms : List Text)
        → LiesIn (join b'\n' ms) (find_in_lines ms)
        → LiesIn (l ++ rest_of ms) (between (l ++ (b'\n' ∷ [])) [] (find_in_lines ms))
    passed [] h = tt
    passed (m ∷ ms) h =
        subst (λ t. LiesIn t (between (l ++ (b'\n' ∷ [])) [] (find_in_lines (m ∷ ms))))
          (append_assoc l (b'\n' ∷ []) (join b'\n' (m ∷ ms)))
          (between-LiesIn_front (l ++ (b'\n' ∷ [])) (join b'\n' (m ∷ ms)) (find_in_lines (m ∷ ms))
            h)

    met :
        (o : Option Text)
        → ((rest : Text) → o ≡ some rest → l ≡ codes "status:" ++ rest)
        → LiesIn (join b'\n' ls) (find_in_lines ls)
        → LiesIn (l ++ rest_of ls) (at_line l ls o (find_in_lines ls))
    met none h later = passed ls later
    met (some rest) h later =
        subst (λ t. LiesIn (t ++ rest_of ls) (between [] (rest_of ls) (parse_status_line rest)))
          (sym (h rest refl))
          (between-LiesIn [] (codes "status:" ++ rest) (rest_of ls) (parse_status_line rest)
            (parse_status_line-LiesIn rest))
