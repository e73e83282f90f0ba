-- ===== src/Docwrite/Status/Bare.antt =====
-- The unquoted values of bareValueLen, of pkg/doczcore/docwrite/status.go.
use docz.Prelude.{
  ℕ, Bool, true, false, ◌&&◌, ◌≡◌, ◌≢◌, ◌⊎◌, inl, inr, refl, sym, ap, ◌∙◌, [], ◌∷◌, ◌++◌,
  append_assoc, arith, ◌==◌, ==_iff, if◌then◌else◌, Bool-cases, length, is_empty, take, drop, All,
}
use docz.Text.{Text, is_blank}
use docz.Text.Trim.{trim_right}
use docz.Docwrite.Status.{before_comment, bare_value_len}

abbrev pub IsBlank : ℕ → Type 0
IsBlank c = is_blank c ≡ true

-- A text with no comment in it: no '#' behind a blank.
abbrev pub NoComment : Text → Type 0
NoComment s = (front back : Text) (c : ℕ) → IsBlank c → s ≢ front ++ (c ∷ b'#' ∷ back)

-- Nothing, or a comment.
abbrev pub IsComment : Text → Type 0
IsComment s = (s ≡ []) ⊎ ((t : Text) × (s ≡ b'#' ∷ t))

-- trim_right takes blanks off the end.
trim_right-splits :
    (p : ℕ → Bool) (s : Text)
    → (cut : Text) × (s ≡ trim_right p s ++ cut)
      × All (λ c. p c ≡ true) cut
      × (trim_right p (trim_right p s) ≡ trim_right p s)
unfolding trim_right
trim_right-splits p [] = ([], refl, tt, refl)
trim_right-splits p (c ∷ s) = go (trim_right p s) (trim_right-splits p s)
  where
    go :
        (r : Text)
        → ((cut : Text) × (s ≡ r ++ cut) × All (λ d. p d ≡ true) cut × (trim_right p r ≡ r))
        → let t = if is_empty r && p c then [] else c ∷ r in
          (cut : Text) × (c ∷ s ≡ t ++ cut) × All (λ d. p d ≡ true) cut × (trim_right p t ≡ t)
    go [] (cut, e, h, k) = elim (Bool-cases (p c)) [
      | inl q ↦ rw q (c ∷ cut, ap (◌∷◌ c) e, (q, h), refl)
      | inr q ↦ rw q (cut, ap (◌∷◌ c) e, h, rw q refl)
    ]
    go (d ∷ r) (cut, e, h, k) = (cut, ap (◌∷◌ c) e, h, rw k refl)

before_comment-head : (d : ℕ) (s : Text) → (t : Text) × (before_comment (d ∷ s) ≡ d ∷ t)
unfolding before_comment
before_comment-head d [] = ([], refl)
before_comment-head d (e ∷ s) = elim (Bool-cases (e == b'#' && is_blank d)) [
  | inl h ↦ rw h ([], refl)
  | inr h ↦ rw h (before_comment (e ∷ s), refl)
]

before_comment-splits : (s : Text) → (rest : Text) × (s ≡ before_comment s ++ rest) × IsComment rest
unfolding before_comment
before_comment-splits [] = ([], refl, inl refl)
before_comment-splits (c ∷ []) = ([], refl, inl refl)
before_comment-splits (c ∷ d ∷ s) = elim (Bool-cases (d == b'#' && is_blank c)) [
  | inl h ↦ rw h (d ∷ s, refl, inr (s, ap (λ x. x ∷ s) (hash h)))
  | inr h ↦ let (rest, e, k) = before_comment-splits (d ∷ s) in rw h (rest, ap (◌∷◌ c) e, k)
]
  where
    hash : (d == b'#' && is_blank c) ≡ true → d ≡ b'#'
    hash h = ground arith

pub cons-injective : (a b : ℕ) (s t : Text) → a ∷ s ≡ b ∷ t → (a ≡ b) × (s ≡ t)
cons-injective a b s t h = (ap head_of h, ap tail_of h)
  where
    head_of : Text → ℕ
    head_of [] = a
    head_of (x ∷ r) = x

    tail_of : Text → Text
    tail_of [] = []
    tail_of (x ∷ r) = r

before_comment-NoComment : (s : Text) → NoComment (before_comment s)
unfolding before_comment
before_comment-NoComment [] [] back c b h = cc
before_comment-NoComment [] (x ∷ front) back c b h = cc
before_comment-NoComment (a ∷ []) [] back c b h = cc
before_comment-NoComment (a ∷ []) (x ∷ []) back c b h = cc
before_comment-NoComment (a ∷ []) (x ∷ y ∷ front) back c b h = cc
before_comment-NoComment (a ∷ d ∷ s) front back c b h =
    elim (Bool-cases (d == b'#' && is_blank a)) [
      | inl e ↦ alone front (rw e at h)
      | inr e ↦ longer front (before_comment-NoComment (d ∷ s)) e (rw e at h)
    ]
  where
    alone : (f : Text) → a ∷ [] ≢ f ++ (c ∷ b'#' ∷ back)
    alone [] k = cc
    alone (x ∷ []) k = cc
    alone (x ∷ y ∷ f) k = cc

    longer :
        (f : Text)
        → NoComment (before_comment (d ∷ s))
        → (d == b'#' && is_blank a) ≡ false
        → a ∷ before_comment (d ∷ s) ≢ f ++ (c ∷ b'#' ∷ back)
    longer [] later e k =
        let (t, q) = before_comment-head d s in
        let (i, j) = cons-injective a c (before_comment (d ∷ s)) (b'#' ∷ back) k in
        let (m, _) = cons-injective d b'#' t back (sym q ∙ j) in clash i m e
      where
        clash : a ≡ c → d ≡ b'#' → (d == b'#' && is_blank a) ≡ false → ⊥
        clash i m e2 = ground (arith, b)
    longer (x ∷ f) later e k =
        later f back c b (cons-injective a x (before_comment (d ∷ s)) (f ++ (c ∷ b'#' ∷ back)) k).1

take-front : (a b : Text) → (take (length a) (a ++ b) ≡ a) × (drop (length a) (a ++ b) ≡ b)
take-front [] b = (refl, refl)
take-front (c ∷ a) b = let (h, k) = take-front a b in (ap (◌∷◌ c) h, k)

trimmed-NoComment : (s : Text) → NoComment s → NoComment (trim_right is_blank s)
trimmed-NoComment s h front back c b e =
    let (cut, splits, _, _) = trim_right-splits is_blank s in
    h front (back ++ cut) c b
      (splits ∙ ap (λ t. t ++ cut) e ∙ append_assoc front (c ∷ b'#' ∷ back) cut)

-- The value that is read without quotes, in front of its tail.
pub record Divides (value old tail : Text) : Type 0 where
  pub splits : old ++ tail ≡ value
  pub trimmed : trim_right is_blank old ≡ old
  pub no_comment : NoComment old
  pub blanks : Text
  pub comment : Text
  pub all_blank : All IsBlank blanks
  pub is_comment : IsComment comment
  pub ends : tail ≡ blanks ++ comment

pub NoComment-nil : NoComment []
NoComment-nil [] back c b e = cc
NoComment-nil (x ∷ front) back c b e = cc

pub bare_value_len-Divides :
    (c : ℕ) (s : Text)
    → let n = bare_value_len (c ∷ s) in Divides (c ∷ s) (take n (c ∷ s)) (drop n (c ∷ s))
unfolding bare_value_len
bare_value_len-Divides c s = elim (Bool-cases (c == b'#')) [
  | inl e ↦ rw e (record {
    splits = refl;
    trimmed = unfold trim_right in refl;
    no_comment = NoComment-nil;
    blanks = [];
    comment = c ∷ s;
    all_blank = tt;
    is_comment = inr (s, ap (λ d. d ∷ s) ((==_iff c b'#').0 e));
    ends = refl;
  })
  | inr e ↦ rw e (divided (c ∷ s))
]
  where
    divided :
        (v : Text)
        → let n = length (trim_right is_blank (before_comment v)) in Divides v (take n v) (drop n v)
    divided v =
        let text = before_comment v in
        let (rest, splits, comment) = before_comment-splits v in
        let (cut, shorter, blank, twice) = trim_right-splits is_blank text in
        let old = trim_right is_blank text in
        let whole : v ≡ old ++ (cut ++ rest) =
          splits ∙ ap (λ t. t ++ rest) shorter ∙ append_assoc old cut rest in
        let (taken, dropped) = take-front old (cut ++ rest) in
        let first : take (length old) v ≡ old = ap (take (length old)) whole ∙ taken in
        let last : drop (length old) v ≡ cut ++ rest = ap (drop (length old)) whole ∙ dropped in
        record {
          splits = rw (first, last) (sym whole);
          trimmed = rw first twice;
          no_comment = rw first (trimmed-NoComment text (before_comment-NoComment v));
          blanks = cut;
          comment = rest;
          all_blank = blank;
          is_comment = comment;
          ends = last;
        }
