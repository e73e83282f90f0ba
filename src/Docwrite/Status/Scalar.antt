-- ===== src/Docwrite/Status/Scalar.antt =====
-- The YAML scalars that parseStatusValue of pkg/doczcore/docwrite/status.go reads.
use docz.Prelude.{
  ℕ, true, false, ◌||◌, ◌≡◌, ◌≢◌, ◌⊎◌, inl, inr, refl, sym, ap, ◌∙◌, subst, Option, none, some, [],
  ◌∷◌, ◌++◌, arith, ◌==◌, ==_iff, Bool-cases, take, drop, All,
}
use docz.Text.{Text, codes, contains_byte, is_blank}
use docz.Text.Trim.{trim_right}
use docz.Docwrite.Status.{
  status_field_missing, Located, found, failed, behind_value, to_quote, quoted_value,
  bare_value_len, is_shape, parse_status_value,
}
use docz.Docwrite.Status.Bare.{
  IsBlank, NoComment, NoComment-nil, IsComment, Divides, bare_value_len-Divides,
}

-- A text that begins with none of these characters.
abbrev pub BeginsWithout : Text → Text → Type 0
BeginsWithout chars value = All (λ c. (s : Text) → value ≢ c ∷ s) chars

-- A value between quotes: the tail begins with the first quote behind the opening one.
pub record IsQuoted (opening old tail : Text) : Type 0 where
  pub quote : ℕ
  pub is_quote : (quote ≡ b'"') ⊎ (quote ≡ b'\'')
  pub opens : opening ≡ quote ∷ []
  pub lacks : contains_byte old quote ≡ false
  pub rest : Text
  pub ends : tail ≡ quote ∷ rest

-- A value without quotes: it ends in no blank and has no comment, and the tail is blanks and, if any,
-- a comment.
pub record IsBare (value opening old tail : Text) : Type 0 where
  pub opens : opening ≡ []
  pub plain : BeginsWithout (codes " \t\"'|>{[&*") value
  pub trimmed : trim_right is_blank old ≡ old
  pub no_comment : NoComment old
  pub blanks : Text
  pub comment : Text
  pub all_blank : All IsBlank blanks
  pub is_comment : IsComment comment
  pub ends : tail ≡ blanks ++ comment

pub record IsScalar (value opening old tail : Text) : Type 0 where
  pub splits : value ≡ opening ++ (old ++ tail)
  pub shape : IsQuoted opening old tail ⊎ IsBare value opening old tail

pub found-injective :
    (f v b f' v' b' : Text) → found f v b ≡ found f' v' b' → (f ≡ f') × (v ≡ v') × (b ≡ b')
found-injective f v b f' v' b' h = (ap front_of h, ap value_of h, ap behind_of h)
  where
    front_of : Located → Text
    front_of (found x y z) = x
    front_of (failed e) = []

    value_of : Located → Text
    value_of (found x y z) = y
    value_of (failed e) = []

    behind_of : Located → Text
    behind_of (found x y z) = z
    behind_of (failed e) = []

abbrev UpTo : ℕ → Text → Option (Text × Text) → Type 0
UpTo quote s none = Unit
UpTo quote s (some (value, behind)) =
    (contains_byte value quote ≡ false)
    × (value ++ behind ≡ s)
    × ((rest : Text) × (behind ≡ quote ∷ rest))

to_quote-UpTo : (quote : ℕ) (s : Text) → UpTo quote s (to_quote quote s)
unfolding to_quote
to_quote-UpTo quote [] = tt
to_quote-UpTo quote (c ∷ s) = elim (Bool-cases (c == quote)) [
  | inl e ↦ rw e (unfold contains_byte in refl, refl, (s, ap (λ d. d ∷ s) ((==_iff c quote).0 e)))
  | inr e ↦ rw e (one_more e (to_quote quote s) (to_quote-UpTo quote s))
]
  where
    one_more :
        (c == quote) ≡ false
        → (o : Option (Text × Text)) → UpTo quote s o
        → UpTo quote (c ∷ s) (behind_value c o)
    one_more e none h = tt
    one_more e (some (value, behind)) (lacks, splits, ends) =
        (unfold contains_byte in rw (e, lacks) refl, ap (◌∷◌ c) splits, ends)

quoted_value-IsScalar :
    (quote : ℕ) (s front old behind : Text) (o : Option (Text × Text))
    → (quote ≡ b'"') ⊎ (quote ≡ b'\'')
    → UpTo quote s o
    → quoted_value quote o ≡ found front old behind
    → IsScalar (quote ∷ s) front old behind
quoted_value-IsScalar quote s front old behind none q h eq = cc
quoted_value-IsScalar quote s front old behind (some (value, later)) q (lacks, splits, tail) eq =
    let (a, b, c) = found-injective (quote ∷ []) value later front old behind eq in
    record {
      splits = ap (◌∷◌ quote) (sym splits) ∙ rw (sym a, sym b, sym c) refl;
      shape = inl (record {
        quote = quote;
        is_quote = q;
        opens = sym a;
        lacks = subst (λ t. contains_byte t quote ≡ false) b lacks;
        rest = tail.0;
        ends = sym c ∙ tail.1;
      });
    }

plain-value :
    (c : ℕ) (s : Text)
    → (c == b'"' || c == b'\'') ≡ false
    → is_shape c ≡ false
    → is_blank c ≡ false
    → BeginsWithout (codes " \t\"'|>{[&*") (c ∷ s)
unfolding is_shape is_blank
plain-value c s q k b = (
  other b' ' (ground arith),
  (
    other b'\t' (ground arith),
    (
      other b'"' (ground arith),
      (
        other b'\'' (ground arith),
        (
          other b'|' (ground arith),
          (
            other b'>' (ground arith),
            (
              other b'{' (ground arith),
              (
                other b'[' (ground arith),
                (other b'&' (ground arith), (other b'*' (ground arith), tt)),
              ),
            ),
          ),
        ),
      ),
    ),
  ),
)
  where
    head_of : Text → ℕ
    head_of [] = c
    head_of (x ∷ r) = x

    other : (d : ℕ) → c ≢ d → (t : Text) → c ∷ s ≢ d ∷ t
    other d n t h = n (ap head_of h)

plain-nil : (chars : Text) → BeginsWithout chars []
plain-nil [] = tt
plain-nil (c ∷ chars) = (λ s h. cc, plain-nil chars)

-- What parseStatusValue finds is a scalar.
pub parse_status_value-IsScalar :
    (value front old behind : Text)
    → ((c : ℕ) (s : Text) → value ≡ c ∷ s → is_blank c ≡ false)
    → parse_status_value value ≡ found front old behind
    → IsScalar value front old behind
unfolding parse_status_value
parse_status_value-IsScalar [] front old behind start h =
    let (a, b, c) = found-injective [] [] [] front old behind h in
    record {
      splits = rw (sym a, sym b, sym c) refl;
      shape = inr (record {
        opens = sym a;
        plain = plain-nil (codes " \t\"'|>{[&*");
        trimmed = rw (sym b) (unfold trim_right in refl);
        no_comment = subst NoComment b NoComment-nil;
        blanks = [];
        comment = [];
        all_blank = tt;
        is_comment = inl refl;
        ends = sym c;
      });
    }
parse_status_value-IsScalar (c ∷ s) front old behind start h =
    elim (Bool-cases (c == b'"' || c == b'\'')) [
      | inl e ↦
          quoted_value-IsScalar c s front old behind (to_quote c s) (one_of e) (to_quote-UpTo c s)
            (rw e at h)
      | inr e ↦ elim (Bool-cases (is_shape c)) [
        | inl k ↦ absurd (refused (rw (e, k) at h))
        | inr k ↦ bare e k (rw (e, k) at h)
      ]
    ]
  where
    one_of : (c == b'"' || c == b'\'') ≡ true → (c ≡ b'"') ⊎ (c ≡ b'\'')
    one_of e = ground arith

    refused : failed status_field_missing ≢ found front old behind
    refused k = cc

    n : ℕ
    n = bare_value_len (c ∷ s)

    bare :
        (c == b'"' || c == b'\'') ≡ false
        → is_shape c ≡ false
        → found [] (take n (c ∷ s)) (drop n (c ∷ s)) ≡ found front old behind
        → IsScalar (c ∷ s) front old behind
    bare e k eq =
        let (x, y, z) = found-injective [] (take n (c ∷ s)) (drop n (c ∷ s)) front old behind eq in
        let d = bare_value_len-Divides c s in
        let d2 : Divides (c ∷ s) old behind =
          subst (λ t. Divides (c ∷ s) old t) z
            (subst (λ t. Divides (c ∷ s) t (drop n (c ∷ s))) y d) in
        record {
          splits = sym d2.splits ∙ ap (λ t. t ++ (old ++ behind)) x;
          shape = inr (record {
            opens = sym x;
            plain = plain-value c s e k (start c s refl);
            trimmed = d2.trimmed;
            no_comment = d2.no_comment;
            blanks = d2.blanks;
            comment = d2.comment;
            all_blank = d2.all_blank;
            is_comment = d2.is_comment;
            ends = d2.ends;
          });
        }
