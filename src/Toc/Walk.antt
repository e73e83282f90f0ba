-- ===== src/Toc/Walk.antt =====
-- Where the loops of pkg/doczcore/toc/toc.go that count lines arrive.
use docz.Prelude.{
  ℕ, zero, suc, ◌+◌, ◌≤◌, true, ◌≡◌, ◌≢◌, ◌⊎◌, inl, inr, refl, sym, ap, ◌∙◌, subst, Option, none,
  some, [], ◌∷◌, ◌++◌, arith, ◌==◌, Bool-cases,
}
use docz.Text.{Text}
use docz.Text.Lines.{newlines}
use mathlib.Core.Option.{some-injective}
use docz.Text.Edit.{ends_line, starts_newline}
use docz.Docwrite.CheckTask.{Offset, advance, walk}
use docz.Docwrite.CheckTask.Offsets.{
  behind_line, advance-eq_some, walk-newline, walk-other, walk-IsLineStart,
}

-- A line that the document has is reached.
pub walk-reaches : (n : ℕ) (doc : Text) → n ≤ newlines doc → (at : Offset) × (walk n doc ≡ some at)
unfolding newlines
walk-reaches zero doc h = (([], doc), unfold walk in refl)
walk-reaches (suc n) [] h = absurd (ground arith)
walk-reaches (suc n) (c ∷ doc) h = elim (Bool-cases (c == b'\n')) [
  | inl e ↦
      let ((front, behind), w) = walk-reaches n doc (omega (arith, rw e at h)) in
      ((c ∷ front, behind), walk-newline c n doc e ∙ ap (advance c) w)
  | inr e ↦
      let ((front, behind), w) = walk-reaches (suc n) doc (rw e at h) in
      ((c ∷ front, behind), walk-other c n doc e ∙ ap (advance c) w)
]

abbrev pub behind_front : Text → Option Offset → Option Offset
behind_front front none = none
behind_front front (some (before, behind)) = some (front ++ before, behind)

advance-behind_front :
    (c : ℕ) (before : Text) (o : Option Offset)
    → advance c (behind_front before o) ≡ behind_front (c ∷ before) o
advance-behind_front c before none = refl
advance-behind_front c before (some (a, b)) = refl

behind_front-nil : (o : Option Offset) → o ≡ behind_front [] o
behind_front-nil none = refl
behind_front-nil (some (a, b)) = refl

walk-zero : (doc : Text) → walk zero doc ≡ some ([], doc)
unfolding walk
walk-zero doc = refl

walk_nil : (n : ℕ) (at : Offset) → walk (suc n) [] ≢ some at
unfolding walk
walk_nil n at = λ h. cc

-- The walk over more lines goes on where a shorter one ends.
pub walk-add :
    (m n : ℕ) (doc front behind : Text)
    → walk m doc ≡ some (front, behind)
    → walk (m + n) doc ≡ behind_front front (walk n behind)
walk-add zero n doc front behind h =
    let same = some-injective _ _ (sym (walk-zero doc) ∙ h) in
    subst (λ at. walk (zero + n) doc ≡ behind_front at.0 (walk n at.1)) same
      (ap (λ k. walk k doc) (omega arith) ∙ behind_front-nil (walk n doc))
walk-add (suc m) n [] front behind h = absurd (walk_nil m (front, behind) h)
walk-add (suc m) n (c ∷ doc) front behind h = elim (Bool-cases (c == b'\n')) [
  | inl e ↦
      let (before, w, eq) =
        advance-eq_some c (walk m doc) (front, behind) (sym (walk-newline c m doc e) ∙ h) in
      ap (λ k. walk k (c ∷ doc)) suc_first
      ∙ walk-newline c (m + n) doc e
      ∙ ap (advance c) (walk-add m n doc before behind w)
      ∙ advance-behind_front c before (walk n behind)
      ∙ ap (λ f. behind_front f (walk n behind)) (sym eq)
  | inr e ↦
      let (before, w, eq) =
        advance-eq_some c (walk (suc m) doc) (front, behind) (sym (walk-other c m doc e) ∙ h) in
      ap (λ k. walk k (c ∷ doc)) suc_first
      ∙ walk-other c (m + n) doc e
      ∙ ap (λ k. advance c (walk k doc)) (sym suc_first)
      ∙ ap (advance c) (walk-add (suc m) n doc before behind w)
      ∙ advance-behind_front c before (walk n behind)
      ∙ ap (λ f. behind_front f (walk n behind)) (sym eq)
]
  where
    suc_first : suc m + n ≡ suc (m + n)
    suc_first = omega arith

pub behind_line-starts_newline : (s : Text) → starts_newline (behind_line s) ≡ true
unfolding behind_line
behind_line-starts_newline [] = refl
behind_line-starts_newline (c ∷ s) = ground (arith, behind_line-starts_newline s)

ends_line-cons :
    (c : ℕ) (s : Text)
    → ends_line s ≡ true
    → ((c == b'\n') ≡ true) ⊎ (s ≢ [])
    → ends_line (c ∷ s) ≡ true
unfolding ends_line
ends_line-cons c [] h (inl e) = e
ends_line-cons c [] h (inr ne) = absurd (ne refl)
ends_line-cons c (d ∷ s) h _ = h

walk-ne-nil :
    (n : ℕ) (doc front behind : Text) → walk (suc n) doc ≡ some (front, behind) → front ≢ []
unfolding newlines
walk-ne-nil n doc front behind h k =
    ground (
      arith,
      ap newlines (sym k) ∙ (walk-IsLineStart (suc n) doc (front, behind) h).newlines_before,
    )

pub walk-ends_line :
    (n : ℕ) (doc front behind : Text) → walk n doc ≡ some (front, behind) → ends_line front ≡ true
walk-ends_line zero doc front behind h =
    ap (λ at. ends_line at.0) (sym (some-injective _ _ (sym (walk-zero doc) ∙ h)))
    ∙ unfold ends_line in refl
walk-ends_line (suc n) [] front behind h = absurd (walk_nil n (front, behind) h)
walk-ends_line (suc n) (c ∷ doc) front behind h = elim (Bool-cases (c == b'\n')) [
  | inl e ↦
      let (before, w, eq) =
        advance-eq_some c (walk n doc) (front, behind) (sym (walk-newline c n doc e) ∙ h) in
      ap ends_line eq ∙ ends_line-cons c before (walk-ends_line n doc before behind w) (inl e)
  | inr e ↦
      let (before, w, eq) =
        advance-eq_some c (walk (suc n) doc) (front, behind) (sym (walk-other c n doc e) ∙ h) in
      ap ends_line eq
      ∙ ends_line-cons c before (walk-ends_line (suc n) doc before behind w)
          (inr (walk-ne-nil n doc before behind w))
]
