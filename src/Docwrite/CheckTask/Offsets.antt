-- ===== src/Docwrite/CheckTask/Offsets.antt =====
-- The offset that the walk over LF boundaries finds, and the line that starts there.
use docz.Prelude.{
  ℕ, zero, suc, true, false, ◌≡◌, inl, inr, refl, ap, subst, Option, none, some, [], ◌∷◌, ◌++◌,
  arith, ◌==◌, if◌then◌else◌, Bool-cases,
}
use docz.Text.{Text, contains_byte}
use docz.Text.Lines.{newlines}
use mathlib.Core.Option.{some-injective}
use docz.Docwrite.CheckTask.{Offset, advance, walk, next_line, set_behind_bracket}

-- The text in front holds `left` newlines, and before any other text it ends at the same offset.
pub record IsLineStart (left : ℕ) (doc : Text) (at : Offset) : Type 0 where
  pub splits : doc ≡ at.0 ++ at.1
  pub newlines_before : newlines at.0 ≡ left
  pub again : (s : Text) → walk left (at.0 ++ s) ≡ some (at.0, s)

pub advance-eq_some :
    (c : ℕ) (o : Option Offset) (at : Offset)
    → advance c o ≡ some at
    → (before : Text) × (o ≡ some (before, at.1)) × (at.0 ≡ c ∷ before)
advance-eq_some c none at h = cc
advance-eq_some c (some (b, s)) at h = (b, ground arith, ground arith)

pub walk-newline :
    (c left : ℕ) (s : Text)
    → (c == b'\n') ≡ true
    → walk (suc left) (c ∷ s) ≡ advance c (walk left s)
unfolding walk
walk-newline c left s e = rw e

pub walk-other :
    (c left : ℕ) (s : Text)
    → (c == b'\n') ≡ false
    → walk (suc left) (c ∷ s) ≡ advance c (walk (suc left) s)
unfolding walk
walk-other c left s e = rw e

IsLineStart-newline :
    (c left : ℕ) (s before behind : Text)
    → (c == b'\n') ≡ true
    → IsLineStart left s (before, behind)
    → IsLineStart (suc left) (c ∷ s) (c ∷ before, behind)
unfolding newlines
IsLineStart-newline c left s before behind e v = record {
  splits = ap (◌∷◌ c) v.splits;
  newlines_before = rw e (ap suc v.newlines_before);
  again = λ t. rw (walk-newline c left (before ++ t) e, v.again t);
}

IsLineStart-other :
    (c left : ℕ) (s before behind : Text)
    → (c == b'\n') ≡ false
    → IsLineStart (suc left) s (before, behind)
    → IsLineStart (suc left) (c ∷ s) (c ∷ before, behind)
unfolding newlines
IsLineStart-other c left s before behind e v = record {
  splits = ap (◌∷◌ c) v.splits;
  newlines_before = rw e v.newlines_before;
  again = λ t. rw (walk-other c left (before ++ t) e, v.again t);
}

pub walk-IsLineStart :
    (left : ℕ) (doc : Text) (at : Offset) → walk left doc ≡ some at → IsLineStart left doc at
unfolding walk
walk-IsLineStart zero doc at h =
    subst (IsLineStart 0 doc) (some-injective _ _ h)
      (record { splits = refl; newlines_before = unfold newlines in refl; again = λ s. refl })
walk-IsLineStart (suc left) [] at h = cc
walk-IsLineStart (suc left) (c ∷ s) (front, behind) h = elim (Bool-cases (c == b'\n')) [
  | inl e ↦
      let (before, o, eq) = advance-eq_some c (walk left s) (front, behind) (rw e at h) in
      rw eq
        (IsLineStart-newline c left s before behind e (walk-IsLineStart left s (before, behind) o))
  | inr e ↦
      let (before, o, eq) = advance-eq_some c (walk (suc left) s) (front, behind) (rw e at h) in
      rw eq (
        IsLineStart-other c left s before behind e
          (walk-IsLineStart (suc left) s (before, behind) o))
]

-- What follows the line at the start of a text.
unfoldable pub behind_line : Text → Text
behind_line [] = []
behind_line (c ∷ s) = if c == b'\n' then c ∷ s else behind_line s

pub next_line-split : (s : Text) → next_line s ++ behind_line s ≡ s
unfolding next_line behind_line
next_line-split [] = refl
next_line-split (c ∷ s) = ground (arith, next_line-split s)

pub next_line-lacks : (s : Text) → contains_byte (next_line s) b'\n' ≡ false
unfolding next_line contains_byte
next_line-lacks [] = refl
next_line-lacks (c ∷ s) = ground (arith, next_line-lacks s)

next_line-behind_line : (t : Text) → next_line (behind_line t) ≡ []
unfolding next_line behind_line
next_line-behind_line [] = refl
next_line-behind_line (c ∷ t) = ground (arith, next_line-behind_line t)

-- Another line in front of the same rest is the next line.
pub next_line-behind :
    (l s : Text) → contains_byte l b'\n' ≡ false → next_line (l ++ behind_line s) ≡ l
unfolding next_line contains_byte
next_line-behind [] s h = next_line-behind_line s
next_line-behind (c ∷ l) s h = ground (arith, next_line-behind l s)

behind_line_idem : (t : Text) → behind_line (behind_line t) ≡ behind_line t
unfolding behind_line
behind_line_idem [] = refl
behind_line_idem (c ∷ t) = ground (arith, behind_line_idem t)

pub behind_line-behind :
    (l s : Text) → contains_byte l b'\n' ≡ false → behind_line (l ++ behind_line s) ≡ behind_line s
unfolding behind_line contains_byte
behind_line-behind [] s h = behind_line_idem s
behind_line-behind (c ∷ l) s h = ground (arith, behind_line-behind l s)

pub set_behind_bracket-append :
    (p rest : Text) (b c : ℕ)
    → contains_byte p b'[' ≡ false
    → set_behind_bracket b (p ++ (b'[' ∷ c ∷ rest)) ≡ p ++ (b'[' ∷ b ∷ rest)
unfolding set_behind_bracket contains_byte
set_behind_bracket-append [] rest b c h = refl
set_behind_bracket-append (x ∷ []) rest b c h = ground arith
set_behind_bracket-append (x ∷ y ∷ p) rest b c h =
    ground (arith, set_behind_bracket-append (y ∷ p) rest b c)
