-- ===== src/Text/Lines.antt =====
-- strings.Split on a separator of one byte, and the line that it makes of "\n".
use docz.Prelude.{
  ℕ, suc, ◌+◌, false, ◌≡◌, ◌≢◌, inl, inr, refl, ap, ◌∙◌, List, [], ◌∷◌, ◌++◌, arith, ◌==◌,
  if◌then◌else◌, Bool-cases, length,
}
use docz.Text.{Text, contains_byte}

abbrev pub cons_head : ℕ → List Text → List Text
cons_head c [] = (c ∷ []) ∷ []
cons_head c (l ∷ ls) = (c ∷ l) ∷ ls

unfoldable pub split : ℕ → Text → List Text
split sep [] = [] ∷ []
split sep (c ∷ s) = let rest = split sep s in if c == sep then [] ∷ rest else cons_head c rest

-- strings.Join with a separator of one byte
unfoldable pub join : ℕ → List Text → Text
join sep [] = []
join sep (l ∷ []) = l
join sep (l ∷ m ∷ ls) = l ++ (sep ∷ join sep (m ∷ ls))

-- strings.Split(content, "\n")
abbrev pub lines_of : Text → List Text
lines_of = split b'\n'

-- strings.Count(s, "\n")
unfoldable pub newlines : Text → ℕ
newlines [] = 0
newlines (c ∷ s) = if c == b'\n' then suc (newlines s) else newlines s

pub newlines-append : (s t : Text) → newlines (s ++ t) ≡ newlines s + newlines t
unfolding newlines
newlines-append [] t = omega arith
newlines-append (c ∷ s) t = ground (arith, newlines-append s t)

-- A text without the separator is one part.
pub split_of_lacks : (sep : ℕ) (s : Text) → contains_byte s sep ≡ false → split sep s ≡ s ∷ []
unfolding split contains_byte
split_of_lacks sep [] h = refl
split_of_lacks sep (c ∷ s) h = ground (arith, split_of_lacks sep s)

-- Text in front of the first separator goes to the first part.
pub cons_head-length : (c : ℕ) (ls : List Text) → ls ≢ [] → length (cons_head c ls) ≡ length ls
cons_head-length c [] h = absurd (h refl)
cons_head-length c (l ∷ ls) h = refl

pub split-ne-nil : (sep : ℕ) (s : Text) → split sep s ≢ []
unfolding split
split-ne-nil sep [] h = cc
split-ne-nil sep (c ∷ s) h = elim (Bool-cases (c == sep)) [
  | inl e ↦ cc (rw e at h)
  | inr e ↦ cons_head-ne-nil c (split sep s) (rw e at h)
]
  where
    cons_head-ne-nil : (x : ℕ) (ls : List Text) → cons_head x ls ≢ []
    cons_head-ne-nil x [] k = cc
    cons_head-ne-nil x (l ∷ ls) k = cc

-- The lines are one more than the newlines.
pub length-lines_of : (s : Text) → length (lines_of s) ≡ suc (newlines s)
unfolding split newlines
length-lines_of [] = refl
length-lines_of (c ∷ s) = elim (Bool-cases (c == b'\n')) [
  | inl e ↦ rw e (ap suc (length-lines_of s))
  | inr e ↦ rw e (cons_head-length c (lines_of s) (split-ne-nil b'\n' s) ∙ length-lines_of s)
]

pub newlines_of_lacks : (s : Text) → contains_byte s b'\n' ≡ false → newlines s ≡ 0
unfolding newlines contains_byte
newlines_of_lacks [] h = refl
newlines_of_lacks (c ∷ s) h = ground (arith, newlines_of_lacks s)
