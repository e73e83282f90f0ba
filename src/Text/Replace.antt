-- ===== src/Text/Replace.antt =====
-- Regexp.ReplaceAllString: the text is searched from left to right, and each match is replaced by a
-- text that does not depend on what follows it.
use docz.Prelude.{
  ℕ, zero, suc, ◌-◌, Bool, true, false, Option, none, some, [], ◌∷◌, ◌++◌, if◌then◌else◌, ◌>>=◌,
}
use docz.Text.{Text, has_prefix}

-- A pattern at the start of a text: what the match is replaced by, and its length. The flag says
-- that the text starts where the whole text starts.
abbrev pub Matcher : Type 0
Matcher = Bool → Text → Option (Text × ℕ)

-- The replaced text where nothing matched stands again.
abbrev pub put : Option (Text × ℕ) → ℕ → (ℕ → Text) → Text
put none c later = c ∷ later 0
put (some (new, size)) c later = new ++ later (size - 1)

-- `past` characters belong to the last match.
unfoldable pub replace_from : Matcher → Bool → ℕ → Text → Text
replace_from m start past [] = []
replace_from m start (suc past) (c ∷ s) = replace_from m false past s
replace_from m start zero (c ∷ s) = put (m start (c ∷ s)) c (λ past. replace_from m false past s)

unfoldable pub replace_all : Matcher → Text → Text
replace_all m s = replace_from m true 0 s

-- The text in front of the first occurrence of `stop`.
unfoldable pub before : Text → Text → Option Text
before stop [] = none
before stop (c ∷ s) =
    let rest = before stop s in
    if has_prefix (c ∷ s) stop then some [] else elim rest [ none ↦ none | some t ↦ some (c ∷ t) ]

-- (.+?) in front of `stop`
unfoldable pub lazy_before : Text → Text → Option Text
lazy_before stop [] = none
lazy_before stop (c ∷ s) = do t ← before stop s; some (c ∷ t)
