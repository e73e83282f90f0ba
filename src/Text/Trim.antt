-- ===== src/Text/Trim.antt =====
-- strings.TrimSpace and the trims by a set of characters.
use docz.Prelude.{
  ℕ, Bool, true, false, ◌&&◌, ◌≡◌, refl, [], ◌∷◌, ◌++◌, arith, if◌then◌else◌, is_empty, All,
  All-weaken,
}
use docz.Text.{Text, is_space, is_blank}

-- strings.TrimLeftFunc
unfoldable pub trim_left : (ℕ → Bool) → Text → Text
trim_left p [] = []
trim_left p (c ∷ s) = if p c then trim_left p s else c ∷ s

-- strings.TrimRightFunc
unfoldable pub trim_right : (ℕ → Bool) → Text → Text
trim_right p [] = []
trim_right p (c ∷ s) = let rest = trim_right p s in if is_empty rest && p c then [] else c ∷ rest

-- strings.TrimSpace
unfoldable pub trim_space : Text → Text
trim_space s = trim_right is_space (trim_left is_space s)

-- A text that ends in a character of another class keeps its end.
pub trim_right-concat :
    (p : ℕ → Bool) (c : ℕ) (s : Text) → p c ≡ false → trim_right p (s ++ c ∷ []) ≡ s ++ c ∷ []
unfolding trim_right
trim_right-concat p c [] h = rw h
trim_right-concat p c (x ∷ []) h = rw h
trim_right-concat p c (x ∷ y ∷ s) h = rw (trim_right-concat p c (y ∷ s) h)

pub trim_left_self : (p : ℕ → Bool) (c : ℕ) (s : Text) → p c ≡ false → trim_left p (c ∷ s) ≡ c ∷ s
unfolding trim_left
trim_left_self p c s h = rw h

-- A text that begins and ends in other characters than spaces is not trimmed.
pub trim_space_self :
    (a b : ℕ) (s : Text)
    → is_space a ≡ false
    → is_space b ≡ false
    → trim_space (a ∷ (s ++ b ∷ [])) ≡ a ∷ (s ++ b ∷ [])
unfolding trim_space
trim_space_self a b s ha hb =
    rw (trim_left_self is_space a (s ++ b ∷ []) ha, trim_right-concat is_space b (a ∷ s) hb)

pub trim_left-append :
    (p : ℕ → Bool) (s t : Text) → All (λ c. p c ≡ true) s → trim_left p (s ++ t) ≡ trim_left p t
unfolding trim_left
trim_left-append p [] t h = refl
trim_left-append p (c ∷ s) t (hc, h) = rw hc (trim_left-append p s t h)

pub trim_right-cons :
    (p : ℕ → Bool) (c : ℕ) (s : Text) → p c ≡ false → trim_right p (c ∷ s) ≡ c ∷ trim_right p s
unfolding trim_right
trim_right-cons p c s h = ground arith

pub is_space_of_blank : (c : ℕ) → is_blank c ≡ true → is_space c ≡ true
unfolding is_space is_blank
is_space_of_blank c h = ground arith

-- Behind blanks, a text that goes on with another character than a space starts with it.
pub trim_space-head :
    (lead s : Text) (c : ℕ)
    → All (λ x. is_blank x ≡ true) lead
    → is_space c ≡ false
    → trim_space (lead ++ (c ∷ s)) ≡ c ∷ trim_right is_space s
unfolding trim_space
trim_space-head lead s c h hc =
    rw
      (
        trim_left-append is_space lead (c ∷ s)
            (All-weaken (λ x. is_blank x ≡ true) (λ x. is_space x ≡ true) is_space_of_blank lead h),
        trim_left_self is_space c s hc,
      )
      (trim_right-cons is_space c s hc)
