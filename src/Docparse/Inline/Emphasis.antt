-- ===== src/Docparse/Inline/Emphasis.antt =====
-- The loop of stripInline ends: a round that changes the text makes it shorter.
use docz.Prelude.{
  ℕ, zero, suc, ◌+◌, ◌-◌, ◌≤◌, ◌<◌, Bool, true, false, not, ◌≡◌, ◌⊎◌, inl, inr, refl, ap, ◌∙◌,
  Option, none, some, [], ◌∷◌, ◌++◌, arith, ◌==◌, Bool-cases, Option-cases, bind-eq_some, length,
  drop, length-append,
}
use docz.Text.{Text, codes, equal, cut_prefix, equal_iff, cut_prefix-eq_some}
use docz.Text.Trim.{trim_space}
use docz.Text.Replace.{Matcher, put, replace_from, replace_all}
use docz.Docparse.Markers.{span}
use docz.Docparse.Inline.{
  Unicode, right_boundary, emphasis, found_emphasis, emphasis_behind, under_italic, strip_under,
  strip_inline, strip_inline_markdown, slug_source, slug_text,
}

-- A match is longer than what replaces it, and is not empty.
abbrev Shrinks : Matcher → Type 0
Shrinks m =
    (start : Bool) (s new : Text) (size : ℕ)
    → m start s ≡ some (new, size)
    → (suc (length new) ≤ size) × (size ≤ length s)

-- Nothing changed, or the text got shorter.
abbrev Shorter : Text → Text → Type 0
Shorter new old = (new ≡ old) ⊎ (length new < length old)

length-drop_le : (n : ℕ) (s : Text) → length (drop n s) ≤ length s
length-drop_le zero s = omega arith
length-drop_le (suc n) [] = omega arith
length-drop_le (suc n) (c ∷ s) = omega (arith, length-drop_le n s)

length-drop : (n : ℕ) (s : Text) → n ≤ length s → length (drop n s) + n ≡ length s
length-drop zero s h = omega arith
length-drop (suc n) [] h = absurd (omega arith)
length-drop (suc n) (c ∷ s) h = omega (arith, length-drop n s (omega arith))

Shorter-le : (new old : Text) → Shorter new old → length new ≤ length old
Shorter-le new old (inl e) = rw e (omega arith)
Shorter-le new old (inr h) = omega arith

module _ (m : Matcher) (shrinks : Shrinks m) where
  put-Shorter :
      (found : Option (Text × ℕ)) (c : ℕ) (s : Text) (later : ℕ → Text)
      → ((new : Text) (size : ℕ)
          → found ≡ some (new, size)
          → (suc (length new) ≤ size) × (size ≤ suc (length s)))
      → ((past : ℕ) → Shorter (later past) (drop past s))
      → Shorter (put found c later) (c ∷ s)
  put-Shorter none c s later fits ih = cons_Shorter (ih 0)
    where
      cons_Shorter : Shorter (later 0) s → Shorter (c ∷ later 0) (c ∷ s)
      cons_Shorter (inl e) = inl (ap (◌∷◌ c) e)
      cons_Shorter (inr h) = inr (omega arith)
  put-Shorter (some (new, size)) c s later fits ih =
      let (a, b) = fits new size refl in
      inr (
        omega (
          arith,
          length-append new (later (size - 1)),
          Shorter-le (later (size - 1)) (drop (size - 1) s) (ih (size - 1)),
          length-drop (size - 1) s (omega arith),
        ))

  replace_from-Shorter :
      (s : Text) (start : Bool) (past : ℕ) → Shorter (replace_from m start past s) (drop past s)
  unfolding replace_from
  replace_from-Shorter [] start zero = inl refl
  replace_from-Shorter [] start (suc past) = inl refl
  replace_from-Shorter (c ∷ s) start (suc past) = replace_from-Shorter s false past
  replace_from-Shorter (c ∷ s) start zero =
      put-Shorter (m start (c ∷ s)) c s _ (shrinks start (c ∷ s))
        (λ past. replace_from-Shorter s false past)

length-cut_prefix : (s p r : Text) → cut_prefix s p ≡ some r → length s ≡ length p + length r
length-cut_prefix s p r h = rw (cut_prefix-eq_some s p r h) (length-append p r)

length-span : (p : ℕ → Bool) (s : Text) → length s ≡ length (span p s).0 + length (span p s).1
unfolding span
length-span p [] = omega arith
length-span p (c ∷ s) = ground (arith, length-span p s)

emphasis_parts :
    (left body right new : Text) (size s r rest r₂ : ℕ)
    → s ≡ 1 + r
    → r ≡ length body + rest
    → rest ≡ 1 + r₂
    → length right ≤ r₂
    → found_emphasis left body right ≡ some (new, size)
    → (suc (length new) ≤ size) × (size ≤ length left + s)
emphasis_parts left [] right new size s r rest r₂ a b c d e = cc
emphasis_parts left (x ∷ body) right new size s r rest r₂ a b c d e =
    ground (arith, length-append left ((x ∷ body) ++ right), length-append body right)

module _ (u : Unicode) where
  length-right_boundary : (s r : Text) → right_boundary u s ≡ some r → length r ≤ length s
  unfolding right_boundary
  length-right_boundary [] r h = ground arith
  length-right_boundary (c ∷ s) r h = ground arith

  emphasis-size :
      (left s new : Text) (size : ℕ)
      → emphasis u left s ≡ some (new, size)
      → (suc (length new) ≤ size) × (size ≤ length left + length s)
  unfolding emphasis
  emphasis-size left s new size h =
      let (r, e₁, h₁) = bind-eq_some (cut_prefix s (codes "_")) _ h in
      let (r₂, e₂, h₂) =
        bind-eq_some (cut_prefix (span (λ c. not (c == b'_')) r).1 (codes "_")) _ h₁ in
      let (right, e₃, h₃) = bind-eq_some (right_boundary u r₂) _ h₂ in
      emphasis_parts left (span (λ c. not (c == b'_')) r).0 right new size _ _ _ _
        (length-cut_prefix s (codes "_") r e₁) (length-span (λ c. not (c == b'_')) r)
        (length-cut_prefix (span (λ c. not (c == b'_')) r).1 (codes "_") r₂ e₂)
        (length-right_boundary r₂ right e₃) h₃

  emphasis_behind-size :
      (s new : Text) (size : ℕ)
      → emphasis_behind u s ≡ some (new, size)
      → (suc (length new) ≤ size) × (size ≤ length s)
  unfolding emphasis_behind
  emphasis_behind-size [] new size h = cc
  emphasis_behind-size (c ∷ s) new size h = ground (arith, emphasis-size (c ∷ []) s new size)

  under_italic-Shrinks : Shrinks (under_italic u)
  unfolding under_italic
  under_italic-Shrinks true s new size h = elim (Option-cases (emphasis u [] s)) [
    | inl e ↦ emphasis_behind-size s new size (rw e at h)
    | inr (x, e) ↦ let fits = emphasis-size [] s new size (e ∙ (rw e at h)) in (fits.0, omega arith)
  ]
  under_italic-Shrinks false s new size h = emphasis_behind-size s new size h

  strip_under-some :
      (fuel : ℕ) (text : Text)
      → length text < fuel
      → (r : Text) × (strip_under u fuel text ≡ some r)
  unfolding strip_under replace_all
  strip_under-some zero text h = absurd (omega arith)
  strip_under-some (suc fuel) text h =
      elim (replace_from-Shorter (under_italic u) under_italic-Shrinks text true 0) [
        | inl same ↦ (text, rw same (rw (equal_iff text text).1 refl))
        | inr lt ↦
            let next = replace_from (under_italic u) true 0 text in
            let (r, e) = strip_under-some fuel next (omega arith) in
            elim (Bool-cases (equal next text)) [ inl q ↦ (text, rw q) | inr q ↦ (r, rw q e) ]
      ]

  -- stripInline returns for every text.
  pub strip_inline-some : (text : Text) → (r : Text) × (strip_inline u text ≡ some r)
  unfolding strip_inline
  strip_inline-some text = strip_under-some _ _ (omega arith)

  pub strip_inline_markdown-some :
      (text : Text) → (r : Text) × (strip_inline_markdown u text ≡ some r)
  unfolding strip_inline_markdown
  strip_inline_markdown-some text = let (r, e) = strip_inline-some text in (trim_space r, rw e)

  pub slug_source-some : (text : Text) → (r : Text) × (slug_source u text ≡ some r)
  unfolding slug_source
  slug_source-some text = strip_inline-some (slug_text 0 [] text)
