-- ===== src/Docparse/Headings/Walk.antt =====
-- Headings returns for every document, and no two of its headings have one slug.
use docz.Prelude.{
  ℕ, suc, ◌+◌, ◌≤◌, ◌<◌, ◌≡◌, ◌≢◌, inl, inr, refl, ap, Option, none, some, List, [], ◌∷◌, arith,
  Bool-cases, Option-cases, length, All, All-weaken,
}
use docz.Prelude.Pairs.{AllPairs}
use docz.Text.{Text}
use docz.Text.Trim.{trim_space}
use docz.Text.Lines.{lines_of}
use docz.Docparse.Blocks.{BlockSkipper, new_skipper, skip}
use docz.Docparse.Inline.{Unicode, strip_inline_markdown, slug_source, anchor_slug}
use docz.Docparse.Inline.Emphasis.{strip_inline_markdown-some, slug_source-some}
use docz.Docparse.Headings.{
  Heading, Taken, lookup, unique_slug, match_heading, drop_closing, Walked, add_heading,
  with_heading, headings_from, headings,
}
use docz.Docparse.Headings.Slugs.{Knows, unique_slug-Fresh}

abbrev pub DifferentSlug : Heading → Heading → Type 0
DifferentSlug a b = a.slug ≢ b.slug

-- a slug that the map did not know
abbrev IsNew : Taken → Heading → Type 0
IsNew taken h = lookup h.slug taken ≡ none

abbrev pub InLines : ℕ → ℕ → Heading → Type 0
InLines lo hi h = (lo ≤ h.line) × (h.line < hi)

-- What a walk from line `num` returns.
record IsWalk (taken : Taken) (lo hi : ℕ) (out : Walked) : Type 0 where
  found : List Heading
  returns : out ≡ some found
  new : All (IsNew taken) found
  apart : AllPairs DifferentSlug found
  lines : All (InLines lo hi) found
  rising : AllPairs (λ (a b : Heading). a.line < b.line) found

IsNew-known :
    (taken taken' : Taken)
    → ((k : Text) → Knows taken k → Knows taken' k)
    → (h : Heading) → IsNew taken' h
    → IsNew taken h
IsNew-known taken taken' keeps h e = elim (Option-cases (lookup h.slug taken)) [
  | inl free ↦ free
  | inr known ↦ let (n, k) = keeps h.slug known in cc
]

DifferentSlug-new :
    (taken' : Taken) (a h : Heading) → Knows taken' a.slug → IsNew taken' h → DifferentSlug a h
DifferentSlug-new taken' a h (n, k) e same = cc (ap (λ s. lookup s taken') same)

IsWalk-later :
    (taken : Taken) (num hi : ℕ) (out : Walked)
    → IsWalk taken (suc num) hi out
    → IsWalk taken num hi out
IsWalk-later taken num hi out w = record {
  found = w.found;
  returns = w.returns;
  new = w.new;
  apart = w.apart;
  lines =
      All-weaken (InLines (suc num) hi) (InLines num hi) (λ h l. (omega arith, l.1)) w.found
        w.lines;
  rising = w.rising;
}

module _ (u : Unicode) where
  add_heading-some :
      (taken taken' : Taken) (num level : ℕ) (text title source slug : Text)
      (later : Taken → Walked) (hs : List Heading)
      → strip_inline_markdown u (drop_closing (trim_space text)) ≡ some title
      → slug_source u (drop_closing (trim_space text)) ≡ some source
      → unique_slug taken (anchor_slug u source) ≡ some (slug, taken')
      → later taken' ≡ some hs
      → add_heading u taken num (level, text) later
        ≡ some (record { level = level; text = title; slug = slug; line = num } ∷ hs)
  unfolding add_heading
  add_heading-some taken taken' num level text title source slug later hs a b c d = rw (a, b, c, d)

  add_heading-IsWalk :
      (taken : Taken) (num hi : ℕ) (found : ℕ × Text) (later : Taken → Walked)
      → num < hi
      → ((t : Taken) → IsWalk t (suc num) hi (later t))
      → IsWalk taken num hi (add_heading u taken num found later)
  add_heading-IsWalk taken num hi (level, text) later lt ih =
      let raw = drop_closing (trim_space text) in
      let (title, e₁) = strip_inline_markdown-some u raw in
      let (source, e₂) = slug_source-some u raw in
      let f = unique_slug-Fresh taken (anchor_slug u source) in
      let w = ih f.taken' in
      let h : Heading = record { level = level; text = title; slug = f.result; line = num } in
      record {
        found = h ∷ w.found;
        returns =
            add_heading-some taken f.taken' num level text title source f.result later w.found e₁ e₂
              f.returns w.returns;
        new = (
          f.was_free,
          All-weaken (IsNew f.taken') (IsNew taken) (IsNew-known taken f.taken' f.keeps) w.found
              w.new,
        );
        apart = (
          All-weaken (IsNew f.taken') (DifferentSlug h)
              (λ x. DifferentSlug-new f.taken' h x f.known) w.found w.new,
          w.apart,
        );
        lines = (
          (omega arith, lt),
          All-weaken (InLines (suc num) hi) (InLines num hi) (λ x l. (omega arith, l.1)) w.found
              w.lines,
        );
        rising = (
          All-weaken (InLines (suc num) hi) (λ x. num < x.line) (λ x l. l.0) w.found w.lines,
          w.rising,
        );
      }

  with_heading-IsWalk :
      (taken : Taken) (num hi : ℕ) (found : Option (ℕ × Text)) (later : Taken → Walked)
      → num < hi
      → ((t : Taken) → IsWalk t (suc num) hi (later t))
      → IsWalk taken num hi (with_heading u taken num found later)
  with_heading-IsWalk taken num hi none later lt ih =
      IsWalk-later taken num hi (later taken) (ih taken)
  with_heading-IsWalk taken num hi (some found) later lt ih =
      add_heading-IsWalk taken num hi found later lt ih

  headings_from-IsWalk :
      (ls : List Text) (b : BlockSkipper) (taken : Taken) (num hi : ℕ)
      → num + length ls ≤ hi
      → IsWalk taken num hi (headings_from u b taken num ls)
  unfolding headings_from
  headings_from-IsWalk [] b taken num hi le = record {
    found = [];
    returns = refl;
    new = tt;
    apart = tt;
    lines = tt;
    rising = tt;
  }
  headings_from-IsWalk (l ∷ ls) b taken num hi le =
      let ih = λ (t : Taken). headings_from-IsWalk ls (skip b l).1 t (suc num) hi (omega arith) in
      elim (Bool-cases (skip b l).0) [
        | inl e ↦ rw e (IsWalk-later taken num hi _ (ih taken))
        | inr e ↦
            rw e
              (with_heading-IsWalk taken num hi (match_heading (trim_space l)) _ (omega arith) ih)
      ]

  -- Headings returns for every document; no two headings have one slug, and they stand on lines of
  -- the document, each after the one before it.
  pub headings-DistinctSlugs :
      (content : Text)
      → (hs : List Heading) × (headings u content ≡ some hs)
        × AllPairs DifferentSlug hs
        × All (InLines 1 (suc (length (lines_of content)))) hs
        × AllPairs (λ (a b : Heading). a.line < b.line) hs
  unfolding headings
  headings-DistinctSlugs content =
      let w =
        headings_from-IsWalk (lines_of content) new_skipper [] 1 (suc (length (lines_of content)))
          (omega arith) in
      (w.found, w.returns, w.apart, w.lines, w.rising)
