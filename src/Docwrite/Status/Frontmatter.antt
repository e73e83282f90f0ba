-- ===== src/Docwrite/Status/Frontmatter.antt =====
-- Where findStatusValue of pkg/doczcore/docwrite/status.go finds the status.
use docz.Prelude.{
  ◌≡◌, ◌⊎◌, inl, inr, refl, sym, ap, ◌∙◌, subst, Option, none, some, [], ◌∷◌, ◌++◌, append_assoc,
  ◌==◌, ==_iff, Bool-cases,
}
use docz.Text.{Text, codes, cut_prefix, cut_prefix-eq_some}
use docz.Text.Lines.{lines_of}
use docz.Docwrite.Status.{
  no_frontmatter, found, failed, between, find_close, leading, behind_open, frontmatter_bounds,
  find_in_lines, find_status_value,
}
use docz.Docwrite.Status.Field.{IsField, between-found, find_in_lines-IsField}
use docz.Docwrite.Status.Block.{Closes, ClosesIn, find_close-Closes}

-- An optional newline, an opening line, the block, and the closing line with all behind it.
pub record IsBlock (doc lead block rest : Text) : Type 0 where
  pub starts : (lead ≡ []) ⊎ (lead ≡ codes "\n")
  pub splits : doc ≡ lead ++ (codes "---\n" ++ (block ++ rest))
  pub closes_at : Closes (block ++ rest) block rest

leading-cases :
    (s : Text)
    → (((leading s).0 ≡ []) ⊎ ((leading s).0 ≡ codes "\n")) × ((leading s).0 ++ (leading s).1 ≡ s)
unfolding leading
leading-cases [] = (inl refl, refl)
leading-cases (c ∷ s) = elim (Bool-cases (c == b'\n')) [
  | inl e ↦ rw e (inr (ap (λ d. d ∷ []) ((==_iff c b'\n').0 e)), refl)
  | inr e ↦ rw e (inl refl, refl)
]

-- The block of the frontmatter and the field in it.
pub record Locates (doc front old behind : Text) : Type 0 where
  pub lead : Text
  pub block : Text
  pub rest : Text
  pub is_block : IsBlock doc lead block rest
  pub in_block : Text
  pub behind_in_block : Text
  pub is_field : IsField (lines_of block) in_block old behind_in_block
  pub in_front : front ≡ lead ++ (codes "---\n" ++ in_block)
  pub follows : behind ≡ behind_in_block ++ rest

abbrev Bounded : Text → Option (Text × Text × Text) → Type 0
Bounded doc none = Unit
Bounded doc (some (before, block, rest)) =
    (lead : Text) × (before ≡ lead ++ codes "---\n") × IsBlock doc lead block rest

frontmatter_bounds-IsBlock : (doc : Text) → Bounded doc (frontmatter_bounds doc)
unfolding frontmatter_bounds
frontmatter_bounds-IsBlock doc = opened (cut_prefix (leading doc).1 (codes "---\n")) refl
  where
    opened :
        (o : Option Text)
        → cut_prefix (leading doc).1 (codes "---\n") ≡ o
        → Bounded doc (behind_open (leading doc).0 o)
    opened none e = tt
    opened (some sub) e = closed (find_close sub) (find_close-Closes sub)
      where
        closed :
            (o : Option (Text × Text))
            → ClosesIn sub o
            → Bounded doc (elim o [
              | none ↦ none
              | some (block, rest) ↦ some ((leading doc).0 ++ codes "---\n", block, rest)
            ])
        closed none k = tt
        closed (some (block, rest)) k =
            let (starts, whole) = leading-cases doc in
            (
              (leading doc).0,
              refl,
              record {
                starts = starts;
                splits =
                    sym whole
                    ∙ ap (◌++◌ (leading doc).0) (cut_prefix-eq_some _ (codes "---\n") sub e)
                    ∙ ap (λ t. (leading doc).0 ++ (codes "---\n" ++ t)) k.splits;
                closes_at = subst (λ t. Closes t block rest) k.splits k;
              },
            )

pub find_status_value-Locates :
    (doc front old behind : Text)
    → find_status_value doc ≡ found front old behind
    → Locates doc front old behind
unfolding find_status_value
find_status_value-Locates doc front old behind h =
    go (frontmatter_bounds doc) (frontmatter_bounds-IsBlock doc) h
  where
    go :
        (o : Option (Text × Text × Text))
        → Bounded doc o
        → elim o [
          | none ↦ failed no_frontmatter
          | some (before, block, after) ↦ between before after (find_in_lines (lines_of block))
        ]
          ≡ found front old behind
        → Locates doc front old behind
    go none b k = cc
    go (some (before, block, rest)) (lead, opening, is_block) k =
        let (f, t, inside, front_is, behind_is) =
          between-found before rest front old behind (find_in_lines (lines_of block)) k in
        record {
          lead = lead;
          block = block;
          rest = rest;
          is_block = is_block;
          in_block = f;
          behind_in_block = t;
          is_field = find_in_lines-IsField (lines_of block) f old t inside;
          in_front = front_is ∙ ap (λ x. x ++ f) opening ∙ append_assoc lead (codes "---\n") f;
          follows = behind_is;
        }
