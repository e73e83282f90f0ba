-- ===== src/Toc/Splice.antt =====
-- The lines that UpdateToC of pkg/doczcore/toc/toc.go replaces.
use docz.Prelude.{
  ℕ, zero, suc, ◌+◌, ◌-◌, ◌≤◌, true, false, ◌≡◌, ◌⊎◌, inl, inr, refl, sym, ap, ◌∙◌, subst, none,
  some, List, [], ◌++◌, append_assoc, arith, Bool-cases,
}
use docz.Text.{Text, codes}
use docz.Text.Lines.{newlines, newlines-append, length-lines_of, newlines_of_lacks}
use docz.Docparse.Inline.{Unicode}
use docz.Docparse.Headings.{Heading}
use docz.Docparse.Headings.Walk.{headings-DistinctSlugs}
use docz.Docparse.Regions.{Region, regions, last_line}
use docz.Docparse.Regions.Spans.{InDocument, regions-InDocument}
use docz.Docwrite.CheckTask.{walk, next_line}
use docz.Docwrite.CheckTask.Offsets.{
  behind_line, walk-IsLineStart, next_line-split, next_line-lacks,
}
use docz.Toc.{
  toc_begin, toc_end, lines_from, lines_up_to, from_line_end, generate_toc, first_toc, toc_region,
  UpdateResult, parse_headings, spliced, update_toc,
}
use docz.Toc.First.{IsFirstToc, Tocless, first_toc-cases, IsFirstToc-All, chosen, rejected}
use docz.Text.Edit.{Replaced}
use docz.Toc.Walk.{walk-reaches, behind_front, walk-add, behind_line-starts_newline, walk-ends_line}

lines_up_to-walk :
    (content front behind : Text) (line : ℕ)
    → walk (line - 1) content ≡ some (front, behind)
    → lines_up_to content line ≡ front
unfolding lines_up_to
lines_up_to-walk content front behind line h = rw (lines_up_to, h) refl

from_line_end-walk :
    (content front behind : Text) (line : ℕ)
    → walk (line - 1) content ≡ some (front, behind)
    → from_line_end content line ≡ behind_line behind
unfolding from_line_end
from_line_end-walk content front behind line h = rw (from_line_end, h) refl

pub lines-Replaced :
    (content new : Text) (first last : ℕ)
    → 1 ≤ first
    → first ≤ last
    → last ≤ last_line content
    → Replaced content
        (lines_up_to content first ++ (new ++ from_line_end content last))
        new
        first
        last
unfolding last_line
lines-Replaced content new first last one order bound =
    let lines = length-lines_of content in
    let ((front, x), w) = walk-reaches (first - 1) content (omega (arith, lines)) in
    let s = walk-IsLineStart (first - 1) content (front, x) w in
    let counted = ap newlines s.splits ∙ newlines-append front x in
    let ((g, y), v) =
      walk-reaches (last - first) x (omega (arith, lines, counted, s.newlines_before)) in
    let t = walk-IsLineStart (last - first) x (g, y) v in
    let reached =
      ap (λ k. walk k content) (the_sum one order)
      ∙ walk-add (first - 1) (last - first) content front x w
      ∙ ap (behind_front front) v in
    let no_newline = newlines_of_lacks (next_line y) (next_line-lacks y) in
    record {
      front = front;
      old = g ++ next_line y;
      behind = behind_line y;
      before =
          s.splits
          ∙ ap (◌++◌ front) (
              t.splits
              ∙ ap (◌++◌ g) (sym (next_line-split y))
              ∙ sym (append_assoc g (next_line y) (behind_line y)));
      after =
          rw
            (
              lines_up_to-walk content front x first w,
              from_line_end-walk content (front ++ g) y last reached,
            )
            refl;
      front_ends = walk-ends_line (first - 1) content front x w;
      behind_starts = behind_line-starts_newline y;
      first_line = omega (arith, s.newlines_before);
      last_line =
          rw (newlines-append front (g ++ next_line y), newlines-append g (next_line y), no_newline)
            (omega (arith, s.newlines_before, t.newlines_before));
    }
  where
    the_sum : 1 ≤ first → first ≤ last → last - 1 ≡ (first - 1) + (last - first)
    the_sum a b = omega arith

module _ (u : Unicode) where
  pub parse_headings-some :
      (content : Text) (line : ℕ) → (hs : List Heading) × (parse_headings u content line ≡ some hs)
  unfolding parse_headings
  parse_headings-some content zero =
      let (hs, eq, _, _, _) = headings-DistinctSlugs u content in (hs, eq)
  parse_headings-some content (suc line) =
      let (hs, eq, _, _, _) = headings-DistinctSlugs u (lines_from content (suc (suc line))) in
      (hs, eq)

  update_toc-region :
      (content : Text) (min_headings : ℕ) (r : Region) (hs : List Heading)
      → toc_region content ≡ some r
      → parse_headings u content r.last ≡ some hs
      → update_toc u content min_headings ≡ some (spliced u content min_headings r hs)
  unfolding update_toc
  update_toc-region content min_headings r hs h k = rw h (rw k refl)

  -- UpdateToC returns for every document. If the first ToC region of the document is closed, it
  -- finds it, and puts the begin marker, the table of the headings that it reports and the end marker
  -- in place of exactly the lines of that region; all else of the document stays. If there is no ToC
  -- region, or the first is not closed, it finds none and leaves the document as it is.
  pub update_toc-Replaced :
      (content : Text) (min_headings : ℕ)
      → (result : UpdateResult) × (update_toc u content min_headings ≡ some result)
        × (((r : Region) × IsFirstToc (regions content) r
              × (r.closed ≡ true)
              × (result.found ≡ true)
              × Replaced content result.updated
                  (toc_begin
                    ++ (codes "\n" ++ (generate_toc result.headings min_headings ++ toc_end)))
                  r.first
                  r.last)
            ⊎ ((Tocless (regions content)
                  ⊎ ((r : Region) × IsFirstToc (regions content) r × (r.closed ≡ false)))
                × (result.found ≡ false)
                × (result.updated ≡ content)))
  unfolding toc_region
  update_toc-Replaced content min_headings = elim (first_toc-cases (regions content)) [
    | inl (other, h) ↦ (untouched, unfold update_toc in rw h refl, inr (inl other, refl, refl))
    | inr (r, first, h) ↦ elim (Bool-cases r.closed) [
      | inl e ↦
          let (hs, k) = parse_headings-some content r.last in
          (
            spliced u content min_headings r hs,
            update_toc-region content min_headings r hs (chosen r r.closed h e) k,
            inl (r, first, e, refl, in_place r hs first),
          )
      | inr e ↦
          let none_closed : first_toc (regions content) ≡ none = rejected r r.closed h e in
          (untouched, unfold update_toc in rw none_closed refl, inr (inr (r, first, e), refl, refl))
    ]
  ]
    where
      untouched : UpdateResult
      untouched = record { updated = content; headings = []; found = false }

      in_place :
          (r : Region) (hs : List Heading)
          → IsFirstToc (regions content) r
          → Replaced content
              (spliced u content min_headings r hs).updated
              (toc_begin ++ (codes "\n" ++ (generate_toc hs min_headings ++ toc_end)))
              r.first
              r.last
      in_place r hs first =
          let new = toc_begin ++ (codes "\n" ++ (generate_toc hs min_headings ++ toc_end)) in
          let (one, order, bound, _) =
            IsFirstToc-All (InDocument (last_line content)) (regions content) r first
              (regions-InDocument content) in
          subst (λ t. Replaced content (lines_up_to content r.first ++ t) new r.first r.last)
            (simp append_assoc) (lines-Replaced content new r.first r.last one order bound)
