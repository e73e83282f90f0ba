-- ===== src/Docparse/Regions.antt =====
-- The pairing of markers into spans, of pkg/doczcore/docparse/regions.go. The stack stands with its
-- innermost entry first, so the depth of an entry is the number of entries behind it.
pub mod Starts
pub mod Order
pub mod Stack
pub mod Laminar
pub mod Nesting
pub mod Spans
use docz.Prelude.{
  ℕ, zero, suc, ◌+◌, ◌-◌, ◌*◌, ◌/◌, ◌%◌, ◌≤◌, ◌<◌, Bool, true, false, not, ◌&&◌, ◌||◌, ◌≡◌, ◌≢◌,
  ◌↔◌, ◌⊎◌, inl, inr, refl, sym, ap, ◌∙◌, subst, Option, none, some, List, [], ◌∷◌, ◌++◌,
  append-nil, append_assoc, map, String, arith, ltb, leb, ◌==◌, within, if◌then◌else◌, ltb→lt,
  lt→ltb, ==_iff, Bool-cases, Option-cases, length, is_empty, take, drop, get_elem?, length-append,
  take-append-drop, All, All-append, All-append_left, All-append_right, All-weaken,
}
use docz.Prelude.Pairs.{AllPairs, AllPairs-append}
use docz.Text.{
  Text, codes, equal, cut_prefix, has_prefix, contains, contains_byte, is_space, is_blank,
  equal_iff, cut_prefix-append, cut_prefix-eq_some, contains_byte-append,
}
use docz.Text.Trim.{trim_left, trim_right, trim_space}
use docz.Text.Lines.{split, join, lines_of, cons_head}
use mathlib.Core.List.{reverse}
use docz.Docparse.Markers.{Role, start, finish, Marker, markers}

pub record Region : Type 0 where
  pub kind : Text
  pub first : ℕ
  pub last : ℕ
  pub depth : ℕ
  pub closed : Bool

pub record OpenRegion : Type 0 where
  pub kind : Text
  pub first : ℕ

abbrev pub OpenStack : Type 0
OpenStack = List OpenRegion

-- The region that an open entry becomes when it ends at `line`, above `below` other entries.
abbrev pub end_region : OpenRegion → ℕ → ℕ → Bool → Region
end_region o below line closed = record {
  kind = o.kind;
  first = o.first;
  last = line;
  depth = below;
  closed = closed;
}

-- An inner entry ends, unclosed, before the ones that the rest of the stack gives.
abbrev pub end_inner : Region → Option (List Region × OpenStack) → Option (List Region × OpenStack)
end_inner r none = none
end_inner r (some (ended, left)) = some (r ∷ ended, left)

-- innermost, and the loop that ends what stands above the entry that it finds: the regions in the
-- order in which they are appended, and the stack that is left.
unfoldable pub close : Text → ℕ → OpenStack → Option (List Region × OpenStack)
close kind line [] = none
close kind line (o ∷ stack) =
    let outer = close kind line stack in
    if equal o.kind kind
    then some (end_region o (length stack) line true ∷ [], stack)
    else end_inner (end_region o (length stack) line false) outer

-- A stray end marker changes nothing.
abbrev pub after_end :
    List Region × OpenStack → Option (List Region × OpenStack) → List Region × OpenStack
after_end state none = state
after_end (out, stack) (some (ended, left)) = (out ++ ended, left)

abbrev pub pair_role : List Region × OpenStack → Marker → Role → List Region × OpenStack
pair_role (out, stack) m start = (out, record { kind = m.kind; first = m.line } ∷ stack)
pair_role (out, stack) m finish = after_end (out, stack) (close m.kind m.line stack)

-- The loop over the markers: `out` and `stack` after one marker.
unfoldable pub pair : List Region × OpenStack → Marker → List Region × OpenStack
pair state m = pair_role state m m.role

unfoldable pub pair_all : List Region × OpenStack → List Marker → List Region × OpenStack
pair_all state [] = state
pair_all state (m ∷ ms) = pair_all (pair state m) ms

-- The loop over what is still open at the end of the file.
unfoldable pub close_all : ℕ → OpenStack → List Region
close_all line [] = []
close_all line (o ∷ stack) = end_region o (length stack) line false ∷ close_all line stack

-- The test that stops the inner loop of sortRegions: `a` stays before `b`.
unfoldable pub in_order : Region → Region → Bool
in_order a b = ltb a.first b.first || (a.first == b.first && leb a.depth b.depth)

-- The inner loop of sortRegions: `r` moves down the sorted part, whose last entry comes first here.
unfoldable pub sift : Region → List Region → List Region
sift r [] = r ∷ []
sift r (p ∷ ps) = let moved = sift r ps in if in_order p r then r ∷ p ∷ ps else p ∷ moved

-- The outer loop: the entries of the last argument are sorted into the part before them.
unfoldable pub sort_from : List Region → List Region → List Region
sort_from done [] = done
sort_from done (r ∷ rs) = sort_from (sift r done) rs

-- sortRegions
unfoldable pub sort_regions : List Region → List Region
sort_regions rs = reverse (sort_from [] rs)

-- strings.Count(content, "\n") + 1
unfoldable pub last_line : Text → ℕ
last_line content = length (lines_of content)

-- The regions before they are sorted.
unfoldable pub paired : List Marker → ℕ → List Region
paired ms line = let (out, stack) = pair_all ([], []) ms in out ++ close_all line stack

-- Regions; without markers all the loops are empty.
unfoldable pub regions : Text → List Region
regions content = sort_regions (paired (markers content) (last_line content))
