-- ===== src/Index.antt =====
-- pkg/doczcore/index/index.go: the README table and its splice. A nil document is `none`.
pub mod Splice
use docz.Prelude.{
  ℕ, zero, suc, ◌+◌, ◌-◌, ◌*◌, ◌/◌, ◌%◌, ◌≤◌, ◌<◌, Bool, true, false, not, ◌&&◌, ◌||◌, ◌≡◌, ◌≢◌,
  ◌↔◌, ◌⊎◌, inl, inr, refl, sym, ap, ◌∙◌, subst, Option, none, some, List, [], ◌∷◌, ◌++◌,
  append-nil, append_assoc, map, String, arith, ltb, leb, ◌==◌, within, if◌then◌else◌, ltb→lt,
  lt→ltb, ==_iff, Bool-cases, Option-cases, ◌>>=◌, bind-eq_some, length, is_empty, take, drop,
  get_elem?, length-append, take-append-drop, All, All-append, All-append_left, All-append_right,
  All-weaken,
}
use docz.Prelude.Pairs.{
  AllPairs, AllPairs-append, AllPairs-unappend, AllPairs-reverse, AllPairs-weaken, All-reverse,
}
use docz.Text.{
  Text, codes, equal, cut_prefix, has_prefix, contains, contains_byte, is_space, is_blank,
  equal_iff, cut_prefix-append, cut_prefix-eq_some, contains_byte-append,
}
use docz.Text.Trim.{
  trim_left, trim_right, trim_space, trim_right-concat, trim_left_self, trim_space_self,
  trim_left-append, trim_right-cons, is_space_of_blank, trim_space-head,
}
use docz.Text.Lines.{
  split, join, lines_of, cons_head, newlines, newlines-append, split_of_lacks, split-ne-nil,
  length-lines_of, newlines_of_lacks,
}
use docz.Docparse.Regions.{Region, regions}

abbrev pub index_begin : Text
index_begin = codes "<!-- BEGIN DOCZ AUTO-GENERATED -->"

abbrev pub index_end : Text
index_end = codes "<!-- END DOCZ AUTO-GENERATED -->"

abbrev pub line_length_off : Text
line_length_off = codes "<!-- markdownlint-capture -->\n<!-- markdownlint-disable MD013 -->\n"

abbrev pub line_length_restore : Text
line_length_restore = codes "<!-- markdownlint-restore -->\n"

-- The fields of a document.DocEntry that the table shows.
pub record DocEntry : Type 0 where
  pub id : Text
  pub title : Text
  pub status : Text
  pub created : Text
  pub author : Text
  pub filename : Text

-- UpdateAction
pub data UpdateAction : Type 0 where
  created updated no_markers dry_run_created dry_run_updated : UpdateAction

unfoldable pub table_row : DocEntry → Text
table_row doc =
    codes "| "
    ++ (doc.id
        ++ (codes " | "
            ++ (doc.title
                ++ (codes " | "
                    ++ (doc.status
                        ++ (codes " | "
                            ++ (doc.created
                                ++ (codes " | "
                                    ++ (doc.author
                                        ++ (codes " | ["
                                            ++ (doc.filename
                                                ++ (codes "]("
                                                    ++ (doc.filename ++ codes ") |\n")))))))))))))

unfoldable pub table_rows : List DocEntry → Text
table_rows [] = []
table_rows (doc ∷ docs) = table_row doc ++ table_rows docs

-- GenerateTable
unfoldable pub generate_table : List DocEntry → Text → Text
generate_table docs heading =
    codes "## "
    ++ (heading
        ++ (codes "\n\n"
            ++ (line_length_off
                ++ (codes "| ID | Title | Status | Date | Author | Link |\n"
                    ++ (codes "| --- | --- | --- | --- | --- | --- |\n"
                        ++ (table_rows docs ++ line_length_restore))))))

unfoldable pub last_region : List Region → Option Region
last_region [] = none
last_region (r ∷ []) = some r
last_region (r ∷ s ∷ rs) = last_region (s ∷ rs)

-- the loop over the lines behind the pair
unfoldable pub all_space : List Text → Bool
all_space [] = true
all_space (l ∷ ls) = is_empty (trim_space l) && all_space ls

abbrev pub is_trailing : List Text → Option Region → Bool
is_trailing lines none = false
is_trailing lines (some r) =
    equal r.kind (codes "index") && r.closed && all_space (drop r.last lines)

-- hasTrailingPair
unfoldable pub has_trailing_pair : Text → Bool
has_trailing_pair header = is_trailing (lines_of header) (last_region (regions header))

-- Scaffold
unfoldable pub scaffold : Text → Text
scaffold header =
    if has_trailing_pair header
    then header
    else header ++ (index_begin ++ (codes "\n" ++ (index_end ++ codes "\n")))

-- the loop that finds the first closed index region
unfoldable pub first_index : List Region → Option Region
first_index [] = none
first_index (r ∷ rs) =
    let later = first_index rs in if equal r.kind (codes "index") && r.closed then some r else later

-- The lines in front of line `first`, and those behind line `last`.
unfoldable pub lines_before : List Text → ℕ → Text
lines_before lines first =
    if ltb 1 first then join b'\n' (take (first - 1) lines) ++ (b'\n' ∷ []) else []

unfoldable pub lines_behind : List Text → ℕ → Text
lines_behind lines last =
    if ltb last (length lines) then b'\n' ∷ join b'\n' (drop last lines) else []

abbrev pub spliced : List Text → Text → Option Region → Option Text
spliced lines table none = none
spliced lines table (some at) = some (
    lines_before lines at.first
    ++ (index_begin ++ (codes "\n" ++ (table ++ (index_end ++ lines_behind lines at.last)))))

-- spliceRegion
unfoldable pub splice_region : Text → Text → Option Text
splice_region content table = spliced (lines_of content) table (first_index (regions content))

abbrev pub or_scaffold : Text → Option Text → Text × UpdateAction
or_scaffold existing none = (existing, created)
or_scaffold existing (some body) = (body, created)

abbrev pub or_no_markers : Option Text → Text × UpdateAction
or_no_markers none = ([], no_markers)
or_no_markers (some body) = (body, updated)

-- Splice
unfoldable pub splice : Option Text → Text → Text → Text × UpdateAction
splice none header table = or_scaffold (scaffold header) (splice_region (scaffold header) table)
splice (some existing) header table = or_no_markers (splice_region existing table)
