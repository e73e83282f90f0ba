-- ===== src/Tests/Splices.antt =====
-- Concrete inputs for pkg/doczcore/toc and pkg/doczcore/index.
use docz.Prelude.{true, false, All, map, ◌≡◌, ◌⊎◌, refl, some, List, [], ◌∷◌, ◌++◌}
use docz.Text.{Text, codes, equal, cut_prefix, has_prefix, is_space, is_blank}
use docz.Text.Trim.{trim_left, trim_right, trim_space}
use docz.Text.Lines.{split}
use docz.Text.Edit.{Replaced}
use docz.Docparse.Blocks.{is_fence_toggle}
use docz.Docparse.Markers.{
  markers, markers_from, parse_marker, parse_trimmed, match_docz, match_toc, match_index,
  some_blanks, word, is_kind_head, is_kind_char, span, kind_token, role_token, closes,
}
use docz.Docparse.Regions.{
  Region, regions, paired, pair_all, pair, close, close_all, sort_regions, sort_from, sift,
  in_order, last_line,
}
use docz.Toc.{UpdateResult, toc_region, first_toc, update_toc, generate_toc, toc_begin, toc_end}
use docz.Toc.First.{IsFirstToc, Tocless}
use docz.Toc.Splice.{update_toc-Replaced}
use docz.Toc.Report.{FileInput, update_files}
use docz.Toc.Report.Accounts.{
  Account, IsAccount, entries, is_tried, tried, report_of, update_files-accounts,
}
use docz.Tests.Docparse.{ascii}

abbrev doc : Text
doc = codes "# T\n<!-- toc:start -->\nold\n<!--toc:end-->\n## A\n"

abbrev toc_lines : Region
toc_lines = record { kind = codes "toc"; first = 2; last = 4; depth = 0; closed = true }

doc-toc : toc_region doc ≡ some toc_lines
unfolding toc_region first_toc regions paired pair_all pair close close_all sort_regions sort_from
    sift in_order last_line markers markers_from parse_marker parse_trimmed match_docz match_toc
    match_index some_blanks word is_kind_head is_kind_char span kind_token role_token closes
    is_fence_toggle equal has_prefix cut_prefix trim_left is_blank trim_space trim_right is_space
    split
doc-toc = refl

update_toc-Replaced_example :
    (result : UpdateResult) × (update_toc ascii doc 1 ≡ some result)
    × (((r : Region) × IsFirstToc (regions doc) r
          × (r.closed ≡ true)
          × (result.found ≡ true)
          × Replaced doc result.updated
              (toc_begin ++ (codes "\n" ++ (generate_toc result.headings 1 ++ toc_end)))
              r.first
              r.last)
        ⊎ ((Tocless (regions doc)
              ⊎ ((r : Region) × IsFirstToc (regions doc) r × (r.closed ≡ false)))
            × (result.found ≡ false)
            × (result.updated ≡ doc)))
update_toc-Replaced_example = update_toc-Replaced ascii doc 1

abbrev readme : Text
readme = codes "# R\n<!-- BEGIN DOCZ AUTO-GENERATED -->\n<!-- END DOCZ AUTO-GENERATED -->\nend\n"

abbrev index_lines : Region
index_lines = record { kind = codes "index"; first = 2; last = 3; depth = 0; closed = true }

abbrev files : List FileInput
files =
    record { path = codes "a.md"; content = doc }
    ∷ record { path = codes "b.md"; content = [] }
    ∷ []

update_files-accounts_example :
    (accounts : List Account) × (map (λ (a : Account). a.file) accounts ≡ files)
    × All (IsAccount (λ path content. true) false ascii 1) accounts
    × (update_files (λ path content. true) false ascii 1 files
        ≡ some (report_of accounts, entries is_tried tried accounts))
update_files-accounts_example = update_files-accounts (λ path content. true) false ascii 1 files
