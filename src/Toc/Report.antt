-- ===== src/Toc/Report.antt =====
-- UpdateFiles of pkg/doczcore/toc/update.go. os.WriteFile is a parameter that tells whether a write
-- succeeds; the writes that are tried are kept in order.
pub mod Accounts
use docz.Prelude.{
  ℕ, suc, ◌+◌, Bool, false, not, ◌&&◌, ◌≡◌, inl, inr, refl, subst, Option, none, some, List, [],
  ◌∷◌, ◌++◌, arith, ltb, if◌then◌else◌, Bool-cases, ◌>>=◌, length, length-append,
}
use docz.Text.{Text, equal}
use docz.Docparse.Inline.{Unicode}
use docz.Toc.{UpdateResult, toc_region, update_toc, update_region, spliced}
use docz.Toc.Splice.{parse_headings-some}
use docz.Docparse.Regions.{Region}

pub record FileInput : Type 0 where
  pub path : Text
  pub content : Text

pub record FileResult : Type 0 where
  pub path : Text
  pub headings : ℕ

pub record UpdateReport : Type 0 where
  pub updated : List FileResult
  pub unchanged : List FileResult
  pub would_update : List FileResult
  pub skipped : List Text
  pub write_errors : List Text

abbrev pub empty_report : UpdateReport
empty_report = record {
  updated = [];
  unchanged = [];
  would_update = [];
  skipped = [];
  write_errors = [];
}

-- The report, and the writes that were tried.
abbrev pub Progress : Type 0
Progress = UpdateReport × List FileInput

module _ (write_file : Text → Text → Bool) (dry_run : Bool) where
  -- The body of the loop, for one file and the result of UpdateToC.
  unfoldable pub update_file : Progress → FileInput → UpdateResult → Progress
  update_file (report, writes) f res =
      let entry : FileResult = record { path = f.path; headings = length res.headings } in
      if not res.found
      then (record report { skipped = report.skipped ++ (f.path ∷ []) }, writes)
      else if equal res.updated f.content
      then (record report { unchanged = report.unchanged ++ (entry ∷ []) }, writes)
      else if dry_run
      then (record report { would_update = report.would_update ++ (entry ∷ []) }, writes)
      else if not (write_file f.path res.updated)
      then (
        record report { write_errors = report.write_errors ++ (f.path ∷ []) },
        writes ++ (record { path = f.path; content = res.updated } ∷ []),
      )
      else (
        record report { updated = report.updated ++ (entry ∷ []) },
        writes ++ (record { path = f.path; content = res.updated } ∷ []),
      )

  module _ (u : Unicode) (min_headings : ℕ) where
    unfoldable pub update_files_from : Progress → List FileInput → Option Progress
    update_files_from p [] = some p
    update_files_from p (f ∷ fs) = do
      res ← update_toc u f.content min_headings
      update_files_from (update_file p f res) fs

    -- UpdateFiles
    unfoldable pub update_files : List FileInput → Option Progress
    update_files = update_files_from (empty_report, [])
