-- ===== src/Toc/Report/Accounts.antt =====
-- What the report of UpdateFiles, of pkg/doczcore/toc/update.go, says of each file.
use docz.Prelude.{
  ℕ, Bool, true, false, not, ◌≡◌, ◌≢◌, inl, inr, refl, sym, ap, ◌∙◌, Option, none, some, List, [],
  ◌∷◌, ◌++◌, append-nil, append_assoc, map, arith, if◌then◌else◌, Bool-cases, length, All,
}
use docz.Text.{Text, equal, equal_iff}
use docz.Docparse.Inline.{Unicode}
use docz.Docparse.Regions.{Region}
use docz.Toc.{UpdateResult, toc_region, update_toc, update_region, spliced}
use docz.Toc.Splice.{parse_headings-some}
use docz.Toc.Report.{
  FileInput, FileResult, UpdateReport, empty_report, Progress, update_file, update_files_from,
  update_files,
}

pub data Verdict : Type 0 where
  skipped unchanged would_update write_error updated : Verdict

-- A file, what UpdateToC makes of it, and where the report has it.
pub record Account : Type 0 where
  pub file : FileInput
  pub result : UpdateResult
  pub verdict : Verdict

module _ {A : Type 0} (p : Verdict → Bool) (entry : Account → A) where
  -- The entries of the accounts with some verdicts, in order.
  abbrev pub entries : List Account → List A
  entries [] = []
  entries (a ∷ accounts) =
      let rest = entries accounts in if p a.verdict then entry a ∷ rest else rest

  entries-cons :
      (a : Account) (accounts : List Account)
      → entries (a ∷ accounts) ≡ entries (a ∷ []) ++ entries accounts
  entries-cons a accounts = elim (Bool-cases (p a.verdict)) [
    | inl e ↦ rw e refl
    | inr e ↦ rw e refl
  ]

abbrev pub is_skipped : Verdict → Bool
is_skipped skipped = true
is_skipped _ = false

abbrev pub is_unchanged : Verdict → Bool
is_unchanged unchanged = true
is_unchanged _ = false

abbrev pub is_would_update : Verdict → Bool
is_would_update would_update = true
is_would_update _ = false

abbrev pub is_write_error : Verdict → Bool
is_write_error write_error = true
is_write_error _ = false

abbrev pub is_updated : Verdict → Bool
is_updated updated = true
is_updated _ = false

-- The write of such a file was tried.
abbrev pub is_tried : Verdict → Bool
is_tried write_error = true
is_tried updated = true
is_tried _ = false

abbrev pub path_of : Account → Text
path_of a = a.file.path

abbrev pub counted : Account → FileResult
counted a = record { path = a.file.path; headings = length a.result.headings }

abbrev pub tried : Account → FileInput
tried a = record { path = a.file.path; content = a.result.updated }

-- The report with the accounts of more files.
abbrev added : Progress → List Account → Progress
added (r, writes) accounts = (
  record {
    updated = r.updated ++ entries is_updated counted accounts;
    unchanged = r.unchanged ++ entries is_unchanged counted accounts;
    would_update = r.would_update ++ entries is_would_update counted accounts;
    skipped = r.skipped ++ entries is_skipped path_of accounts;
    write_errors = r.write_errors ++ entries is_write_error path_of accounts;
  },
  writes ++ entries is_tried tried accounts,
)

-- The report that has exactly these accounts.
abbrev pub report_of : List Account → UpdateReport
report_of accounts = record {
  updated = entries is_updated counted accounts;
  unchanged = entries is_unchanged counted accounts;
  would_update = entries is_would_update counted accounts;
  skipped = entries is_skipped path_of accounts;
  write_errors = entries is_write_error path_of accounts;
}

added-nil : (p : Progress) → added p [] ≡ p
added-nil (r, writes) = simp append-nil

added-cons :
    (p : Progress) (a : Account) (accounts : List Account)
    → added (added p (a ∷ [])) accounts ≡ added p (a ∷ accounts)
added-cons (r, writes) a accounts =
    rw
      (
        entries-cons is_updated counted a accounts,
        entries-cons is_unchanged counted a accounts,
        entries-cons is_would_update counted a accounts,
        entries-cons is_skipped path_of a accounts,
        entries-cons is_write_error path_of a accounts,
        entries-cons is_tried tried a accounts,
      )
      (simp append_assoc)

module _ (write_file : Text → Text → Bool) (dry_run : Bool) where
  -- When a file has a verdict.
  abbrev pub Judged : FileInput → UpdateResult → Verdict → Type 0
  Judged f res skipped = res.found ≡ false
  Judged f res unchanged = (res.found ≡ true) × (res.updated ≡ f.content)
  Judged f res would_update = (res.found ≡ true) × (res.updated ≢ f.content) × (dry_run ≡ true)
  Judged f res write_error =
      (res.found ≡ true)
      × (res.updated ≢ f.content)
      × (dry_run ≡ false)
      × (write_file f.path res.updated ≡ false)
  Judged f res updated =
      (res.found ≡ true)
      × (res.updated ≢ f.content)
      × (dry_run ≡ false)
      × (write_file f.path res.updated ≡ true)

  not-true : (b : Bool) → not b ≡ true → b ≡ false
  not-true b h = ground arith

  not-false : (b : Bool) → not b ≡ false → b ≡ true
  not-false b h = ground arith

  update_file-Judged :
      (p : Progress) (f : FileInput) (res : UpdateResult)
      → (v : Verdict) × Judged f res v
        × (update_file write_file dry_run p f res
            ≡ added p (record { file = f; result = res; verdict = v } ∷ []))
  unfolding update_file
  update_file-Judged (r, writes) f res = elim (Bool-cases (not res.found)) [
    | inl e ↦ (skipped, not-true _ e, rw e (simp append-nil))
    | inr e ↦ elim (Bool-cases (equal res.updated f.content)) [
      | inl k ↦ (unchanged, (not-false _ e, (equal_iff _ _).0 k), rw (e, k) (simp append-nil))
      | inr k ↦ elim (Bool-cases dry_run) [
        | inl d ↦ (would_update, (not-false _ e, differ k, d), rw (e, k, d) (simp append-nil))
        | inr d ↦ elim (Bool-cases (not (write_file f.path res.updated))) [
          | inl w ↦ (
            write_error,
            (not-false _ e, differ k, d, not-true _ w),
            rw (e, k, d, w) (simp append-nil),
          )
          | inr w ↦ (
            updated,
            (not-false _ e, differ k, d, not-false _ w),
            rw (e, k, d, w) (simp append-nil),
          )
        ]
      ]
    ]
  ]
    where
      differ : equal res.updated f.content ≡ false → res.updated ≢ f.content
      differ k same = ground (arith, (equal_iff res.updated f.content).1 same)

  module _ (u : Unicode) (min_headings : ℕ) where
    abbrev pub IsAccount : Account → Type 0
    IsAccount a =
        (update_toc u a.file.content min_headings ≡ some a.result)
        × Judged a.file a.result a.verdict

    update_toc-some :
        (content : Text) → (res : UpdateResult) × (update_toc u content min_headings ≡ some res)
    unfolding update_toc
    update_toc-some content = at (toc_region content)
      where
        at :
            (o : Option Region)
            → (res : UpdateResult) × (update_region u content min_headings o ≡ some res)
        at none = (record { updated = content; headings = []; found = false }, refl)
        at (some r) =
            let (hs, eq) = parse_headings-some u content r.last in
            (spliced u content min_headings r hs, rw eq refl)

    update_files_from-accounts :
        (p : Progress) (files : List FileInput)
        → (accounts : List Account) × (map (λ (a : Account). a.file) accounts ≡ files)
          × All IsAccount accounts
          × (update_files_from write_file dry_run u min_headings p files ≡ some (added p accounts))
    unfolding update_files_from
    update_files_from-accounts p [] = ([], refl, tt, ap some (sym (added-nil p)))
    update_files_from-accounts p (f ∷ files) =
        let (res, eq) = update_toc-some f.content in
        let (v, judged, step) = update_file-Judged p f res in
        let a : Account = record { file = f; result = res; verdict = v } in
        let (accounts, same, all, run) = update_files_from-accounts (added p (a ∷ [])) files in
        (
          a ∷ accounts,
          ap (◌∷◌ f) same,
          ((eq, judged), all),
          rw (eq, step) (run ∙ ap some (added-cons p a accounts)),
        )

    -- UpdateFiles returns for all files. Each of them has one account: UpdateToC's result for it, and
    -- a verdict. It is skipped if no region is found; otherwise unchanged if the updated text is its
    -- content; otherwise in a dry run one that would be updated; otherwise a write error or updated,
    -- as the write of the updated text to its path fails or succeeds. The lists of the report are the
    -- paths, with the number of headings where the list has it, of the files with that verdict, in the
    -- order of the files, and the writes that were tried are those of the last two verdicts.
    pub update_files-accounts :
        (files : List FileInput)
        → (accounts : List Account) × (map (λ (a : Account). a.file) accounts ≡ files)
          × All IsAccount accounts
          × (update_files write_file dry_run u min_headings files
              ≡ some (report_of accounts, entries is_tried tried accounts))
    unfolding update_files
    update_files-accounts files = update_files_from-accounts (empty_report, []) files
