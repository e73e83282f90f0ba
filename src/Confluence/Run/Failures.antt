-- ===== src/Confluence/Run/Failures.antt =====
-- The error of an Export of pkg/export/confluence/export.go.
use docz.Prelude.{
  Bool, true, false, ◌≡◌, inl, inr, refl, sym, Option, none, some, List, [], if◌then◌else◌,
  Bool-cases, is_empty,
}
use docz.Text.{Text}
use docz.Confluence.Client.{
  ExportError, Answer, ok, failed, Folder, Property, Client, folder_target, ◌>>=◌,
}
use docz.Confluence.Reconcile.{Item, Rendered, PageResult, Options, Json, Markers, property_key}
use docz.Confluence.Run.{Plan, Run, new_run, pages}
use docz.Confluence.Run.Folders.{
  FolderJson, use_folder, find_folder, create_folder, property_written, folder_made, checked_folder,
  is_ours, read_folder_property, created_under, folder_found, resolve_folder,
}
use docz.Confluence.Run.Orphans.{containers, orphans}
use docz.Confluence.Run.Export.{
  Failure, stopped, page_error, first_failure, run_options, orphans_done, folder_done, space_read,
  export,
}
use docz.Confluence.Run.Errors.{
  first_broken, error_title, Consistent, if-Consistent, pages-Consistent,
}
use docz.Confluence.Run.Moves.{orphans_in-Consistent}

-- The error, unless it stopped the run, is that of the first result that failed.
abbrev pub IsReported : List PageResult → Option Failure → Type 0
IsReported results none = first_broken results ≡ none
IsReported results (some (page_error title e)) = first_broken results ≡ some title
IsReported results (some (stopped e)) = results ≡ []

first_failure-IsReported :
    (x : Option (Text × ExportError)) (results : List PageResult)
    → error_title x ≡ first_broken results
    → IsReported results (first_failure x)
first_failure-IsReported none results c = sym c
first_failure-IsReported (some (title, e)) results c = sym c

-- A run that goes on has a report and an error that agree.
abbrev pub Resolves : Answer Run → Type 0
Resolves (ok run) = Consistent run
Resolves (failed e) = Unit

module _ {S : Type 0} (client : Client S) (json : FolderJson) (opts : Options) (plan : Plan)
    (run : Run) (c : Consistent run) where
  property_written-Resolves :
      (f : Folder) (m : Answer (Unit {0}) × S)
      → Resolves (property_written client json opts plan f run m).0
  unfolding use_folder
  property_written-Resolves f (ok u, s) = c
  property_written-Resolves f (failed e, s) = tt

  folder_made-Resolves :
      (m : Answer Folder × S) → Resolves (folder_made client json opts plan run m).0
  folder_made-Resolves (ok f, s) = property_written-Resolves f _
  folder_made-Resolves (failed e, s) = tt

  created_under-Resolves :
      (x : Answer Text) (s : S) → Resolves (created_under client json opts plan run x s).0
  created_under-Resolves (ok id) s = folder_made-Resolves _
  created_under-Resolves (failed e) s = tt

  folder_found-Resolves :
      (x : Answer (Option Folder)) (s : S) → Resolves (folder_found client json opts plan run x s).0
  unfolding create_folder use_folder
  folder_found-Resolves (failed e) s = tt
  folder_found-Resolves (ok none) s = elim (Bool-cases opts.dry_run) [
    | inl e ↦ rw e c
    | inr e ↦ rw e (created_under-Resolves _ s)
  ]
  folder_found-Resolves (ok (some f)) s =
      checked (client.property (folder_target f.id) property_key s)
    where
      checked :
          (x : Answer (Option Property))
          → Resolves (
              x >>= λ p.
              checked_folder client json opts plan f run
                (read_folder_property client json opts plan p))
      checked (failed e) = tt
      checked (ok p) =
          elim (Bool-cases
            (is_ours client json opts plan (read_folder_property client json opts plan p))) [
              | inl e ↦ rw e c
              | inr e ↦ rw e tt
            ]

module _ {S : Type 0} (client : Client S) (render : Item → Answer Rendered) (json : Json)
    (folder_json : FolderJson) (markers : Markers) (describe : ExportError → Text)
    (plan : Plan) where
  -- What an Export gives, but the state.
  abbrev Reported : (Run × Option Failure) × S → Type 0
  Reported ((run, failure), s) = IsReported run.pages failure

  orphans_done-Consistent :
      (opts : Options) (x : Run × S)
      → Consistent x.0
      → Consistent (orphans_done client render json folder_json markers describe opts plan x).0
  unfolding orphans
  orphans_done-Consistent opts (run, s) c =
      if-Consistent plan.full _ _
        (orphans_in-Consistent client render json markers describe opts plan (containers plan run)
          run s c)
        c

  folder_done-IsReported :
      (opts : Options) (x : Answer Run × S)
      → Resolves x.0
      → Reported (folder_done client render json folder_json markers describe opts plan x)
  folder_done-IsReported opts (failed e, s) c = refl
  folder_done-IsReported opts (ok run, s) c =
      let x = pages client render json markers describe opts plan.items run s in
      first_failure-IsReported _ _ (
        orphans_done-Consistent opts x
          (pages-Consistent client render json markers describe opts plan.items run s c))

  -- The report and the error of an export agree, whatever the client, the renderer and the options
  -- are: an export that stopped, at the space or at the folder, reports no page; any other gives an
  -- error exactly if a page of the report failed, and then it is a PageError with the title of the
  -- first page that failed.
  pub export-IsReported :
      (opts : Options) (s : S)
      → let ((run, failure), s1) =
          export client render json folder_json markers describe opts plan s in
        IsReported run.pages failure
  unfolding export resolve_folder first_broken
  export-IsReported opts s = go (client.space_id plan.space s)
    where
      go :
          (x : Answer Text)
          → Reported (space_read client render json folder_json markers describe opts plan x s)
      go (failed e) = refl
      go (ok space) = folder_done-IsReported (run_options opts plan space) _ (
          resolved (is_empty plan.folder)
            (find_folder client folder_json (run_options opts plan space) plan s))
        where
          resolved :
              (b : Bool) (x : Answer (Option Folder))
              → Resolves
                  (if b
                    then (ok new_run, s)
                    else folder_found client folder_json
                        (run_options opts plan space)
                        plan
                        new_run
                        x
                        s).0
          resolved true x = refl
          resolved false x =
              folder_found-Resolves client folder_json (run_options opts plan space) plan new_run
                refl x s
