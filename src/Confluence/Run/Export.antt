-- ===== src/Confluence/Run/Export.antt =====
-- Export of pkg/export/confluence/export.go, with the plan that buildPlan gave.
use docz.Prelude.{◌||◌, Option, none, some, if◌then◌else◌, is_empty}
use docz.Text.{Text}
use docz.Confluence.Client.{ExportError, Answer, ok, failed, Client}
use docz.Confluence.Reconcile.{Item, Rendered, Options, Json, Markers}
use docz.Confluence.Run.{Plan, Run, new_run, pages}
use docz.Confluence.Run.Folders.{FolderJson, resolve_folder}
use docz.Confluence.Run.Orphans.{orphans}

-- The error of an Export: one that stopped it, or the first page's, as a PageError.
pub data Failure : Type 0 where
  stopped : ExportError → Failure
  page_error : Text → ExportError → Failure

abbrev pub first_failure : Option (Text × ExportError) → Option Failure
first_failure none = none
first_failure (some (title, e)) = some (page_error title e)

-- The options of the run: the space's id, and Overwrite under Force.
unfoldable pub run_options : Options → Plan → Text → Options
run_options opts plan space = record opts {
  overwrite = opts.overwrite || opts.force;
  space_id = space;
  folder = plan.folder;
}

module _ {S : Type 0} (client : Client S) (render : Item → Answer Rendered) (json : Json)
    (folder_json : FolderJson) (markers : Markers) (describe : ExportError → Text) where
  abbrev pub orphans_done : Options → Plan → Run × S → Run × S
  orphans_done opts plan (run, s) =
      if plan.full then orphans client render json markers describe opts plan run s else (run, s)

  abbrev pub reported : Run × S → (Run × Option Failure) × S
  reported (run, s) = ((run, first_failure run.first_err), s)

  abbrev pub folder_done : Options → Plan → Answer Run × S → (Run × Option Failure) × S
  folder_done opts plan (failed e, s) = ((new_run, some (stopped e)), s)
  folder_done opts plan (ok run, s) =
      reported
        (orphans_done opts plan (pages client render json markers describe opts plan.items run s))

  abbrev pub with_space : Options → Plan → S → (Run × Option Failure) × S
  with_space opts plan s = folder_done opts plan (
      if is_empty plan.folder
      then (ok new_run, s)
      else resolve_folder client folder_json opts plan new_run s)

  abbrev pub space_read : Options → Plan → Answer Text → S → (Run × Option Failure) × S
  space_read opts plan (failed e) s = ((new_run, some (stopped e)), s)
  space_read opts plan (ok space) s = with_space (run_options opts plan space) plan s

  -- Export
  unfoldable pub export : Options → Plan → S → (Run × Option Failure) × S
  export opts plan s = space_read opts plan (client.space_id plan.space s) s
