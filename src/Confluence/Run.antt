-- ===== src/Confluence/Run.antt =====
-- The run of an export past its plan: pkg/export/confluence/export.go. The context is never
-- cancelled, and the hooks that watch a run are left out. Parameter, with those of a
-- reconciliation: what Error() says of an error.
pub mod Folders
pub mod Orphans
pub mod Export
pub mod DryRun
pub mod Results
pub mod Errors
pub mod Moves
pub mod Failures
use docz.Prelude.{
  ℕ, zero, suc, ◌+◌, ◌-◌, ◌*◌, ◌/◌, ◌%◌, ◌≤◌, ◌<◌, Bool, true, false, not, ◌&&◌, ◌||◌, ◌≡◌, ◌≢◌,
  ◌↔◌, ◌⊎◌, inl, inr, refl, sym, ap, ◌∙◌, subst, Option, none, some, List, [], ◌∷◌, ◌++◌,
  append-nil, append_assoc, map, String, arith, ltb, leb, ◌==◌, within, if◌then◌else◌, ltb→lt,
  lt→ltb, ==_iff, Bool-cases, Option-cases, length, is_empty, take, drop, get_elem?, length-append,
  take-append-drop, All, All-append, All-append_left, All-append_right, All-weaken,
}
use docz.Prelude.Pairs.{
  AllPairs, AllPairs-append, AllPairs-unappend, AllPairs-reverse, AllPairs-weaken, All-reverse,
}
use docz.Text.{
  Text, codes, equal, cut_prefix, has_prefix, contains, contains_byte, is_space, is_blank,
  equal_iff, cut_prefix-append, cut_prefix-eq_some, contains_byte-append,
}
use docz.Text.Trim.{
  trim_left, trim_right, trim_space, trim_right-concat, trim_left_self, trim_space_self,
  trim_left-append, trim_right-cons, is_space_of_blank, trim_space-head,
}
use docz.Text.Lines.{
  split, join, lines_of, cons_head, newlines, newlines-append, split_of_lacks, split-ne-nil,
  length-lines_of, newlines_of_lacks,
}
use docz.Text.Dict.{Dict, lookup}
use docz.Confluence.Client.{
  Kind, page_type, folder_type, ExportError, Answer, ok, failed, Page, Node, Target, page_target,
  folder_target, Client,
}
use docz.Confluence.Reconcile.{
  Item, Rendered, Action, broken, PageResult, Options, Json, Markers, Outcome, reconcile,
}

-- plan, without the targets of links; `full` is a run with no Types and no IDs
pub record Plan : Type 0 where
  pub items : List Item
  pub full : Bool
  pub keys : List Text
  pub titles : List Text
  pub folder : Text
  pub archive : Text
  pub parent_title : Text
  pub space : Text

-- exportRun, with the pages and the folder of its report
pub record Run : Type 0 where
  pub page_ids : List Text
  pub pages : List PageResult
  pub first_err : Option (Text × ExportError)
  pub archive_id : Text
  pub folder_id : Text
  pub folder : Option Node

abbrev pub new_run : Run
new_run = record {
  page_ids = [];
  pages = [];
  first_err = none;
  archive_id = [];
  folder_id = [];
  folder = none;
}

abbrev pub or_first : Option (Text × ExportError) → Text × ExportError → Option (Text × ExportError)
or_first none e = some e
or_first (some first) e = some first

-- The result that the report has for one that came with an error.
abbrev pub failed_result : (ExportError → Text) → PageResult → ExportError → PageResult
failed_result describe res e = record res { action = broken; reason = describe e }

-- record
unfoldable pub record_result : (ExportError → Text) → PageResult → Option ExportError → Run → Run
record_result describe res none run = record run { pages = run.pages ++ (res ∷ []) }
record_result describe res (some e) run = record run {
  pages = run.pages ++ (failed_result describe res e ∷ []);
  first_err = or_first run.first_err (res.title, e);
}

-- A Go map from the indices of the items so far; a missing id is empty.
unfoldable pub page_id_at : List Text → ℕ → Text
page_id_at [] k = []
page_id_at (id ∷ ids) k = let later = page_id_at ids (k - 1) in if k == 0 then id else later

unfoldable pub parent_of : Run → Option ℕ → Text
parent_of run none = run.folder_id
parent_of run (some k) = page_id_at run.page_ids k

module _ {S : Type 0} (client : Client S) (render : Item → Answer Rendered) (json : Json)
    (markers : Markers) (describe : ExportError → Text) (opts : Options) where
  abbrev pub recorded : Run → Outcome S → Run × S
  recorded run ((res, err), s) = (
    record_result describe res err (record run { page_ids = run.page_ids ++ (res.page_id ∷ []) }),
    s,
  )

  -- pages
  unfoldable pub pages : List Item → Run → S → Run × S
  pages [] run s = (run, s)
  pages (it ∷ items) run s =
      let (run1, s1) =
        recorded run (reconcile client render json markers opts it (parent_of run it.parent) s) in
      pages items run1 s1
