-- ===== src/Confluence/Run/DryRun.antt =====
-- A dry run: pkg/export/confluence/export.go with DryRun set.
use docz.Prelude.{
  Bool, true, false, ◌≡◌, ◌⊎◌, inl, inr, refl, ◌∙◌, Option, none, some, List, [], ◌∷◌,
  if◌then◌else◌, Bool-cases, is_empty,
}
use docz.Text.{Text}
use docz.Confluence.Client.{
  Kind, page_type, folder_type, ExportError, Answer, ok, failed, Page, Node, Folder, Target,
  page_target, Property, Client,
}
use docz.Confluence.Reconcile.{
  Item, Rendered, PageProperty, Anchor, Comments, updated, unchanged, skipped, PageResult, Options,
  Json, Markers, Outcome, Decision, decide, attempt, find_page, stored_property, create,
  carry_comments, update, update_carried, act, wanted, is_foreign, judged, reconcile_page, on_page,
  rendered_result, first_result, with_page, reconcile,
}
use docz.Confluence.Reconcile.Again.{decide_action}
use docz.Confluence.Run.{Plan, Run, new_run, parent_of, pages}
use docz.Confluence.Run.Folders.{
  FolderJson, find_folder, create_folder, folder_found, resolve_folder,
}
use docz.Confluence.Run.Orphans.{
  containers, is_kept_title, is_orphan, orphan, orphan_judged, orphan_read, orphan_of,
  orphans_among, orphans_read, orphans_in, orphans,
}
use docz.Confluence.Run.Export.{
  run_options, orphans_done, folder_done, with_space, space_read, export,
}

attempt-keeps :
    {S A : Type 0} (res : PageResult) (m : Answer A) (s : S) (k : A → S → Outcome S)
    → ((a : A) → (k a s).1 ≡ s)
    → (attempt res (m, s) k).1 ≡ s
unfolding attempt
attempt-keeps res (ok a) s k h = h a
attempt-keeps res (failed e) s k h = refl

state_of_if :
    {S A : Type 0} (b : Bool) (x y : A × S) (s : S) → x.1 ≡ s → y.1 ≡ s → (if b then x else y).1 ≡ s
state_of_if true x y s h k = h
state_of_if false x y s h k = k

module _ {S : Type 0} (client : Client S) (render : Item → Answer Rendered) (json : Json)
    (markers : Markers) (opts : Options) (dry : opts.dry_run ≡ true) where
  update_carried-dry :
      (it : Item) (r : Rendered) (page : Page) (prop : Option Property) (parent_id : Text)
      (res : PageResult) (body : Text) (comments : Comments) (anchors : List Anchor) (s : S)
      → (update_carried client render json markers opts it r page prop parent_id res
          (body, comments, anchors)
          s).1
        ≡ s
  update_carried-dry it r page prop parent_id res body comments anchors s = rw dry refl

  act-dry :
      (it : Item) (r : Rendered) (page : Page) (prop : Option Property) (stored : PageProperty)
      (parent_id : Text) (res : PageResult) (d : Decision) (s : S)
      → (d.action ≡ updated) ⊎ ((d.action ≡ unchanged) ⊎ (d.action ≡ skipped))
      → (act client render json markers opts it r page prop stored parent_id res d s).1 ≡ s
  unfolding update
  act-dry it r page prop stored parent_id res d s (inl a) = rw a (
      attempt-keeps _
        (carry_comments client render json markers opts page.id r.body stored.anchors s) s _
        (λ (body, comments, anchors).
          update_carried-dry it r page prop parent_id
            (record res { edited = d.edited; action = updated }) body comments anchors s))
  act-dry it r page prop stored parent_id res d s (inr (inl a)) = rw a refl
  act-dry it r page prop stored parent_id res d s (inr (inr a)) = rw a refl

  judged-dry :
      (it : Item) (r : Rendered) (page : Page) (parent_id : Text) (res : PageResult)
      (prop : Option Property) (stored : PageProperty) (s : S)
      → (judged client render json markers opts it r page parent_id res (prop, stored) s).1 ≡ s
  judged-dry it r page parent_id res prop stored s =
      elim (Bool-cases (is_foreign client render json markers opts prop stored)) [
        | inl e ↦ rw e refl
        | inr e ↦ rw e (
            act-dry it r page prop stored parent_id res
              (decide prop stored page (wanted client render json markers opts r parent_id) opts) s
              (decide_action opts prop stored page _))
      ]

  on_page-dry :
      (it : Item) (r : Rendered) (parent_id : Text) (res : PageResult) (o : Option Page) (s : S)
      → (on_page client render json markers opts it r parent_id res o s).1 ≡ s
  unfolding create reconcile_page
  on_page-dry it r parent_id res none s = rw dry refl
  on_page-dry it r parent_id res (some page) s =
      attempt-keeps (with_page res page)
        (stored_property client render json markers opts (page_target page.id) s) s _
        (λ (prop, stored). judged-dry it r page _ (with_page res page) prop stored s)

  reconcile-dry :
      (it : Item) (parent_id : Text) (s : S)
      → (reconcile client render json markers opts it parent_id s).1 ≡ s
  unfolding reconcile
  reconcile-dry it parent_id s = attempt-keeps (first_result it) (render it) s _ λ r.
      attempt-keeps (rendered_result it r)
        (find_page client render json markers opts it.key r.title s) s _
        (λ o. on_page-dry it r parent_id (rendered_result it r) o s)

  module _ (describe : ExportError → Text) (plan : Plan) where
    pages-dry :
        (items : List Item) (run : Run) (s : S)
        → (pages client render json markers describe opts items run s).1 ≡ s
    unfolding pages
    pages-dry [] run s = refl
    pages-dry (it ∷ items) run s =
        pages-dry items _ _ ∙ reconcile-dry it (parent_of run it.parent) s

    orphan_judged-dry :
        (child : Page) (prop : Option Property) (stored : PageProperty) (run : Run) (s : S)
        → (orphan_judged client render json markers describe opts plan child (prop, stored) run s).1
          ≡ s
    orphan_judged-dry child none stored run s = refl
    orphan_judged-dry child (some prop) stored run s =
        elim (Bool-cases (is_orphan plan opts.repository (some prop) stored)) [
          | inl e ↦ rw (e, dry) refl
          | inr e ↦ rw e refl
        ]

    orphan_read-dry :
        (child : Page) (x : Answer (Option Property × PageProperty)) (run : Run) (s : S)
        → (orphan_read client render json markers describe opts plan child x run s).1 ≡ s
    orphan_read-dry child (failed e) run s = refl
    orphan_read-dry child (ok (prop, stored)) run s = orphan_judged-dry child prop stored run s

    orphans_among-dry :
        (ns : List Node) (run : Run) (s : S)
        → (orphans_among client render json markers describe opts plan ns run s).1 ≡ s
    unfolding orphans_among orphan
    orphans_among-dry [] run s = refl
    orphans_among-dry (n ∷ ns) run s = orphans_among-dry ns _ _ ∙ one n.kind n.page
      where
        one :
            (kind : Kind) (page : Page)
            → (orphan_of client render json markers describe opts plan kind page run s).1 ≡ s
        one folder_type page = refl
        one page_type page = elim (Bool-cases (is_kept_title plan page.title)) [
          | inl e ↦ rw e refl
          | inr e ↦ rw e (
              orphan_read-dry page
                (stored_property client render json markers opts (page_target page.id) s) run s)
        ]

    orphans_in-dry :
        (ts : List Target) (run : Run) (s : S)
        → (orphans_in client render json markers describe opts plan ts run s).1 ≡ s
    unfolding orphans_in
    orphans_in-dry [] run s = refl
    orphans_in-dry (t ∷ ts) run s = orphans_in-dry ts _ _ ∙ read (client.children t s)
      where
        read :
            (x : Answer (List Node))
            → (orphans_read client render json markers describe opts plan t x run s).1 ≡ s
        read (failed e) = refl
        read (ok ns) = orphans_among-dry ns run s

    folder_found-dry :
        (json : FolderJson) (run : Run) (x : Answer (Option Folder)) (s : S)
        → (folder_found client json opts plan run x s).1 ≡ s
    unfolding create_folder
    folder_found-dry json run (failed e) s = refl
    folder_found-dry json run (ok none) s = rw dry refl
    folder_found-dry json run (ok (some f)) s = refl

module _ {S : Type 0} (client : Client S) (render : Item → Answer Rendered) (json : Json)
    (folder_json : FolderJson) (markers : Markers) (describe : ExportError → Text)
    (plan : Plan) where
  orphans_done-dry :
      (opts : Options) (x : Run × S) (s : S)
      → opts.dry_run ≡ true
      → x.1 ≡ s
      → (orphans_done client render json folder_json markers describe opts plan x).1 ≡ s
  unfolding orphans
  orphans_done-dry opts (run, t) s dry same =
      state_of_if plan.full _ _ s
        (orphans_in-dry client render json markers opts dry describe plan (containers plan run) run
            t
          ∙ same)
        same

  folder_done-dry :
      (opts : Options) (x : Answer Run × S) (s : S)
      → opts.dry_run ≡ true
      → x.1 ≡ s
      → (folder_done client render json folder_json markers describe opts plan x).1 ≡ s
  folder_done-dry opts (failed e, t) s dry same = same
  folder_done-dry opts (ok run, t) s dry same =
      orphans_done-dry opts _ s dry
        (pages-dry client render json markers opts dry describe plan plan.items run t ∙ same)

  with_space-dry :
      (opts : Options) (s : S)
      → opts.dry_run ≡ true
      → (with_space client render json folder_json markers describe opts plan s).1 ≡ s
  unfolding resolve_folder
  with_space-dry opts s dry = elim (Bool-cases (is_empty plan.folder)) [
    | inl e ↦ rw e (folder_done-dry opts (ok new_run, s) s dry refl)
    | inr e ↦ rw e (
        folder_done-dry opts _ s dry (
          folder_found-dry client render json markers opts dry describe plan folder_json new_run
            (find_folder client folder_json opts plan s) s))
  ]

  -- A dry run writes nothing: whatever the client answers, the plan holds and the other options
  -- are, an export with DryRun set ends in the state in which it began.
  pub export-dry_run :
      (opts : Options) (s : S)
      → opts.dry_run ≡ true
      → (export client render json folder_json markers describe opts plan s).1 ≡ s
  unfolding export run_options
  export-dry_run opts s dry = go (client.space_id plan.space s)
    where
      go :
          (x : Answer Text)
          → (space_read client render json folder_json markers describe opts plan x s).1 ≡ s
      go (failed e) = refl
      go (ok space) = with_space-dry (run_options opts plan space) s dry
