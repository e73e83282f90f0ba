-- ===== src/Confluence/Run/Orphans.antt =====
-- Pages whose documents are gone: pkg/export/confluence/orphans.go.
use docz.Prelude.{
  Bool, true, false, not, ◌&&◌, ◌||◌, Option, none, some, List, [], ◌∷◌, ◌++◌, if◌then◌else◌,
  is_empty, drop,
}
use docz.Text.{Text, codes, equal, has_prefix}
use docz.Config.Paths.{among}
use docz.Confluence.Client.{
  Kind, page_type, folder_type, ExportError, Answer, ok, failed, Page, Node, Target, page_target,
  folder_target, Property, Client,
}
use docz.Confluence.Reconcile.{
  Item, Rendered, PageProperty, archived, none_yet, no_comments, PageResult, Options, Json, Markers,
  property_key, parent_key, owned, valid, stored_property,
}
use docz.Confluence.Run.{Plan, Run, record_result, page_id_at}

abbrev pub type_key_prefix : Text
type_key_prefix = codes "docz:type:"

abbrev pub archive_body : Text
archive_body =
    codes "<p>Pages docz exported whose documents no longer exist. Nothing here is deleted.</p>"

-- The result of a page whose children or property cannot be read.
abbrev pub bare_result : Text → Text → PageResult
bare_result title page_id = record {
  id = [];
  key = [];
  title = title;
  source = [];
  action = none_yet;
  page_id = page_id;
  url = [];
  version = 0;
  hash = [];
  edited = none;
  comments = no_comments;
  reason = [];
  links = [];
  body = [];
}

abbrev pub orphan_result : PageProperty → Page → PageResult
orphan_result stored child = record (bare_result child.title child.id) {
  id = stored.id;
  key = stored.id;
  source = stored.source;
  action = archived;
}

abbrev pub moved_result : PageResult → Option Page → PageResult
moved_result res none = res
moved_result res (some page) = record res { url = page.web_url; version = page.version }

-- An item whose page may hold orphans, its page's id being known.
unfoldable pub is_container : Bool → Item → Text → Bool
is_container no_folder it id =
    not (is_empty id)
    && (has_prefix it.key type_key_prefix || (equal it.key parent_key && no_folder))

unfoldable pub page_containers : Bool → List Item → List Text → List Target
page_containers no_folder [] ids = []
page_containers no_folder (it ∷ items) ids =
    let later = page_containers no_folder items (drop 1 ids) in
    if is_container no_folder it (page_id_at ids 0)
    then page_target (page_id_at ids 0) ∷ later
    else later

-- containers
unfoldable pub containers : Plan → Run → List Target
containers plan run =
    let of_pages = page_containers (is_empty plan.folder) plan.items run.page_ids in
    if is_empty run.folder_id then of_pages else folder_target run.folder_id ∷ of_pages

-- A page that this run writes, or Archive itself.
unfoldable pub is_kept_title : Plan → Text → Bool
is_kept_title plan title = equal title plan.archive || among title plan.titles

-- What a child's property says: the page is this repository's and no longer exported.
unfoldable pub is_orphan : Plan → Text → Option Property → PageProperty → Bool
is_orphan plan repo prop stored =
    elim prop [ none ↦ false | some _ ↦ true ]
    && valid stored
    && owned stored repo
    && not (among stored.id plan.keys)

module _ {S : Type 0} (client : Client S) (render : Item → Answer Rendered) (json : Json)
    (markers : Markers) (describe : ExportError → Text) (opts : Options) (plan : Plan) where
  abbrev pub archive_created : Run → Answer Page × S → Answer Text × Run × S
  archive_created run (failed e, s) = (failed e, run, s)
  archive_created run (ok page, s) = (ok page.id, record run { archive_id = page.id }, s)

  abbrev pub archive_found : Run → Answer (Option Page) → S → Answer Text × Run × S
  archive_found run (failed e) s = (failed e, run, s)
  archive_found run (ok (some page)) s = (ok page.id, record run { archive_id = page.id }, s)
  archive_found run (ok none) s = archive_created run (
      client.create_page
        (record {
          space_id = opts.space_id;
          parent_id = if is_empty run.folder_id then page_id_at run.page_ids 0 else run.folder_id;
          title = plan.archive;
          body = archive_body;
        })
        s)

  -- archivePage
  unfoldable pub archive_page : Run → S → Answer Text × Run × S
  archive_page run s =
      if is_empty run.archive_id
      then archive_found run (client.find_page opts.space_id plan.archive s) s
      else (ok run.archive_id, run, s)

  -- The page that moved, if it did, beside the error.
  abbrev pub Moved : Type 0
  Moved = (Option Page × Option ExportError) × Run × S

  abbrev pub property_moved : Page → Run → Answer (Unit {0}) × S → Moved
  property_moved page run (ok _, s) = ((some page, none), run, s)
  property_moved page run (failed e, s) = ((some page, some e), run, s)

  abbrev pub page_moved : Page → Property → PageProperty → Run → Answer Page × S → Moved
  page_moved child prop stored run (failed e, s) = ((none, some e), run, s)
  page_moved child prop stored run (ok moved, s) = property_moved moved run (
      client.set_property (page_target child.id)
        (record {
          id = prop.id;
          key = property_key;
          value = json.marshal (record stored { version = moved.version });
          version = prop.version;
        })
        s)

  abbrev pub moved_under : Page → Property → PageProperty → Answer Text × Run × S → Moved
  moved_under child prop stored (failed e, run, s) = ((none, some e), run, s)
  moved_under child prop stored (ok archive_id, run, s) = page_moved child prop stored run (
      client.update_page child.id
        (record {
          title = child.title;
          parent_id = archive_id;
          body = none;
          version = 0;
          message = codes "docz sync: archived, " ++ (stored.id ++ codes " is no longer exported");
        })
        s)

  -- archive
  unfoldable pub archive : Page → Property → PageProperty → Run → S → Moved
  archive child prop stored run s = moved_under child prop stored (archive_page run s)

  abbrev pub recorded_move : PageResult → Moved → Run × S
  recorded_move res ((page, err), run, s) =
      (record_result describe (moved_result res page) err run, s)

  abbrev pub orphan_judged : Page → Option Property × PageProperty → Run → S → Run × S
  orphan_judged child (none, stored) run s = (run, s)
  orphan_judged child (some prop, stored) run s =
      if not (is_orphan plan opts.repository (some prop) stored)
      then (run, s)
      else if opts.dry_run
      then (record_result describe (orphan_result stored child) none run, s)
      else recorded_move (orphan_result stored child) (archive child prop stored run s)

  abbrev pub orphan_read : Page → Answer (Option Property × PageProperty) → Run → S → Run × S
  orphan_read child (failed e) run s =
      (record_result describe (bare_result child.title child.id) (some e) run, s)
  orphan_read child (ok read) run s = orphan_judged child read run s

  -- orphan
  unfoldable pub orphan : Page → Run → S → Run × S
  orphan child run s =
      if is_kept_title plan child.title
      then (run, s)
      else orphan_read child
          (stored_property client render json markers opts (page_target child.id) s) run s

  abbrev pub orphan_of : Kind → Page → Run → S → Run × S
  orphan_of page_type page run s = orphan page run s
  orphan_of folder_type page run s = (run, s)

  unfoldable pub orphans_among : List Node → Run → S → Run × S
  orphans_among [] run s = (run, s)
  orphans_among (n ∷ ns) run s =
      let (run1, s1) = orphan_of n.kind n.page run s in orphans_among ns run1 s1

  abbrev pub orphans_read : Target → Answer (List Node) → Run → S → Run × S
  orphans_read t (failed e) run s =
      (record_result describe (bare_result (codes "children of " ++ t.id) []) (some e) run, s)
  orphans_read t (ok ns) run s = orphans_among ns run s

  unfoldable pub orphans_in : List Target → Run → S → Run × S
  orphans_in [] run s = (run, s)
  orphans_in (t ∷ ts) run s =
      let (run1, s1) = orphans_read t (client.children t s) run s in orphans_in ts run1 s1

  -- orphans
  unfoldable pub orphans : Run → S → Run × S
  orphans run s = orphans_in (containers plan run) run s
