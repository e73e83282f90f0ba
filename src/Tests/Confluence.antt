-- ===== src/Tests/Confluence.antt =====
-- Runs of the export of pkg/export/confluence on the in-memory site, and the witnesses of its
-- theorems.
use docz.Prelude.{
  true, false, ◌≡◌, ◌≢◌, ◌⊎◌, ◌↔◌, inl, inr, refl, Option, none, some, List, [], ◌∷◌, ◌++◌, map,
}
use docz.Text.{Text, codes, equal}
use docz.Confluence.Client.{
  ExportError, Answer, ok, Page, page_target, Property, NewPage, NewFolder, PageUpdate,
}
use docz.Confluence.Site
use docz.Confluence.Site.{new_site}
use docz.Confluence.Site.Writes.{
  site_client, create_page, update_page, set_property, page_added, stale, wanted_version,
  title_clash, updated_node, property,
}
use docz.Confluence.Site.Valid.{IsSite}
use docz.Confluence.Laws.{IsCreated, IsUpdated, IsStored}
use docz.Confluence.Site.Stored.{create_page-IsCreated}
use docz.Confluence.Site.Store.{site_client-IsStore, update_page-IsUpdated, set_property-IsStored}
use docz.Confluence.Site.Runs.{
  Write, page_write, folder_write, page_update, property_write, run_all, runs-IsSite,
}
use docz.Confluence.Reconcile
use docz.Confluence.Reconcile.{
  Item, Rendered, PageProperty, Action, created, updated, unchanged, skipped, PageResult, Options,
  Want, Json, Markers, decide, is_same, is_some, edit_of, reconcile, stored_property, property_key,
  no_property,
}
use docz.Confluence.Reconcile.Again.{reconcile-again}
use docz.Confluence.Reconcile.Protects.{reconcile-Protected}
use docz.Confluence.Reconcile.Rule.{IsOurs, AsWanted, decide-rule}
use docz.Confluence.Run.{Plan, Run, new_run, pages}
use docz.Confluence.Run.Folders.{FolderJson}
use docz.Confluence.Run.Export.{Failure, export}
use docz.Confluence.Run.Errors.{pages-keys}
use docz.Confluence.Run.Failures.{IsReported, export-IsReported}
use docz.Confluence.Run.DryRun.{export-dry_run}
use docz.Text.Dict.{lookup, insert}
use docz.Text.Decimal.{itoa, digits}
use docz.Tests.Json.{plain_json, plain_json-ReadsBack}

abbrev space : Text
space = codes "space-DOCZ"

abbrev home : Text
home = codes "home-space-DOCZ"

abbrev empty_site : Site.Site
empty_site = new_site (codes "DOCZ" ∷ [])

abbrev plain_render : Item → Answer Rendered
plain_render it =
    ok (record {
      title = it.title;
      body = it.src;
      hash = codes "sha256:0123456789abcdef";
      links = [];
    })

abbrev no_markers : Markers
no_markers = record {
  collect = λ body. [];
  carry = λ body anchors. (body, [], anchors);
  well_formed = λ body. true;
}

abbrev plain_options : Options
plain_options = record {
  force = false;
  overwrite = false;
  dry_run = false;
  repository = codes "donaldgifford/docz";
  version = codes "v2";
  pages = [];
  space_id = space;
  folder = codes "docz";
  folder_id = [];
}

abbrev forced_options : Options
forced_options = record plain_options { force = true }

abbrev rfc : Item
rfc = record {
  key = codes "RFC-0001";
  doc_id = codes "RFC-0001";
  title = codes "docz: RFC";
  source = codes "docs/rfc/0001.md";
  src = codes "<p>x</p>";
  override = [];
  parent = none;
}

abbrev rfc_rendered : Rendered
rfc_rendered = record {
  title = codes "docz: RFC";
  body = codes "<p>x</p>";
  hash = codes "sha256:0123456789abcdef";
  links = [];
}

abbrev first_run : Reconcile.Outcome Site.Site
first_run =
    reconcile site_client plain_render plain_json no_markers plain_options rfc home empty_site

first_run-created : first_run.0.0.action ≡ created
unfolding reconcile Reconcile.attempt Reconcile.find_page lookup Site.find_page Site.holder new_site
    Reconcile.create create_page Site.failing Reconcile.concluded Reconcile.write_property
    set_property page_added insert equal Site.fresh_id Reconcile.property_of stale Site.home_id
    Site.new_node Site.new_spaces Site.web_ui digits itoa
first_run-created = refl

created-ne-skipped : created ≢ skipped
created-ne-skipped h = cc

reconcile-again_example :
    (res2 : PageResult) × (res2.action ≡ unchanged)
    × (reconcile site_client plain_render plain_json no_markers plain_options rfc home first_run.1
        ≡ ((res2, none), first_run.1))
unfolding reconcile Reconcile.attempt Reconcile.find_page lookup Site.find_page Site.holder new_site
    Reconcile.create create_page Site.failing Reconcile.concluded Reconcile.write_property
    set_property page_added insert equal Site.fresh_id Reconcile.property_of stale Site.home_id
    Site.new_node Site.new_spaces Site.web_ui digits itoa
reconcile-again_example =
    reconcile-again site_client plain_render plain_json no_markers plain_options IsSite
      site_client-IsStore rfc rfc_rendered home empty_site first_run.0.0 first_run.1
      plain_json-ReadsBack (runs-IsSite (codes "DOCZ" ∷ []) []) refl refl (inr refl) refl refl refl
      created-ne-skipped

abbrev rfc_page : NewPage
rfc_page = record {
  space_id = space;
  parent_id = home;
  title = codes "docz: RFC";
  body = codes "<p>x</p>";
}

abbrev page_made : Answer Page × Site.Site
page_made = create_page rfc_page empty_site

abbrev made_page : Page
made_page = record {
  id = codes "101";
  title = codes "docz: RFC";
  parent_id = home;
  space_id = space;
  version = 1;
  web_url = codes "https://example.atlassian.net/wiki/spaces/space-DOCZ/pages/101";
}

create_page-IsCreated_example :
    IsCreated site_client IsSite rfc_page empty_site made_page page_made.1
unfolding create_page update_page set_property page_added new_site Site.new_spaces Site.failing
    Site.holder Site.fresh_id Site.new_node Site.home_id Site.web_ui Site.page_by_id lookup insert
    equal stale digits itoa
create_page-IsCreated_example =
    create_page-IsCreated rfc_page empty_site made_page page_made.1
      (runs-IsSite (codes "DOCZ" ∷ []) []) refl

abbrev second_version : PageUpdate
second_version = record {
  title = codes "docz: RFC 1";
  parent_id = [];
  body = some (codes "<p>y</p>");
  version = 2;
  message = [];
}

abbrev page_updated : Answer Page × Site.Site
page_updated = update_page (codes "101") second_version page_made.1

abbrev updated_page : Page
updated_page = record made_page { title = codes "docz: RFC 1"; version = 2 }

update_page-IsUpdated_example :
    IsUpdated site_client IsSite second_version made_page page_made.1 updated_page page_updated.1
unfolding create_page update_page set_property page_added new_site Site.new_spaces Site.failing
    Site.holder Site.fresh_id Site.new_node Site.home_id Site.web_ui Site.page_by_id lookup insert
    equal stale wanted_version title_clash updated_node digits itoa
update_page-IsUpdated_example =
    update_page-IsUpdated second_version (codes "<p>y</p>") made_page page_made.1 updated_page
      page_updated.1 (runs-IsSite (codes "DOCZ" ∷ []) (page_write rfc_page ∷ [])) refl refl refl
      refl

abbrev note : Property
note = record { id = []; key = property_key; value = codes "{}"; version = 0 }

abbrev note_set : Answer (Unit {0}) × Site.Site
note_set = set_property (page_target (codes "101")) note page_made.1

set_property-IsStored_example :
    IsStored site_client IsSite (page_target (codes "101")) note page_made.1 note_set.1
unfolding create_page update_page set_property page_added new_site Site.new_spaces Site.failing
    Site.holder Site.fresh_id Site.new_node Site.home_id Site.web_ui Site.page_by_id lookup insert
    equal stale digits itoa
set_property-IsStored_example =
    set_property-IsStored (codes "101") made_page note page_made.1 note_set.1
      (runs-IsSite (codes "DOCZ" ∷ []) (page_write rfc_page ∷ [])) refl refl

abbrev folder_request : NewFolder
folder_request = record { space_id = space; parent_id = []; title = codes "docz" }

abbrev writes : List Write
writes =
    page_write rfc_page
    ∷ page_write rfc_page
    ∷ folder_write folder_request
    ∷ page_update (codes "101") second_version
    ∷ property_write (page_target (codes "101")) note
    ∷ []

runs-IsSite_example : IsSite (run_all writes (new_site (codes "DOCZ" ∷ [])))
runs-IsSite_example = runs-IsSite (codes "DOCZ" ∷ []) writes

abbrev as_wanted : Want
as_wanted = record { hash = codes "h"; parent_id = home; title = codes "docz: RFC" }

abbrev written_property : PageProperty
written_property = record no_property { id = codes "RFC-0001"; hash = codes "h"; version = 1 }

-- A page edited since docz wrote it, without Force or Overwrite.
decide-rule_example :
    let page : Page = record made_page { version = 2 } in
    let d = decide (some note) written_property page as_wanted plain_options in
    ((d.action ≡ unchanged) ↔ (
      IsOurs (some note) written_property
      × (written_property.version ≡ page.version)
      × AsWanted written_property page as_wanted))
    × ((d.action ≡ skipped) ↔ (
        (plain_options.force ≡ false)
        × ((¬ (IsOurs (some note) written_property))
            ⊎ ((written_property.version ≢ page.version) × (plain_options.overwrite ≡ false)))))
    × ((d.action ≡ unchanged) ⊎ ((d.action ≡ skipped) ⊎ (d.action ≡ updated)))
    × ((d.edited ≢ none)
        ↔ (IsOurs (some note) written_property × (written_property.version ≢ page.version)))
decide-rule_example =
    decide-rule (some note) written_property (record made_page { version = 2 }) as_wanted
      plain_options

-- A page that was made by hand.
reconcile-Protected_example :
    let o =
      reconcile site_client plain_render plain_json no_markers plain_options rfc home page_made.1 in
    (o.1 ≡ page_made.1) × (o.0.1 ≡ none) × (o.0.0.action ≡ skipped)
unfolding create_page page_added new_site Site.new_spaces Site.failing Site.holder Site.fresh_id
    Site.new_node Site.home_id Site.web_ui Site.find_page Reconcile.find_page stored_property
    property lookup insert equal digits itoa
reconcile-Protected_example =
    reconcile-Protected site_client plain_render plain_json no_markers plain_options rfc home
      rfc_rendered made_page none no_property page_made.1 refl refl refl (inr (refl, inl refl))

abbrev home_item : Item
home_item = record rfc { key = codes "docz:parent"; doc_id = []; title = codes "docz"; source = [] }

abbrev type_item : Item
type_item = record rfc {
  key = codes "docz:type:rfc";
  doc_id = [];
  title = codes "docz: RFCs";
  source = codes "docs/rfc/README.md";
}

abbrev items : List Item
items = home_item ∷ type_item ∷ record rfc { parent = some 1 } ∷ []

abbrev plan : Plan
plan = record {
  items = items;
  full = true;
  keys = map (λ (i : Item). i.key) items;
  titles = map (λ (i : Item). i.title) items;
  folder = codes "docz";
  archive = codes "docz: Archive";
  parent_title = [];
  space = codes "DOCZ";
}

abbrev plain_folder_json : FolderJson
plain_folder_json = record {
  marshal = λ p. p.repo;
  unmarshal = λ t. some (record { repo = t; docz = [] });
}

abbrev describe : ExportError → Text
describe e = codes "failed"

pages-keys_example :
    map
      (λ (r : PageResult). r.key)
      (pages site_client plain_render plain_json no_markers describe plain_options items new_run
        empty_site).0.pages
    ≡ map (λ (r : PageResult). r.key) [] ++ map (λ (i : Item). i.key) items
pages-keys_example =
    pages-keys site_client plain_render plain_json no_markers describe plain_options items new_run
      empty_site

export-IsReported_example :
    let ((run, failure), s) =
      export site_client plain_render plain_json plain_folder_json no_markers describe plain_options
        plan empty_site in
    IsReported run.pages failure
export-IsReported_example =
    export-IsReported site_client plain_render plain_json plain_folder_json no_markers describe plan
      plain_options empty_site

export-dry_run_example :
    (export site_client plain_render plain_json plain_folder_json no_markers describe
      (record plain_options { dry_run = true })
      plan
      empty_site).1
    ≡ empty_site
export-dry_run_example =
    export-dry_run site_client plain_render plain_json plain_folder_json no_markers describe plan
      (record plain_options { dry_run = true }) empty_site refl

abbrev exported : (Run × Option Failure) × Site.Site
exported =
    export site_client plain_render plain_json plain_folder_json no_markers describe plain_options
      plan empty_site
