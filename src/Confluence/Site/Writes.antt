-- ===== src/Confluence/Site/Writes.antt =====
-- The methods of pkg/export/confluence/confluencetest/site.go that write, and the site as a client.
use docz.Prelude.{
  ℕ, suc, ◌+◌, ◌-◌, Bool, true, false, not, ◌&&◌, ◌||◌, Option, none, some, List, [], ◌∷◌, ◌++◌,
  map, ◌==◌, if◌then◌else◌, is_empty,
}
use docz.Text.{Text, codes, equal}
use docz.Text.Decimal.{itoa}
use docz.Text.Dict.{Dict, lookup, insert}
use docz.Confluence.Client.{
  page_type, folder_type, ExportError, request, title_taken, conflict, Answer, ok, failed, Page,
  Target, Node, Folder, NewFolder, NewPage, PageUpdate, Property, InlineComment, Client,
}
use docz.Confluence.Site.{
  SiteNode, Site, home_id, failing, holder, fresh_id, new_node, or_home, space_id, find_page,
  page_by_id, body_of, of_kind, as_folder, folder_by_id, with_node,
}

-- `if err := s.failing(...); err != nil { return nil, err }`
abbrev pub or_fail : {A : Type 0} → Option ExportError → Site → Answer A × Site → Answer A × Site
or_fail none s k = k
or_fail (some e) s k = (failed e, s)

abbrev pub archived_id : SiteNode → Text
archived_id n = if n.current then [] else n.page.id

-- The site with the page that add makes.
unfoldable pub page_added : NewPage → Site → Site
page_added p s =
    with_node s (fresh_id s)
      (new_node s page_type p.space_id (or_home p.parent_id p.space_id) p.title p.body)
      (suc s.next_id) (codes "create " ++ p.title)

abbrev pub create_where : NewPage → Site → Option SiteNode → Answer Page × Site
create_where p s (some h) = (failed (title_taken p.title (archived_id h)), s)
create_where p s none = (
  ok (new_node s page_type p.space_id (or_home p.parent_id p.space_id) p.title p.body).page,
  page_added p s,
)

-- CreatePage
unfoldable pub create_page : NewPage → Site → Answer Page × Site
create_page p s =
    or_fail (failing s (codes "create") p.title) s
      (create_where p s (holder s.nodes page_type p.space_id p.title))

-- The folder that CreateFolder adds; its Version is 0.
unfoldable pub new_folder_node : NewFolder → Site → SiteNode
new_folder_node f s =
    let n = new_node s folder_type f.space_id (or_home f.parent_id f.space_id) f.title [] in
    record n { page = record n.page { version = 0 } }

abbrev pub create_folder_where : NewFolder → Site → Option SiteNode → Answer Folder × Site
create_folder_where f s (some h) = (failed (title_taken f.title []), s)
create_folder_where f s none = (
  ok (as_folder (new_folder_node f s)),
  with_node s (fresh_id s) (new_folder_node f s) (suc s.next_id)
      (codes "create folder " ++ f.title),
)

-- CreateFolder
unfoldable pub create_folder : NewFolder → Site → Answer Folder × Site
create_folder f s =
    or_fail (failing s (codes "create") f.title) s
      (create_folder_where f s (holder s.nodes folder_type f.space_id f.title))

-- The version that an update asks for.
unfoldable pub wanted_version : PageUpdate → Page → ℕ
wanted_version p old = elim p.body [
  | none ↦ if p.version == 0 then old.version + 1 else p.version
  | some _ ↦ p.version
]

-- Another page of the space has the title that an update gives.
unfoldable pub title_clash : Dict SiteNode → PageUpdate → Page → Bool
title_clash nodes p old =
    not (is_empty p.title)
    && not (equal p.title old.title)
    && elim (holder nodes page_type old.space_id p.title) [ none ↦ false | some _ ↦ true ]

abbrev pub or_old : Text → Text → Text
or_old new old = if is_empty new then old else new

unfoldable pub updated_node : PageUpdate → SiteNode → SiteNode
updated_node p n = record n {
  page = record n.page {
    version = wanted_version p n.page;
    parent_id = or_old p.parent_id n.page.parent_id;
    title = or_old p.title n.page.title;
  };
  current = true;
  body = elim p.body [ none ↦ n.body | some b ↦ b ];
}

abbrev pub update_write : Page → Text
update_write p = codes "update " ++ (p.title ++ (codes " v" ++ itoa p.version))

abbrev pub update_checked : Text → PageUpdate → SiteNode → Site → Answer Page × Site
update_checked id p n s =
    if not (wanted_version p n.page == n.page.version + 1)
    then (failed (conflict n.page.title (wanted_version p n.page - 1)), s)
    else if title_clash s.nodes p n.page
    then (failed (request (codes "update page") 400), s)
    else (
      ok (updated_node p n).page,
      with_node s id (updated_node p n) s.next_id (update_write (updated_node p n).page),
    )

abbrev pub update_where : Text → PageUpdate → Site → Option SiteNode → Answer Page × Site
update_where id p s none = (failed (request (codes "update page") 404), s)
update_where id p s (some n) =
    or_fail (failing s (codes "update") n.page.title) s (update_checked id p n s)

-- UpdatePage
unfoldable pub update_page : Text → PageUpdate → Site → Answer Page × Site
update_page id p s = update_where id p s (of_kind page_type (lookup id s.nodes))

abbrev pub property_where : Text → Option SiteNode → Answer (Option Property)
property_where key none = failed (request (codes "get property") 404)
property_where key (some n) = ok (lookup key n.props)

-- Property
unfoldable pub property : Target → Text → Site → Answer (Option Property)
property t key s = property_where key (of_kind t.kind (lookup t.id s.nodes))

-- The tests on the property that is there.
unfoldable pub stale : Property → Option Property → Bool
stale p none = not (is_empty p.id)
stale p (some cur) = is_empty p.id || not (equal cur.id p.id) || not (cur.version == p.version)

abbrev pub with_property : Property → SiteNode → SiteNode
with_property p n = record n {
  props =
      insert p.key
        (record {
          id = codes "prop-" ++ n.page.id;
          key = p.key;
          value = p.value;
          version = p.version + 1;
        })
        n.props;
}

abbrev pub property_set : Target → Property → SiteNode → Site → Site
property_set t p n s =
    with_node s t.id (with_property p n) s.next_id (codes "property " ++ n.page.title)

abbrev pub set_checked : Target → Property → SiteNode → Site → Answer (Unit {0}) × Site
set_checked t p n s =
    if stale p (lookup p.key n.props)
    then (failed (conflict [] 0), s)
    else (ok tt, property_set t p n s)

abbrev pub set_where : Target → Property → Site → Option SiteNode → Answer (Unit {0}) × Site
set_where t p s none = (failed (request (codes "set property") 404), s)
set_where t p s (some n) =
    or_fail (failing s (codes "property") n.page.title) s (set_checked t p n s)

-- SetProperty
unfoldable pub set_property : Target → Property → Site → Answer (Unit {0}) × Site
set_property t p s = set_where t p s (of_kind t.kind (lookup t.id s.nodes))

-- The loop of Children; the ids of the nodes ascend.
unfoldable pub children_of : Text → Dict SiteNode → List Node
children_of parent [] = []
children_of parent ((i, n) ∷ ns) =
    let later = children_of parent ns in
    if equal n.page.parent_id parent && n.current
    then record { page = record n.page { version = 0 }; kind = n.kind } ∷ later
    else later

-- Children
unfoldable pub children : Target → Site → Answer (List Node)
children parent s = ok (children_of parent.id s.nodes)

abbrev pub as_comment : Text → InlineComment
as_comment ref = record { id = codes "comment-" ++ ref; ref = ref }

-- InlineComments
unfoldable pub inline_comments : Text → Site → Answer (List InlineComment)
inline_comments id s = ok (elim (of_kind page_type (lookup id s.nodes)) [
  | none ↦ []
  | some n ↦ map as_comment n.comments
])

-- The site as a client.
abbrev pub site_client : Client Site
site_client = record {
  space_id = space_id;
  space_home = λ space s. ok (home_id space);
  find_page = find_page;
  page_by_id = page_by_id;
  body = body_of;
  create_page = create_page;
  update_page = update_page;
  folder_by_id = folder_by_id;
  create_folder = create_folder;
  property = property;
  set_property = set_property;
  children = children;
  inline_comments = some inline_comments;
}
