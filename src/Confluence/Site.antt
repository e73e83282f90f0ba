-- ===== src/Confluence/Site.antt =====
-- The in-memory site of pkg/export/confluence/confluencetest/site.go. The map of nodes is in the
-- order in which they were added. A method that only reads takes the site; one that writes gives a
-- new one. The mutex makes each method one step.
pub mod Titles
pub mod Valid
pub mod Reads
pub mod Stored
pub mod Store
pub mod Runs
pub mod Writes
use docz.Prelude.{
  ℕ, zero, suc, ◌+◌, ◌-◌, ◌*◌, ◌/◌, ◌%◌, ◌≤◌, ◌<◌, Bool, true, false, not, ◌&&◌, ◌||◌, ◌≡◌, ◌≢◌,
  ◌↔◌, ◌⊎◌, inl, inr, refl, sym, ap, ◌∙◌, subst, Option, none, some, List, [], ◌∷◌, ◌++◌,
  append-nil, append_assoc, map, String, arith, ltb, leb, ◌==◌, within, if◌then◌else◌, ltb→lt,
  lt→ltb, ==_iff, Bool-cases, Option-cases, ◌>>=◌, bind-eq_some, length, is_empty, take, drop,
  get_elem?, length-append, take-append-drop, All, All-append, All-append_left, All-append_right,
  All-weaken,
}
use docz.Prelude.Pairs.{
  AllPairs, AllPairs-append, AllPairs-unappend, AllPairs-reverse, AllPairs-weaken, All-reverse,
}
use docz.Text.{
  Text, codes, equal, cut_prefix, has_prefix, contains, contains_byte, is_space, is_blank,
  equal_iff, cut_prefix-append, cut_prefix-eq_some, contains_byte-append,
}
use docz.Text.Trim.{
  trim_left, trim_right, trim_space, trim_right-concat, trim_left_self, trim_space_self,
  trim_left-append, trim_right-cons, is_space_of_blank, trim_space-head,
}
use docz.Text.Lines.{
  split, join, lines_of, cons_head, newlines, newlines-append, split_of_lacks, split-ne-nil,
  length-lines_of, newlines_of_lacks,
}
use docz.Text.Decimal.{itoa}
use docz.Text.Dict.{Dict, lookup, insert}
use docz.Confluence.Client.{
  Kind, page_type, folder_type, ExportError, auth, request, title_taken, conflict, Answer, ok,
  failed, Page, Target, Node, Folder, NewFolder, NewPage, PageUpdate, Property, InlineComment,
  Client,
}

-- node; `current` is its status
pub record SiteNode : Type 0 where
  pub page : Page
  pub kind : Kind
  pub current : Bool
  pub body : Text
  pub props : Dict Property
  pub comments : List Text

pub record Site : Type 0 where
  pub url : Text
  pub spaces : Dict Text
  pub nodes : Dict SiteNode
  pub next_id : ℕ
  pub writes : List Text
  pub fail : Dict ℕ

abbrev pub same_kind : Kind → Kind → Bool
same_kind page_type page_type = true
same_kind folder_type folder_type = true
same_kind _ _ = false

-- New
unfoldable pub new_spaces : List Text → Dict Text
new_spaces [] = []
new_spaces (k ∷ ks) = insert k (codes "space-" ++ k) (new_spaces ks)

unfoldable pub new_site : List Text → Site
new_site keys = record {
  url = codes "https://example.atlassian.net";
  spaces = new_spaces keys;
  nodes = [];
  next_id = 0;
  writes = [];
  fail = [];
}

unfoldable pub home_id : Text → Text
home_id space = codes "home-" ++ space

abbrev pub failing_status : Text → Option ℕ → Option ExportError
failing_status op none = none
failing_status op (some status) =
    if status == 401 || status == 403 then some (auth op status) else some (request op status)

-- failing
unfoldable pub failing : Site → Text → Text → Option ExportError
failing s op title = failing_status op (lookup (op ++ (b' ' ∷ title)) s.fail)

-- holder, on the nodes
unfoldable pub holder : Dict SiteNode → Kind → Text → Text → Option SiteNode
holder [] kind space title = none
holder ((i, n) ∷ ns) kind space title =
    if same_kind n.kind kind && equal n.page.space_id space && equal n.page.title title
    then some n
    else holder ns kind space title

abbrev pub kind_name : Kind → Text
kind_name page_type = codes "page"
kind_name folder_type = codes "folder"

-- webUI
unfoldable pub web_ui : Kind → Text → Text → Text
web_ui kind space id =
    codes "/spaces/" ++ (space ++ (codes "/" ++ (kind_name kind ++ (codes "s/" ++ id))))

-- The id that add gives next.
unfoldable pub fresh_id : Site → Text
fresh_id s = itoa (100 + suc s.next_id)

-- The node that add makes.
unfoldable pub new_node : Site → Kind → Text → Text → Text → Text → SiteNode
new_node s kind space parent title body = record {
  page = record {
    id = fresh_id s;
    title = title;
    parent_id = parent;
    space_id = space;
    version = 1;
    web_url = s.url ++ (codes "/wiki" ++ web_ui kind space (fresh_id s));
  };
  kind = kind;
  current = true;
  body = body;
  props = [];
  comments = [];
}

abbrev pub or_home : Text → Text → Text
or_home parent space = if is_empty parent then home_id space else parent

-- SpaceID
unfoldable pub space_id : Text → Site → Answer Text
space_id key s = elim (lookup key s.spaces) [
  | none ↦ failed (request (codes "get space") 404)
  | some id ↦ ok id
]

abbrev pub current_page : Option SiteNode → Option Page
current_page none = none
current_page (some n) = if n.current then some n.page else none

-- FindPage
unfoldable pub find_page : Text → Text → Site → Answer (Option Page)
find_page space title s = ok (current_page (holder s.nodes page_type space title))

abbrev pub of_kind : Kind → Option SiteNode → Option SiteNode
of_kind kind none = none
of_kind kind (some n) = if same_kind n.kind kind then some n else none

-- Page
unfoldable pub page_by_id : Text → Site → Answer (Option Page)
page_by_id id s = ok (current_page (of_kind page_type (lookup id s.nodes)))

-- Body
unfoldable pub body_of : Text → Site → Answer (Option Text)
body_of id s =
    ok (elim (of_kind page_type (lookup id s.nodes)) [ none ↦ none | some n ↦ some n.body ])

abbrev pub as_folder : SiteNode → Folder
as_folder n = record {
  id = n.page.id;
  title = n.page.title;
  parent_id = n.page.parent_id;
  space_id = n.page.space_id;
  web_url = n.page.web_url;
}

-- Folder
unfoldable pub folder_by_id : Text → Site → Answer (Option Folder)
folder_by_id id s =
    ok
      (elim (of_kind folder_type (lookup id s.nodes)) [ none ↦ none | some n ↦ some (as_folder n) ])

-- The site with one more node, or with a node changed.
abbrev pub with_node : Site → Text → SiteNode → ℕ → Text → Site
with_node s id n next write = record s {
  nodes = insert id n s.nodes;
  next_id = next;
  writes = s.writes ++ (write ∷ []);
}
