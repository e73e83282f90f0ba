-- ===== src/Confluence/Outcome.antt =====
-- The result of an item beside the error, which is `none` for nil, and how the functions of
-- pkg/export/confluence/reconcile.go return early.
use docz.Prelude.{Option, none, some, []}
use docz.Text.{Text}
use docz.Confluence.Client.{ExportError, Answer, ok, failed, Page}
use docz.Confluence.Pages.{
  Item, Rendered, PageProperty, no_property, PageResult, none_yet, no_comments,
}

-- A result, with the error beside it, and the state behind it.
abbrev pub Outcome : Type 0 → Type 0
Outcome S = (PageResult × Option ExportError) × S

abbrev pub done : {S : Type 0} → PageResult → S → Outcome S
done res s = ((res, none), s)

-- `if err != nil { return res, err }`
unfoldable pub attempt :
    {S A : Type 0} → PageResult → Answer A × S → (A → S → Outcome S) → Outcome S
attempt res (ok a, s) k = k a s
attempt res (failed e, s) k = ((res, some e), s)

-- The result of the last call, whose value is not read.
unfoldable pub concluded : {S : Type 0} → PageResult → Answer (Unit {0}) × S → Outcome S
concluded res (ok _, s) = ((res, none), s)
concluded res (failed e, s) = ((res, some e), s)

abbrev pub first_result : Item → PageResult
first_result it = record {
  id = it.doc_id;
  key = it.key;
  title = it.title;
  source = it.source;
  action = none_yet;
  page_id = [];
  url = [];
  version = 0;
  hash = [];
  edited = none;
  comments = no_comments;
  reason = [];
  links = [];
  body = [];
}

abbrev pub rendered_result : Item → Rendered → PageResult
rendered_result it r = record (first_result it) {
  title = r.title;
  links = r.links;
  body = r.body;
  hash = r.hash;
}

abbrev pub with_page : PageResult → Page → PageResult
with_page res page = record res { page_id = page.id; url = page.web_url; version = page.version }

abbrev pub or_empty : Option Text → Text
or_empty none = []
or_empty (some t) = t

abbrev pub or_unread : Option PageProperty → PageProperty
or_unread none = no_property
or_unread (some p) = p
