-- ===== src/Confluence/Reconcile.antt =====
-- One item against its page: pkg/export/confluence/reconcile.go. A PageResult comes back beside the
-- error, which is `none` for nil. Parameters: the client, the renderer, encoding/json on a
-- pageProperty, and the comment markers in a body (comments.go, wellformed.go).
pub mod Settles
pub mod Found
pub mod Converges
pub mod Again
pub mod Protects
pub mod Rule
use docz.Prelude.{
  if◌then◌else◌, ℕ, ◌+◌, ◌-◌, Bool, not, ◌&&◌, Option, none, some, List, [], ◌∷◌, ◌++◌, length,
  is_empty,
}
use docz.Text.{Text, codes, equal}
use docz.Text.Dict.{lookup}
use docz.Confluence.Client.{
  ill_formed, Answer, ok, failed, ◌>>=◌, Page, Target, page_target, Property, Client,
}
pub use docz.Confluence.Pages.{
  Item, Rendered, Anchor, PageProperty, no_property, Action, Edit, Comments, no_comments,
  PageResult, Options, property_key, parent_key, Json, Markers, none_yet, created, updated,
  unchanged, skipped, archived, broken,
}
pub use docz.Confluence.Decide.{Want, Decision, decided, edited_reason, is_some, texts}
unfoldable pub use docz.Confluence.Decide.{
  owned, valid, edit_of, is_same, decide_cases, decide, has_ref, missing, is_listed, still_listed,
  sync_message,
}
pub use docz.Confluence.Outcome.{
  Outcome, done, first_result, rendered_result, with_page, or_empty, or_unread,
}
unfoldable pub use docz.Confluence.Outcome.{attempt, concluded}

module _ {S : Type 0} (client : Client S) (render : Item → Answer Rendered) (json : Json)
    (markers : Markers) (opts : Options) where
  -- The page with a remembered id, when it lies in the space.
  abbrev in_space : Option Page → Option Page
  in_space none = none
  in_space (some page) = if equal page.space_id opts.space_id then some page else none

  abbrev or_by_title : Text → Option Page → S → Answer (Option Page)
  or_by_title title (some page) s = ok (some page)
  or_by_title title none s = client.find_page opts.space_id title s

  -- findPage
  unfoldable pub find_page : Text → Text → S → Answer (Option Page)
  find_page key title s =
      let id = or_empty (lookup key opts.pages) in
      if is_empty id
      then client.find_page opts.space_id title s
      else do page ← client.page_by_id id s; or_by_title title (in_space page) s

  abbrev read_property : Option Property → Option Property × PageProperty
  read_property none = (none, no_property)
  read_property (some p) = (some p, or_unread (json.unmarshal p.value))

  -- property
  unfoldable pub stored_property : Target → S → Answer (Option Property × PageProperty)
  stored_property t s = do prop ← client.property t property_key s; ok (read_property prop)

  abbrev next_property : Option Property → Text → Property
  next_property none value = record { id = []; key = property_key; value = value; version = 0 }
  next_property (some p) value = record {
    id = p.id;
    key = property_key;
    value = value;
    version = p.version;
  }

  -- The property that writeProperty writes.
  unfoldable pub property_of : Item → Text → ℕ → List Anchor → PageProperty
  property_of it hash version anchors = record {
    id = it.key;
    source = it.source;
    hash = hash;
    version = version;
    docz = opts.version;
    repo = opts.repository;
    anchors = anchors;
  }

  -- writeProperty
  unfoldable pub write_property :
      Text → Option Property → Item → Text → ℕ → List Anchor → S → Answer (Unit {0}) × S
  write_property page_id prop it hash version anchors =
      client.set_property (page_target page_id)
        (next_property prop (json.marshal (property_of it hash version anchors)))

  -- create
  unfoldable pub create : Item → Rendered → Text → PageResult → S → Outcome S
  create it rendered parent_id res s =
      let res1 = record res { action = created } in
      if opts.dry_run
      then done res1 s
      else attempt res1
          (client.create_page
            (record {
              space_id = opts.space_id;
              parent_id = parent_id;
              title = rendered.title;
              body = rendered.body;
            })
            s)
          (λ page s1.
            concluded (with_page res1 page)
              (write_property page.id none it rendered.hash page.version [] s1))

  -- listed
  unfoldable pub listed : Text → List Anchor → S → Answer (List Anchor)
  listed page_id [] s = ok []
  listed page_id (a ∷ lost) s = elim client.inline_comments [
    | none ↦ ok (a ∷ lost)
    | some list ↦ list page_id s >>= λ cs. ok (still_listed cs (a ∷ lost))
  ]

  -- The anchors that the new body lost, without those of comments that the page does not list, and
  -- what the update reports and remembers.
  abbrev with_lost : Text → List Anchor → List Anchor → List Anchor → Text × Comments × List Anchor
  with_lost out live placed lost = (
    out,
    record { kept = length placed; restored = texts (missing placed live); lost = texts lost },
    markers.collect out ++ lost,
  )

  abbrev carried :
      Text
      → List Anchor
      → Text × List Anchor × List Anchor
      → S
      → Answer (Text × Comments × List Anchor)
  carried page_id live (out, placed, gone) s =
      if not (markers.well_formed out)
      then failed (ill_formed out)
      else listed page_id gone s >>= λ lost. ok (with_lost out live placed lost)

  -- carryComments
  unfoldable pub carry_comments :
      Text → Text → List Anchor → S → Answer (Text × Comments × List Anchor)
  carry_comments page_id rendered remembered s = client.body page_id s >>= λ current.
      let live = markers.collect (or_empty current) in
      let anchors = live ++ missing remembered live in
      if is_empty anchors
      then ok (rendered, no_comments, [])
      else carried page_id live (markers.carry rendered anchors) s

  -- The rest of update, behind carryComments.
  abbrev pub update_carried :
      Item
      → Rendered
      → Page
      → Option Property
      → Text
      → PageResult
      → Text × Comments × List Anchor
      → S
      → Outcome S
  update_carried it rendered page prop parent_id res (body, comments, anchors) s =
      let res1 = record res { comments = comments } in
      if opts.dry_run
      then done res1 s
      else attempt res1
          (client.update_page page.id
            (record {
              title = rendered.title;
              parent_id = parent_id;
              body = some body;
              version = page.version + 1;
              message = sync_message it rendered.hash;
            })
            s)
          (λ page2 s1.
            concluded (record res1 { url = page2.web_url; version = page2.version })
              (write_property page.id prop it rendered.hash page2.version anchors s1))

  -- update
  unfoldable pub update :
      Item → Rendered → Page → Option Property → PageProperty → Text → PageResult → S → Outcome S
  update it rendered page prop stored parent_id res s =
      let res1 = record res { action = updated } in
      attempt res1 (carry_comments page.id rendered.body stored.anchors s, s)
        (update_carried it rendered page prop parent_id res1)

  -- The parent that the page shall have.
  unfoldable pub wanted_parent : Item → Page → Text → Text
  wanted_parent it page parent_id =
      if equal it.key parent_key && is_empty opts.folder then page.parent_id else parent_id

  -- What a decision leads to.
  abbrev pub act :
      Item
      → Rendered
      → Page
      → Option Property
      → PageProperty
      → Text
      → PageResult
      → Decision
      → S
      → Outcome S
  act it rendered page prop stored parent_id res d s = elim d.action [
    | updated ↦ update it rendered page prop stored parent_id (record res { edited = d.edited }) s
    | other ↦ done (record res { edited = d.edited; action = other; reason = d.reason }) s
  ]

  abbrev pub wanted : Rendered → Text → Want
  wanted rendered parent_id = record {
    hash = rendered.hash;
    parent_id = parent_id;
    title = rendered.title;
  }

  abbrev pub is_foreign : Option Property → PageProperty → Bool
  is_foreign prop stored = is_some prop && not (owned stored opts.repository)

  -- What follows the read of the property.
  abbrev pub judged :
      Item → Rendered → Page → Text → PageResult → Option Property × PageProperty → S → Outcome S
  judged it rendered page parent res (prop, stored) s =
      if is_foreign prop stored
      then done (record res { action = skipped; reason = codes "belongs to " ++ stored.repo }) s
      else act it rendered page prop stored parent res
          (decide prop stored page (wanted rendered parent) opts) s

  -- The branch for a page that is there.
  unfoldable pub reconcile_page : Item → Rendered → Page → Text → PageResult → S → Outcome S
  reconcile_page it rendered page parent_id res s =
      attempt (with_page res page) (stored_property (page_target page.id) s, s)
        (judged it rendered page (wanted_parent it page parent_id) (with_page res page))

  abbrev pub on_page : Item → Rendered → Text → PageResult → Option Page → S → Outcome S
  on_page it rendered parent_id res none s = create it rendered parent_id res s
  on_page it rendered parent_id res (some page) s = reconcile_page it rendered page parent_id res s

  abbrev pub rendered_at : Item → Text → Rendered → S → Outcome S
  rendered_at it parent_id rendered s =
      attempt (rendered_result it rendered) (find_page it.key rendered.title s, s)
        (on_page it rendered parent_id (rendered_result it rendered))

  -- reconcile
  unfoldable pub reconcile : Item → Text → S → Outcome S
  reconcile it parent_id s = attempt (first_result it) (render it, s) (rendered_at it parent_id)
