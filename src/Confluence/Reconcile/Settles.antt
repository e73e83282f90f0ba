-- ===== src/Confluence/Reconcile/Settles.antt =====
-- A page that one reconciliation of pkg/export/confluence/reconcile.go wrote, met by the next one.
use docz.Prelude.{
  ℕ, ◌<◌, true, false, ◌≡◌, refl, ap, ◌∙◌, none, some, List, [], arith, lt→ltb, is_empty,
}
use docz.Text.{Text, equal, equal_iff}
use docz.Confluence.Client.{Answer, ok, Page, Target, page_target, Property, Client}
use docz.Confluence.Reconcile.{
  Item, Rendered, Anchor, PageProperty, unchanged, PageResult, Options, property_key, owned, valid,
  Want, decided, edit_of, is_same, decide_cases, decide, Json, Markers, done, attempt, or_unread,
  with_page, rendered_result, find_page, stored_property, property_of, wanted_parent, wanted,
  reconcile_page, reconcile,
}

equal_refl : (t : Text) → equal t t ≡ true
equal_refl t = (equal_iff t t).1 refl

-- encoding/json reads back what it wrote.
abbrev pub ReadsBack : Json → Type 0
ReadsBack json = (p : PageProperty) → json.unmarshal (json.marshal p) ≡ some p

module _ {S : Type 0} (client : Client S) (render : Item → Answer Rendered) (json : Json)
    (markers : Markers) (opts : Options) where
  -- The page that an item has, as the item wants it.
  pub record Settled (it : Item) (r : Rendered) (parent_id : Text) (s : S) : Type 0 where
    pub page : Page
    pub prop : Property
    pub anchors : List Anchor
    pub found : find_page client render json markers opts it.key r.title s ≡ ok (some page)
    pub read : client.property (page_target page.id) property_key s ≡ ok (some prop)
    pub value :
        prop.value
        ≡ json.marshal (property_of client render json markers opts it r.hash page.version anchors)
    pub has_title : page.title ≡ r.title
    pub has_parent :
        page.parent_id ≡ wanted_parent client render json markers opts it page parent_id
    pub has_version : 0 < page.version

  decide-same :
      (stored : PageProperty) (prop : Property) (page : Page) (w : Want)
      → valid stored ≡ true
      → stored.version ≡ page.version
      → stored.hash ≡ w.hash
      → page.parent_id ≡ w.parent_id
      → page.title ≡ w.title
      → decide (some prop) stored page w opts ≡ decided unchanged
  unfolding decide edit_of is_same decide_cases
  decide-same stored prop page w v e h p t = ground (
    arith,
    equal_iff stored.hash w.hash,
    equal_iff page.parent_id w.parent_id,
    equal_iff page.title w.title,
  )

  abbrev pub unchanged_result : PageResult → Page → PageResult
  unchanged_result res page = record (with_page res page) {
    edited = none;
    action = unchanged;
    reason = [];
  }

  stored_property-read :
      (t : Target) (s : S) (prop : Property)
      → client.property t property_key s ≡ ok (some prop)
      → stored_property client render json markers opts t s
        ≡ ok (some prop, or_unread (json.unmarshal prop.value))
  unfolding stored_property
  stored_property-read t s prop h = rw h refl

  owned-repository : (p : PageProperty) → p.repo ≡ opts.repository → owned p opts.repository ≡ true
  unfolding owned
  owned-repository p h = ground (arith, equal_iff p.repo opts.repository)

  reconcile_page-same :
      (it : Item) (r : Rendered) (page : Page) (parent_id : Text) (res : PageResult) (s : S)
      (prop : Property) (stored : PageProperty)
      → stored_property client render json markers opts (page_target page.id) s
        ≡ ok (some prop, stored)
      → owned stored opts.repository ≡ true
      → decide
          (some prop)
          stored
          page
          (wanted client render json markers opts r
            (wanted_parent client render json markers opts it page parent_id))
          opts
        ≡ decided unchanged
      → reconcile_page client render json markers opts it r page parent_id res s
        ≡ done (unchanged_result res page) s
  unfolding reconcile_page attempt
  reconcile_page-same it r page parent_id res s prop stored h own d = rw (h, own, d) refl

  valid-property_of :
      (it : Item) (hash : Text) (version : ℕ) (anchors : List Anchor)
      → is_empty it.key ≡ false
      → 0 < version
      → valid (property_of client render json markers opts it hash version anchors) ≡ true
  unfolding valid property_of
  valid-property_of it hash version anchors k v = rw k (lt→ltb 0 version v)

  decide-Settled :
      (it : Item) (r : Rendered) (parent_id : Text) (s : S)
      → is_empty it.key ≡ false
      → (v : Settled it r parent_id s)
      → decide
          (some v.prop)
          (property_of client render json markers opts it r.hash v.page.version v.anchors)
          v.page
          (wanted client render json markers opts r
            (wanted_parent client render json markers opts it v.page parent_id))
          opts
        ≡ decided unchanged
  decide-Settled it r parent_id s key v =
      decide-same _ v.prop v.page _
        (valid-property_of it r.hash v.page.version v.anchors key v.has_version)
        (unfold property_of in refl) (unfold property_of in refl) v.has_parent v.has_title

  -- An item whose page is as it wants it is left alone.
  pub reconcile-Settled :
      (it : Item) (r : Rendered) (parent_id : Text) (s : S)
      → ReadsBack json
      → render it ≡ ok r
      → is_empty it.key ≡ false
      → (v : Settled it r parent_id s)
      → reconcile client render json markers opts it parent_id s
        ≡ done (unchanged_result (rendered_result it r) v.page) s
  unfolding reconcile attempt
  reconcile-Settled it r parent_id s back e key v =
      let p = property_of client render json markers opts it r.hash v.page.version v.anchors in
      rw (e, v.found)
        (reconcile_page-same it r v.page parent_id (rendered_result it r) s v.prop p
          (stored_property-read (page_target v.page.id) s v.prop v.read
            ∙ ap (λ o. ok (some v.prop, or_unread o)) (ap json.unmarshal v.value ∙ back p))
          (owned-repository p (unfold property_of in refl)) (decide-Settled it r parent_id s key v))
