-- ===== src/Confluence/Site/Store.antt =====
-- The site of pkg/export/confluence/confluencetest/site.go as the store that the export relies on.
use docz.Prelude.{
  ◌+◌, false, ◌≡◌, inl, inr, refl, sym, ap, ◌∙◌, subst, some, [], ◌++◌, Bool-cases, is_empty,
}
use docz.Text.{Text, codes, equal, equal_iff}
use docz.Text.Dict.{lookup, insert, lookup-insert, All-lookup}
use docz.Confluence.Client.{page_type, conflict, Page, page_target, Property, PageUpdate, ok}
use docz.Confluence.Laws.{IsUpdated, IsStored, IsStore}
use docz.Confluence.Site.{SiteNode, Site, failing, find_page, page_by_id}
use docz.Confluence.Site.Titles.{equal_refl}
use docz.Confluence.Site.Valid.{
  IsSite, HasId, changed-IsSite, same_title-Unclashed, SameFace, holder-insert,
}
use docz.Confluence.Site.Writes.{
  update_page, update_where, property, set_property, set_where, set_checked, property_set, stale,
  site_client,
}
use docz.Confluence.Site.Reads.{page_by_id-of, find_page-of}
use docz.Confluence.Site.Stored.{
  failed-ok, or_fail-eq_ok, create_page-IsCreated, update_checked-IsUpdated,
}

set_where-IsStored :
    (id : Text) (n : SiteNode) (p : Property) (s s' : Site)
    → IsSite s
    → lookup id s.nodes ≡ some n
    → n.kind ≡ page_type
    → set_where (page_target id) p s (some n) ≡ (ok tt, s')
    → IsStored site_client IsSite (page_target id) p s s'
unfolding property page_by_id find_page
set_where-IsStored id n p s s' is found k h = elim (Bool-cases (stale p (lookup p.key n.props))) [
  | inl e ↦ absurd (failed-ok (conflict [] 0) tt (ap (λ o. o.0) (rw e at passed)))
  | inr e ↦
      subst (λ x. IsStored site_client IsSite (page_target id) p s x)
        (ap (λ o. o.1) (rw e at passed)) is_set
]
  where
    passed : set_checked (page_target id) p n s ≡ (ok tt, s')
    passed = or_fail-eq_ok (failing s (codes "property") n.page.title) s _ h

    stored : Property
    stored = record {
      id = codes "prop-" ++ n.page.id;
      key = p.key;
      value = p.value;
      version = p.version + 1;
    }

    changed : SiteNode
    changed = record n { props = insert p.key stored n.props }

    face : SameFace changed n
    face = (refl, refl, refl)

    here : lookup id (insert id changed s.nodes) ≡ some changed
    here = lookup-insert id id changed s.nodes ∙ rw (equal_refl id) refl

    is_set : IsStored site_client IsSite (page_target id) p s (property_set (page_target id) p n s)
    is_set = record {
      valid =
          changed-IsSite s id n changed (codes "property " ++ n.page.title) is found refl
            (same_title-Unclashed s id n changed is found refl refl refl);
      stored = stored;
      read = rw (here, k, lookup-insert p.key p.key stored n.props, equal_refl p.key) refl;
      has_value = refl;
      by_id = λ j. rw (lookup-insert id j changed s.nodes) (elim (Bool-cases (equal id j)) [
        | inl e ↦ rw (e, ap (λ i. lookup i s.nodes) (sym ((equal_iff id j).0 e)) ∙ found, k) refl
        | inr e ↦ rw e refl
      ]);
      by_title = λ space title.
          ap ok (holder-insert id n changed page_type space title s.nodes found face);
    }

-- A page that UpdatePage of the site wrote, with a body and a title that is not empty, over a
-- current page of a site in which ids and titles are not shared: it has the id of that page, the
-- title, version and parent asked for (an empty parent leaves the old one), both reads give it, the
-- reads by another id give what they gave, and the site stays so.
pub update_page-IsUpdated :
    (u : PageUpdate) (body : Text) (old : Page) (s : Site) (page : Page) (s' : Site)
    → IsSite s
    → page_by_id old.id s ≡ ok (some old)
    → u.body ≡ some body
    → is_empty u.title ≡ false
    → update_page old.id u s ≡ (ok page, s')
    → IsUpdated site_client IsSite u old s page s'
unfolding update_page
update_page-IsUpdated u body old s page s' is h b t w =
    let (n, found, k, same) = page_by_id-of old.id s old h in
    updated n found k same (rw (found, k) at w)
  where
    updated :
        (n : SiteNode)
        → lookup old.id s.nodes ≡ some n
        → n.kind ≡ page_type
        → n.page ≡ old
        → update_where old.id u s (some n) ≡ (ok page, s')
        → IsUpdated site_client IsSite u old s page s'
    updated n found k same w =
        subst (λ o. IsUpdated site_client IsSite u o s page s') same
          (update_checked-IsUpdated u body n s page s' is
            (ap (λ (o : Page). lookup o.id s.nodes) same ∙ found) k b t
            (or_fail-eq_ok (failing s (codes "update") n.page.title) s _ (
              subst (λ i. update_where i u s (some n) ≡ (ok page, s'))
                (ap (λ (o : Page). o.id) (sym same)) w)))

-- A property that SetProperty of the site wrote on a current page: it is read back with the value
-- that was written, the reads of pages give what they gave, and the ids and titles of the site stay
-- unshared.
pub set_property-IsStored :
    (id : Text) (page : Page) (p : Property) (s s' : Site)
    → IsSite s
    → page_by_id id s ≡ ok (some page)
    → set_property (page_target id) p s ≡ (ok tt, s')
    → IsStored site_client IsSite (page_target id) p s s'
unfolding set_property
set_property-IsStored id page p s s' is h w =
    let (n, found, k, same) = page_by_id-of id s page h in
    set_where-IsStored id n p s s' is found k (rw (found, k) at w)

-- The in-memory site keeps the laws of a store.
pub site_client-IsStore : IsStore site_client IsSite
unfolding page_by_id
site_client-IsStore = record {
  id_read = λ id s page is h.
      let (n, found, k, same) = page_by_id-of id s page h in
      ap (λ (p : Page). p.id) (sym same) ∙ All-lookup HasId id n s.nodes is.has_id found;
  title_read = find_page-of;
  create = create_page-IsCreated;
  update = update_page-IsUpdated;
  set = set_property-IsStored;
}
