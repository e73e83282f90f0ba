-- ===== src/Confluence/Site/Stored.antt =====
-- The pages that pkg/export/confluence/confluencetest/site.go wrote, as its reads give them.
use docz.Prelude.{
  ℕ, suc, ◌+◌, true, false, ◌≡◌, ◌≢◌, ◌⊎◌, inl, inr, refl, sym, ap, ◌∙◌, subst, Option, none, some,
  ◌++◌, arith, ◌==◌, Bool-cases, Option-cases, is_empty, All, All-weaken,
}
use docz.Text.{Text, codes, equal, equal_iff}
use docz.Text.Dict.{lookup, insert, lookup-insert}
use docz.Confluence.Client.{
  page_type, ExportError, title_taken, Page, NewPage, PageUpdate, Answer, ok, failed, ok-injective,
}
use docz.Confluence.Laws.{Shows, IsCreated, IsUpdated}
use docz.Confluence.Site.{
  SiteNode, Site, failing, holder, with_node, fresh_id, new_node, or_home, find_page, page_by_id,
}
use docz.Confluence.Site.Titles.{
  titled, Unclashed, holder-none, holder-lookup, equal_sym, equal_refl,
}
use docz.Confluence.Site.Valid.{IsSite, added-IsSite, changed-IsSite, same_title-Unclashed}
use docz.Confluence.Site.Writes.{
  create_page, create_where, page_added, update_checked, update_write, updated_node, wanted_version,
  title_clash, site_client, or_fail, archived_id,
}

pub failed-ok : {A : Type 0} (e : ExportError) (a : A) → failed e ≢ ok a
failed-ok e a r = cc

-- The cases of a call that succeeded behind `if failing(...)`.
pub or_fail-eq_ok :
    {A : Type 0} (x : Option ExportError) (s : Site) (k : Answer A × Site) {a : A} {s' : Site}
    → or_fail x s k ≡ (ok a, s')
    → k ≡ (ok a, s')
or_fail-eq_ok none s k h = h
or_fail-eq_ok (some e) s k {a = a} h = absurd (failed-ok e a (ap (λ o. o.0) h))

-- A current page that was written under its id is what the reads give.
written-Shows :
    (s : Site) (id : Text) (n : SiteNode) (next : ℕ) (write space : Text)
    → IsSite (with_node s id n next write)
    → n.kind ≡ page_type
    → n.current ≡ true
    → n.page.id ≡ id
    → n.page.space_id ≡ space
    → Shows site_client IsSite space s n.page (with_node s id n next write)
unfolding page_by_id find_page
written-Shows s id n next write space is k c own sp = record {
  valid = is;
  by_id = λ j.
      rw (lookup-insert id j n s.nodes, own, equal_sym j id)
        (elim (Bool-cases (equal id j)) [ inl e ↦ rw (e, k, c) refl | inr e ↦ rw e refl ]);
  by_title = rw (sym sp, sym k, holder-lookup id n (insert id n s.nodes) is.apart here, c) refl;
  in_space = sp;
}
  where
    here : lookup id (insert id n s.nodes) ≡ some n
    here = lookup-insert id id n s.nodes ∙ rw (equal_refl id) refl

or_home-or_empty : (p q : Text) → or_home p q ≡ p ⊎ is_empty p ≡ true
or_home-or_empty p q = ground arith

-- A page that CreatePage of the site wrote, in a site in which ids and titles are not shared: it
-- has the title asked for, the parent too unless that is empty, and a version; both reads give it,
-- the reads by another id give what they gave, and the site stays so.
pub create_page-IsCreated :
    (p : NewPage) (s : Site) (page : Page) (s' : Site)
    → IsSite s
    → create_page p s ≡ (ok page, s')
    → IsCreated site_client IsSite p s page s'
unfolding create_page page_added new_node
create_page-IsCreated p s page s' is h =
    let passed : create_where p s (holder s.nodes page_type p.space_id p.title) ≡ (ok page, s') =
      or_fail-eq_ok (failing s (codes "create") p.title) s _ h in
    elim (Option-cases (holder s.nodes page_type p.space_id p.title)) [
      | inl free ↦ from free (rw free at passed)
      | inr (taken, e) ↦ absurd (
          failed-ok (title_taken p.title (archived_id taken)) page (ap (λ o. o.0) (rw e at passed)))
    ]
  where
    made : SiteNode
    made = new_node s page_type p.space_id (or_home p.parent_id p.space_id) p.title p.body

    from :
        holder s.nodes page_type p.space_id p.title ≡ none
        → create_where p s none ≡ (ok page, s')
        → IsCreated site_client IsSite p s page s'
    from free h =
        let q = ok-injective made.page page (ap (λ o. o.0) h) in
        subst (λ x. IsCreated site_client IsSite p s x s') q
          (subst (λ t. IsCreated site_client IsSite p s made.page t) (ap (λ o. o.1) h)
            (record {
              shows =
                  written-Shows s (fresh_id s) made (suc s.next_id) (codes "create " ++ p.title)
                    p.space_id (added-IsSite s made (codes "create " ++ p.title) is refl free) refl
                    refl refl refl;
              has_title = refl;
              has_parent = or_home-or_empty p.parent_id p.space_id;
              has_version = omega arith;
            }))

-- The title that an update gives is the page's own, or no page has it.
pub title_clash-Unclashed :
    (u : PageUpdate) (n m : SiteNode) (s : Site)
    → IsSite s
    → lookup n.page.id s.nodes ≡ some n
    → n.kind ≡ page_type
    → is_empty u.title ≡ false
    → title_clash s.nodes u n.page ≡ false
    → m.kind ≡ n.kind
    → m.page.space_id ≡ n.page.space_id
    → m.page.title ≡ u.title
    → All (Unclashed n.page.id m) s.nodes
unfolding title_clash
title_clash-Unclashed u n m s is found k t c mk ms mt =
    elim (Bool-cases (equal u.title n.page.title)) [
      | inl e ↦
          same_title-Unclashed s n.page.id n m is found mk ms
            (mt ∙ (equal_iff u.title n.page.title).0 e)
      | inr e ↦ elim (Option-cases (holder s.nodes page_type n.page.space_id u.title)) [
        | inl free ↦
            All-weaken (λ x. titled x.1 page_type n.page.space_id u.title ≡ false)
              (Unclashed n.page.id m) (λ x f r. rw (mk, k, ms, mt) f) s.nodes
              (holder-none s.nodes page_type n.page.space_id u.title free)
        | inr (taken, f) ↦ absurd (true-ne-false (rw (t, e, f) at c))
      ]
    ]
  where
    true-ne-false : true ≢ false
    true-ne-false r = cc

pub update_checked-IsUpdated :
    (u : PageUpdate) (body : Text) (n : SiteNode) (s : Site) (page : Page) (s' : Site)
    → IsSite s
    → lookup n.page.id s.nodes ≡ some n
    → n.kind ≡ page_type
    → u.body ≡ some body
    → is_empty u.title ≡ false
    → update_checked n.page.id u n s ≡ (ok page, s')
    → IsUpdated site_client IsSite u n.page s page s'
unfolding updated_node wanted_version
update_checked-IsUpdated u body n s page s' is found k b t h =
    elim (Bool-cases (wanted_version u n.page == n.page.version + 1)) [
      | inr v ↦ absurd (failed-ok _ page (ap (λ o. o.0) (rw v at h)))
      | inl v ↦ elim (Bool-cases (title_clash s.nodes u n.page)) [
        | inl c ↦ absurd (failed-ok _ page (ap (λ o. o.0) (rw (v, c) at h)))
        | inr c ↦ from c (rw (v, c) at h)
      ]
    ]
  where
    changed : SiteNode
    changed = updated_node u n

    titled_so : changed.page.title ≡ u.title
    titled_so = rw t refl

    write : Text
    write = update_write changed.page

    updated_site : Answer Page × Site
    updated_site = (ok changed.page, with_node s n.page.id changed s.next_id write)

    from :
        title_clash s.nodes u n.page ≡ false
        → updated_site ≡ (ok page, s')
        → IsUpdated site_client IsSite u n.page s page s'
    from c h =
        let q = ok-injective changed.page page (ap (λ o. o.0) h) in
        subst (λ x. IsUpdated site_client IsSite u n.page s x s') q
          (subst (λ x. IsUpdated site_client IsSite u n.page s changed.page x) (ap (λ o. o.1) h)
            (record {
              shows =
                  written-Shows s n.page.id changed s.next_id write n.page.space_id
                    (changed-IsSite s n.page.id n changed write is found refl
                      (title_clash-Unclashed u n changed s is found k t c refl refl titled_so))
                    k refl refl refl;
              same_id = refl;
              has_title = titled_so;
              has_parent = refl;
              has_version = rw b refl;
            }))
