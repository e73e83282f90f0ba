-- ===== src/Confluence/Site/Runs.antt =====
-- The states that the writes of pkg/export/confluence/confluencetest/site.go lead to.
use docz.Prelude.{
  ◌+◌, true, false, ◌≡◌, ◌≢◌, inl, inr, refl, sym, ap, ◌∙◌, subst, Option, none, some, List, [],
  ◌∷◌, ◌++◌, ◌==◌, Bool-cases, is_empty, All,
}
use docz.Text.{Text, codes}
use docz.Text.Dict.{lookup, All-lookup}
use mathlib.Core.Option.{some-injective}
use docz.Confluence.Client.{
  Kind, page_type, folder_type, ExportError, Target, Property, NewPage, NewFolder, PageUpdate,
  Answer,
}
use docz.Confluence.Site.{
  SiteNode, Site, new_site, same_kind, failing, holder, new_node, or_home, of_kind,
}
use docz.Confluence.Site.Titles.{Unclashed, same_kind-page}
use docz.Confluence.Site.Valid.{IsSite, HasId, added-IsSite, changed-IsSite, same_title-Unclashed}
use docz.Confluence.Site.Stored.{title_clash-Unclashed}
use docz.Confluence.Site.Writes.{
  create_page, create_where, create_folder, create_folder_where, new_folder_node, page_added,
  update_page, update_where, update_checked, update_write, updated_node, wanted_version,
  title_clash, set_property, set_where, set_checked, with_property, stale, or_fail,
}

-- A call that writes.
pub data Write : Type 0 where
  page_write : NewPage → Write
  folder_write : NewFolder → Write
  page_update : Text → PageUpdate → Write
  property_write : Target → Property → Write

-- The site behind the call, whether or not it fails.
abbrev pub run : Write → Site → Site
run (page_write p) s = (create_page p s).1
run (folder_write f) s = (create_folder f s).1
run (page_update id u) s = (update_page id u s).1
run (property_write t p) s = (set_property t p s).1

abbrev pub run_all : List Write → Site → Site
run_all [] s = s
run_all (w ∷ ws) s = run_all ws (run w s)

or_fail-IsSite :
    {A : Type 0} (x : Option ExportError) (s : Site) (k : Answer A × Site)
    → IsSite s
    → IsSite k.1
    → IsSite (or_fail x s k).1
or_fail-IsSite none s k is h = h
or_fail-IsSite (some e) s k is h = is

create_where-IsSite :
    (p : NewPage) (s : Site) (o : Option SiteNode)
    → holder s.nodes page_type p.space_id p.title ≡ o
    → IsSite s
    → IsSite (create_where p s o).1
unfolding page_added new_node
create_where-IsSite p s (some n) h is = is
create_where-IsSite p s none h is =
    added-IsSite s (new_node s page_type p.space_id (or_home p.parent_id p.space_id) p.title p.body)
      (codes "create " ++ p.title) is refl h

create_folder_where-IsSite :
    (f : NewFolder) (s : Site) (o : Option SiteNode)
    → holder s.nodes folder_type f.space_id f.title ≡ o
    → IsSite s
    → IsSite (create_folder_where f s o).1
unfolding new_folder_node new_node
create_folder_where-IsSite f s (some n) h is = is
create_folder_where-IsSite f s none h is =
    added-IsSite s (new_folder_node f s) (codes "create folder " ++ f.title) is refl h

of_kind-eq_some :
    (kind : Kind) (o : Option SiteNode) (n : SiteNode)
    → of_kind kind o ≡ some n
    → (o ≡ some n) × (same_kind n.kind kind ≡ true)
of_kind-eq_some kind none n h = absurd (none-some h)
  where
    none-some : none ≢ some n
    none-some r = cc
of_kind-eq_some kind (some m) n h = elim (Bool-cases (same_kind m.kind kind)) [
  | inl e ↦
      let same = some-injective m n (rw e at h) in
      (ap some same, ap (λ (x : SiteNode). same_kind x.kind kind) (sym same) ∙ e)
  | inr e ↦ absurd (none-some (rw e at h))
]
  where
    none-some : none ≢ some n
    none-some r = cc

update_where-IsSite :
    (id : Text) (u : PageUpdate) (s : Site) (o : Option SiteNode)
    → of_kind page_type (lookup id s.nodes) ≡ o
    → IsSite s
    → IsSite (update_where id u s o).1
unfolding updated_node
update_where-IsSite id u s none h is = is
update_where-IsSite id u s (some n) h is =
    let (found, k) = of_kind-eq_some page_type _ n h in
    or_fail-IsSite (failing s (codes "update") n.page.title) s _ is
      (checked found (same_kind-page n.kind k))
  where
    changed : SiteNode
    changed = updated_node u n

    free :
        lookup id s.nodes ≡ some n
        → n.kind ≡ page_type
        → title_clash s.nodes u n.page ≡ false
        → All (Unclashed id changed) s.nodes
    free found k c = elim (Bool-cases (is_empty u.title)) [
      | inl e ↦ same_title-Unclashed s id n changed is found refl refl (rw e refl)
      | inr e ↦
          let own = All-lookup HasId id n s.nodes is.has_id found in
          subst (λ i. All (Unclashed i changed) s.nodes) own
            (title_clash-Unclashed u n changed s is (ap (λ i. lookup i s.nodes) own ∙ found) k e c
              refl refl (rw e refl))
    ]

    checked : lookup id s.nodes ≡ some n → n.kind ≡ page_type → IsSite (update_checked id u n s).1
    checked found k = elim (Bool-cases (wanted_version u n.page == n.page.version + 1)) [
      | inr v ↦ rw v is
      | inl v ↦ elim (Bool-cases (title_clash s.nodes u n.page)) [
        | inl c ↦ rw (v, c) is
        | inr c ↦
            rw (v, c)
              (changed-IsSite s id n changed (update_write changed.page) is found refl
                (free found k c))
      ]
    ]

set_where-IsSite :
    (t : Target) (p : Property) (s : Site) (o : Option SiteNode)
    → of_kind t.kind (lookup t.id s.nodes) ≡ o
    → IsSite s
    → IsSite (set_where t p s o).1
set_where-IsSite t p s none h is = is
set_where-IsSite t p s (some n) h is =
    or_fail-IsSite (failing s (codes "property") n.page.title) s _ is
      (checked (of_kind-eq_some t.kind _ n h).0)
  where
    checked : lookup t.id s.nodes ≡ some n → IsSite (set_checked t p n s).1
    checked found = elim (Bool-cases (stale p (lookup p.key n.props))) [
      | inl e ↦ rw e is
      | inr e ↦ rw e (
          changed-IsSite s t.id n (with_property p n) (codes "property " ++ n.page.title) is found
            refl (same_title-Unclashed s t.id n (with_property p n) is found refl refl refl))
    ]

run-IsSite : (w : Write) (s : Site) → IsSite s → IsSite (run w s)
unfolding create_page create_folder update_page set_property
run-IsSite (page_write p) s is =
    or_fail-IsSite (failing s (codes "create") p.title) s _ is (create_where-IsSite p s _ refl is)
run-IsSite (folder_write f) s is =
    or_fail-IsSite (failing s (codes "create") f.title) s _ is
      (create_folder_where-IsSite f s _ refl is)
run-IsSite (page_update id u) s is = update_where-IsSite id u s _ refl is
run-IsSite (property_write t p) s is = set_where-IsSite t p s _ refl is

run_all-IsSite : (ws : List Write) (s : Site) → IsSite s → IsSite (run_all ws s)
run_all-IsSite [] s is = is
run_all-IsSite (w ∷ ws) s is = run_all-IsSite ws (run w s) (run-IsSite w s is)

-- In every state that a new site reaches by its writes, in any order and with any arguments,
-- whether they succeed or fail, each node has its own id, the ids given so far are below the next
-- one, and no two nodes of a kind have one title in one space.
pub runs-IsSite : (spaces : List Text) (ws : List Write) → IsSite (run_all ws (new_site spaces))
unfolding new_site
runs-IsSite spaces ws =
    run_all-IsSite ws (new_site spaces) (record { has_id = tt; below = tt; apart = tt })
