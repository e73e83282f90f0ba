-- ===== src/Confluence/Site/Reads.antt =====
-- The pages that the reads of pkg/export/confluence/confluencetest/site.go give.
use docz.Prelude.{
  true, ◌≡◌, ◌≢◌, inl, inr, refl, sym, ap, ◌∙◌, subst, none, some, Bool-cases, Option-cases,
}
use docz.Text.{Text}
use docz.Text.Dict.{lookup, All-lookup}
use mathlib.Core.Option.{some-injective}
use docz.Confluence.Client.{page_type, Page, ok, ok-injective}
use docz.Confluence.Site.{SiteNode, Site, same_kind, holder, find_page, page_by_id}
use docz.Confluence.Site.Titles.{titled, holder-eq_some, titled-parts, same_kind-page}
use docz.Confluence.Site.Valid.{IsSite, HasId}

pub page_by_id-of :
    (id : Text) (s : Site) (page : Page)
    → page_by_id id s ≡ ok (some page)
    → (n : SiteNode) × (lookup id s.nodes ≡ some n) × (n.kind ≡ page_type) × (n.page ≡ page)
unfolding page_by_id
page_by_id-of id s page h = elim (Option-cases (lookup id s.nodes)) [
  | inl e ↦ absurd (none-some (ok-injective none (some page) (rw e at h)))
  | inr (n, e) ↦ elim (Bool-cases (same_kind n.kind page_type)) [
    | inr k ↦ absurd (none-some (ok-injective none (some page) (rw (e, k) at h)))
    | inl k ↦ elim (Bool-cases n.current) [
      | inr c ↦ absurd (none-some (ok-injective none (some page) (rw (e, k, c) at h)))
      | inl c ↦ (
        n,
        e,
        same_kind-page n.kind k,
        some-injective n.page page (ok-injective (some n.page) (some page) (rw (e, k, c) at h)),
      )
    ]
  ]
]
  where
    none-some : none ≢ some page
    none-some r = cc

pub find_page-of :
    (space title : Text) (s : Site) (page : Page)
    → IsSite s
    → find_page space title s ≡ ok (some page)
    → (page_by_id page.id s ≡ ok (some page)) × (page.space_id ≡ space) × (page.title ≡ title)
unfolding find_page page_by_id
find_page-of space title s page is h = elim (Option-cases (holder s.nodes page_type space title)) [
  | inl e ↦ absurd (none-some (ok-injective none (some page) (rw e at h)))
  | inr (n, e) ↦ elim (Bool-cases n.current) [
    | inr c ↦ absurd (none-some (ok-injective none (some page) (rw (e, c) at h)))
    | inl c ↦
        let (k, found, t) = holder-eq_some s.nodes page_type space title n is.apart e in
        from n k found t c (All-lookup HasId k n s.nodes is.has_id found)
          (some-injective n.page page (ok-injective (some n.page) (some page) (rw (e, c) at h)))
  ]
]
  where
    none-some : none ≢ some page
    none-some r = cc

    from :
        (n : SiteNode) (k : Text)
        → lookup k s.nodes ≡ some n
        → titled n page_type space title ≡ true
        → n.current ≡ true
        → n.page.id ≡ k
        → n.page ≡ page
        → (page_by_id page.id s ≡ ok (some page)) × (page.space_id ≡ space) × (page.title ≡ title)
    from n k found t c own same =
        let (kind, there, called) = titled-parts n page_type space title t in
        let here : lookup n.page.id s.nodes ≡ some n = ap (λ i. lookup i s.nodes) own ∙ found in
        (
          subst (λ (p : Page). page_by_id p.id s ≡ ok (some p)) same (rw (here, kind, c) refl),
          ap (λ (p : Page). p.space_id) (sym same) ∙ there,
          ap (λ (p : Page). p.title) (sym same) ∙ called,
        )
