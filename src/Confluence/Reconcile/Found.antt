-- ===== src/Confluence/Reconcile/Found.antt =====
-- The page that findPage of pkg/export/confluence/reconcile.go gives behind a write of it.
use docz.Prelude.{
  true, false, ◌≡◌, ◌≢◌, inl, inr, refl, sym, ap, ◌∙◌, subst, Option, none, some, Bool-cases,
  Option-cases, is_empty,
}
use docz.Text.{Text, equal, equal_iff}
use docz.Text.Dict.{lookup}
use mathlib.Core.Option.{some-injective}
use docz.Confluence.Client.{Answer, ok, Page, Client, ◌>>=◌, bind-eq_ok, ok-injective}
use docz.Confluence.Laws.{Shows, IsStore}
use docz.Confluence.Reconcile.{
  Item, Rendered, Options, Json, Markers, or_empty, in_space, or_by_title, find_page,
}

module _ {S : Type 0} (client : Client S) (render : Item → Answer Rendered) (json : Json)
    (markers : Markers) (opts : Options) where
  pub in_space-eq_some :
      (x : Option Page) (p : Page)
      → in_space client render json markers opts x ≡ some p
      → (x ≡ some p) × (p.space_id ≡ opts.space_id)
  in_space-eq_some none p h = cc
  in_space-eq_some (some q) p h = elim (Bool-cases (equal q.space_id opts.space_id)) [
    | inl e ↦
        let same = some-injective q p (rw e at h) in
        (
          ap some same,
          ap (λ (x : Page). x.space_id) (sym same) ∙ (equal_iff q.space_id opts.space_id).0 e,
        )
    | inr e ↦ absurd (none-some (rw e at h))
  ]
    where
      none-some : none ≢ some p
      none-some k = cc

  in_space_self :
      (p : Page)
      → p.space_id ≡ opts.space_id
      → in_space client render json markers opts (some p) ≡ some p
  in_space_self p h = rw ((equal_iff p.space_id opts.space_id).1 h) refl

  module _ (IsValid : S → Type 0) (laws : IsStore client IsValid) where
    -- The page that was written is found, if the one that was found before is that page.
    pub find_page-Shows :
        (key title : Text) (s s' : S) (page : Page) (o : Option Page)
        → IsValid s
        → find_page client render json markers opts key title s ≡ ok o
        → ((p : Page) → o ≡ some p → p.id ≡ page.id)
        → Shows client IsValid opts.space_id s page s'
        → page.title ≡ title
        → find_page client render json markers opts key title s' ≡ ok (some page)
    unfolding find_page
    find_page-Shows key title s s' page o valid h same shows named =
        elim (Bool-cases (is_empty id)) [
          | inl e ↦ rw e titled
          | inr e ↦ rw e (remembered (bind-eq_ok _ _ (rw e at h)))
        ]
      where
        id : Text
        id = or_empty (lookup key opts.pages)

        titled : client.find_page opts.space_id title s' ≡ ok (some page)
        titled =
            subst (λ t. client.find_page opts.space_id t s' ≡ ok (some page)) named shows.by_title

        Goal : Answer (Option Page) → Type 0
        Goal a =
            (a >>= λ x.
            or_by_title client render json markers opts title
              (in_space client render json markers opts x) s')
            ≡ ok (some page)

        another :
            equal id page.id ≡ false
            → (x : Option Page) (p : Page) → client.page_by_id id s ≡ ok x
            → in_space client render json markers opts x ≡ some p
            → some p ≡ o
            → ⊥
        another q x p read y chosen =
            let usable = (in_space-eq_some x p y).0 in
            let own = laws.id_read id s p valid (read ∙ ap ok usable) in
            false-ne-true (sym q ∙ (equal_iff id page.id).1 (sym own ∙ same p (sym chosen)))
          where
            false-ne-true : false ≢ true
            false-ne-true k = cc

        remembered :
            (x : Option Page) × (client.page_by_id id s ≡ ok x)
              × (or_by_title client render json markers opts title
                    (in_space client render json markers opts x)
                    s
                  ≡ ok o)
            → Goal (client.page_by_id id s')
        remembered (x, read, chosen) = elim (Bool-cases (equal id page.id)) [
          | inl q ↦ rw (shows.by_id id, q, in_space_self page shows.in_space) refl
          | inr q ↦
              rw (shows.by_id id, q, read)
                (elim (Option-cases (in_space client render json markers opts x)) [
                  | inl n ↦ rw n titled
                  | inr (p, y) ↦
                      absurd (another q x p read y (ok-injective (some p) o (rw y at chosen)))
                ])
        ]
