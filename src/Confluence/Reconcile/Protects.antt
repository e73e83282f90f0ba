-- ===== src/Confluence/Reconcile/Protects.antt =====
-- The pages that a reconciliation of pkg/export/confluence/reconcile.go does not touch.
use docz.Prelude.{
  Bool, true, false, ◌&&◌, ◌≡◌, ◌≢◌, ◌⊎◌, inl, inr, refl, Option, none, some, arith, Bool-cases,
}
use docz.Text.{Text}
use docz.Confluence.Client.{Answer, ok, Page, page_target, Property, Client}
use docz.Confluence.Reconcile.{
  Item, Rendered, PageProperty, skipped, PageResult, Options, owned, valid, Want, edit_of, is_some,
  is_same, decide_cases, decide, Json, Markers, attempt, find_page, stored_property, wanted_parent,
  act, wanted, is_foreign, judged, reconcile_page, rendered_result, with_page, reconcile,
}

abbrev pub is_ours : Option Property → PageProperty → Bool
is_ours prop stored = is_some prop && valid stored

-- The page is another repository's; or, without Force, it has no docz property, one that is not
-- valid, or was edited and Overwrite is not set.
abbrev pub Protected : Options → Option Property → PageProperty → Page → Type 0
Protected opts prop stored page =
    ((is_some prop ≡ true) × (owned stored opts.repository ≡ false))
    ⊎ ((opts.force ≡ false)
        × ((is_ours prop stored ≡ false)
            ⊎ ((stored.version ≢ page.version) × (opts.overwrite ≡ false))))

module _ {S : Type 0} (client : Client S) (render : Item → Answer Rendered) (json : Json)
    (markers : Markers) (opts : Options) where
  decide-Protected :
      (prop : Option Property) (stored : PageProperty) (page : Page) (w : Want)
      → opts.force ≡ false
      → ((is_ours prop stored ≡ false)
          ⊎ ((stored.version ≢ page.version) × (opts.overwrite ≡ false)))
      → (decide prop stored page w opts).action ≡ skipped
  unfolding decide decide_cases is_same edit_of
  decide-Protected prop stored page w f (inl foreign) = ground arith
  decide-Protected prop stored page w f (inr (edited, kept)) = ground arith

  judged-Protected :
      (it : Item) (r : Rendered) (page : Page) (parent : Text) (res : PageResult)
      (prop : Option Property) (stored : PageProperty) (s : S)
      → Protected opts prop stored page
      → let o = judged client render json markers opts it r page parent res (prop, stored) s in
        (o.1 ≡ s) × (o.0.1 ≡ none) × (o.0.0.action ≡ skipped)
  judged-Protected it r page parent res prop stored s p =
      elim (Bool-cases (is_foreign client render json markers opts prop stored)) [
        | inl e ↦ rw e (refl, refl, refl)
        | inr e ↦ rw e (go (not_foreign p e))
      ]
    where
      not_foreign :
          Protected opts prop stored page
          → is_foreign client render json markers opts prop stored ≡ false
          → (decide prop stored page (wanted client render json markers opts r parent) opts).action
            ≡ skipped
      not_foreign (inl (there, other)) e = ground arith
      not_foreign (inr (f, q)) e = decide-Protected prop stored page _ f q

      go :
          (decide prop stored page (wanted client render json markers opts r parent) opts).action
            ≡ skipped
          → let o =
              act client render json markers opts it r page prop stored parent res
                (decide prop stored page (wanted client render json markers opts r parent) opts)
                s in
            (o.1 ≡ s) × (o.0.1 ≡ none) × (o.0.0.action ≡ skipped)
      go a = rw a (refl, refl, refl)

  -- A page that is another repository's is skipped whatever the options are, Force included; and
  -- without Force so is a page with no docz property, with one that is not valid, or that was edited
  -- in Confluence unless Overwrite is set. The reconciliation then gives no error and leaves the
  -- site as it is. The conditions are that the item renders and that the page and its property are
  -- read.
  pub reconcile-Protected :
      (it : Item) (parent_id : Text) (r : Rendered) (page : Page) (prop : Option Property)
      (stored : PageProperty) (s : S)
      → render it ≡ ok r
      → find_page client render json markers opts it.key r.title s ≡ ok (some page)
      → stored_property client render json markers opts (page_target page.id) s ≡ ok (prop, stored)
      → Protected opts prop stored page
      → let o = reconcile client render json markers opts it parent_id s in
        (o.1 ≡ s) × (o.0.1 ≡ none) × (o.0.0.action ≡ skipped)
  unfolding reconcile reconcile_page attempt
  reconcile-Protected it parent_id r page prop stored s e found read p =
      rw (e, found, read)
        (judged-Protected it r page
          (wanted_parent client render json markers opts it page parent_id)
          (with_page (rendered_result it r) page) prop stored s p)
