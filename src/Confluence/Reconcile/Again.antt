-- ===== src/Confluence/Reconcile/Again.antt =====
-- What a reconciliation of pkg/export/confluence/reconcile.go did is not done again by the next one.
use docz.Prelude.{
  ℕ, ◌+◌, ◌<◌, false, ◌≡◌, ◌≢◌, ◌⊎◌, inl, inr, refl, sym, ap, ◌∙◌, subst, Option, none, some, List,
  arith, if◌then◌else◌, Bool-cases, is_empty,
}
use docz.Text.{Text}
use mathlib.Core.Option.{some-injective}
use docz.Confluence.Client.{Answer, ok, Page, page_target, Property, Client}
use docz.Confluence.Laws.{Shows, IsStore}
use docz.Confluence.Reconcile.{
  Item, Rendered, Anchor, PageProperty, updated, unchanged, skipped, Comments, PageResult, Options,
  Want, Decision, decide_cases, decide, Json, Markers, done, attempt, with_page, rendered_result,
  find_page, stored_property, write_property, carry_comments, update, update_carried, judged,
  wanted_parent, act, is_foreign, reconcile_page, on_page, reconcile,
}
use docz.Confluence.Reconcile.Converges.{
  HasParent, of_else, attempt-eq_done, attempt-read_done, concluded-eq_done, written-Settled,
  create-Settled, find_page-read,
}
use docz.Confluence.Reconcile.Settles.{Settled, ReadsBack, reconcile-Settled, unchanged_result}

-- What decide can lead to.
pub decide_action :
    (opts : Options) (prop : Option Property) (stored : PageProperty) (page : Page) (w : Want)
    → let a = (decide prop stored page w opts).action in
      (a ≡ updated) ⊎ ((a ≡ unchanged) ⊎ (a ≡ skipped))
unfolding decide decide_cases
decide_action opts prop stored page w = ground arith

module _ {S : Type 0} (client : Client S) (render : Item → Answer Rendered) (json : Json)
    (markers : Markers) (opts : Options) (IsValid : S → Type 0)
    (laws : IsStore client IsValid) where
  parent_updated :
      (it : Item) (parent_id : Text) (old page : Page)
      → HasParent opts it parent_id
      → page.parent_id ≡ (
          if is_empty (wanted_parent client render json markers opts it old parent_id)
          then old.parent_id
          else wanted_parent client render json markers opts it old parent_id)
      → page.parent_id ≡ wanted_parent client render json markers opts it page parent_id
  unfolding wanted_parent
  parent_updated it parent_id old page (inl own) h = rw own refl
  parent_updated it parent_id old page (inr some_parent) h = ground arith

  update_carried-Settled :
      (it : Item) (r : Rendered) (page : Page) (prop : Option Property) (parent_id : Text)
      (res res' : PageResult) (body : Text) (comments : Comments) (anchors : List Anchor) (s s' : S)
      → IsValid s
      → opts.dry_run ≡ false
      → HasParent opts it parent_id
      → is_empty r.title ≡ false
      → find_page client render json markers opts it.key r.title s ≡ ok (some page)
      → update_carried client render json markers opts it r page prop
          (wanted_parent client render json markers opts it page parent_id)
          res
          (body, comments, anchors)
          s
        ≡ ((res', none), s')
      → Settled client render json markers opts it r parent_id s'
  update_carried-Settled it r page prop parent_id res res' body comments anchors s s' valid dry
        has_parent titled found h =
      let (page2, s1, made, rest) = attempt-eq_done _ _ _ (of_else opts.dry_run _ dry h) in
      let (read, space) =
        find_page-read client render json markers opts IsValid laws it.key r.title s page valid
          found in
      let is = laws.update _ body page s page2 s1 valid read refl titled made in
      written-Settled client render json markers opts IsValid laws it r parent_id s s1 s' page2
        (some page) prop anchors valid found
        (λ p q. ap (λ (x : Page). x.id) (sym (some-injective page p q)) ∙ sym is.same_id)
        (subst (λ t. Shows client IsValid t s page2 s1) space is.shows) is.has_title
        (parent_updated it parent_id page page2 has_parent is.has_parent)
        (positive page2.version is.has_version)
        (subst
          (λ i.
            write_property client render json markers opts i prop it r.hash page2.version anchors s1
            ≡ (ok tt, s'))
          (sym is.same_id)
          (concluded-eq_done
            (record res { comments = comments; url = page2.web_url; version = page2.version })
            (write_property client render json markers opts page.id prop it r.hash page2.version
              anchors s1)
            rest))
    where
      positive : (v : ℕ) → v ≡ page.version + 1 → 0 < v
      positive v k = omega arith

  update-Settled :
      (it : Item) (r : Rendered) (page : Page) (prop : Option Property) (stored : PageProperty)
      (parent_id : Text) (s : S) (res res' : PageResult) (s' : S)
      → IsValid s
      → opts.dry_run ≡ false
      → HasParent opts it parent_id
      → is_empty r.title ≡ false
      → find_page client render json markers opts it.key r.title s ≡ ok (some page)
      → update client render json markers opts it r page prop stored
          (wanted_parent client render json markers opts it page parent_id)
          res
          s
        ≡ ((res', none), s')
      → Settled client render json markers opts it r parent_id s'
  unfolding update
  update-Settled it r page prop stored parent_id s res res' s' valid dry has_parent titled found h =
      let ((body, comments, anchors), carried, rest) =
        attempt-read_done (record res { action = updated })
          (carry_comments client render json markers opts page.id r.body stored.anchors s) s
          (update_carried client render json markers opts it r page prop
            (wanted_parent client render json markers opts it page parent_id)
            (record res { action = updated }))
          h in
      update_carried-Settled it r page prop parent_id (record res { action = updated }) res' body
        comments anchors s s' valid dry has_parent titled found rest

  -- What a reconciliation leads to: the site as it was and nothing to do, or a settled item.
  abbrev Ends : Item → Rendered → Text → S → PageResult → S → Type 0
  Ends it r parent_id s res s' =
      ((s' ≡ s) × (res.action ≡ unchanged ⊎ res.action ≡ skipped))
      ⊎ Settled client render json markers opts it r parent_id s'

  ended :
      (it : Item) (r : Rendered) (parent_id : Text) (s s' : S) (res res' : PageResult)
      → done res s ≡ ((res', none), s')
      → res.action ≡ unchanged ⊎ res.action ≡ skipped
      → Ends it r parent_id s res' s'
  ended it r parent_id s s' res res' h a = inl (
    ap (λ o. o.1) (sym h),
    subst (λ (q : PageResult). q.action ≡ unchanged ⊎ q.action ≡ skipped) (ap (λ o. o.0.0) h) a,
  )

  act-Ends :
      (it : Item) (r : Rendered) (page : Page) (prop : Option Property) (stored : PageProperty)
      (parent_id : Text) (d : Decision) (s : S) (res res' : PageResult) (s' : S)
      → IsValid s
      → opts.dry_run ≡ false
      → HasParent opts it parent_id
      → is_empty r.title ≡ false
      → find_page client render json markers opts it.key r.title s ≡ ok (some page)
      → (d.action ≡ updated) ⊎ ((d.action ≡ unchanged) ⊎ (d.action ≡ skipped))
      → act client render json markers opts it r page prop stored
          (wanted_parent client render json markers opts it page parent_id)
          res
          d
          s
        ≡ ((res', none), s')
      → Ends it r parent_id s res' s'
  act-Ends it r page prop stored parent_id d s res res' s' valid dry has_parent titled found (inl a)
        h =
      inr (
        update-Settled it r page prop stored parent_id s (record res { edited = d.edited }) res' s'
          valid dry has_parent titled found (rw a at h))
  act-Ends it r page prop stored parent_id d s res res' s' valid dry has_parent titled found
        (inr (inl a)) h =
      ended it r parent_id s s' _ res' (rw a at h) (inl refl)
  act-Ends it r page prop stored parent_id d s res res' s' valid dry has_parent titled found
        (inr (inr a)) h =
      ended it r parent_id s s' _ res' (rw a at h) (inr refl)

  judged-Ends :
      (it : Item) (r : Rendered) (page : Page) (prop : Option Property) (stored : PageProperty)
      (parent_id : Text) (s : S) (res res' : PageResult) (s' : S)
      → IsValid s
      → opts.dry_run ≡ false
      → HasParent opts it parent_id
      → is_empty r.title ≡ false
      → find_page client render json markers opts it.key r.title s ≡ ok (some page)
      → judged client render json markers opts it r page
          (wanted_parent client render json markers opts it page parent_id)
          res
          (prop, stored)
          s
        ≡ ((res', none), s')
      → Ends it r parent_id s res' s'
  judged-Ends it r page prop stored parent_id s res res' s' valid dry has_parent titled found h =
      elim (Bool-cases (is_foreign client render json markers opts prop stored)) [
        | inl e ↦ ended it r parent_id s s' _ res' (rw e at h) (inr refl)
        | inr e ↦
            act-Ends it r page prop stored parent_id _ s res res' s' valid dry has_parent titled
              found (decide_action opts prop stored page _) (rw e at h)
      ]

  on_page-Ends :
      (it : Item) (r : Rendered) (parent_id : Text) (s : S) (res res' : PageResult)
      (o : Option Page) (s' : S)
      → IsValid s
      → opts.dry_run ≡ false
      → HasParent opts it parent_id
      → is_empty r.title ≡ false
      → find_page client render json markers opts it.key r.title s ≡ ok o
      → on_page client render json markers opts it r parent_id res o s ≡ ((res', none), s')
      → Ends it r parent_id s res' s'
  unfolding reconcile_page
  on_page-Ends it r parent_id s res res' none s' valid dry has_parent titled found h = inr (
      create-Settled client render json markers opts IsValid laws it r parent_id s res res' s' valid
        dry has_parent found h)
  on_page-Ends it r parent_id s res res' (some page) s' valid dry has_parent titled found h =
      let ((prop, stored), read, rest) =
        attempt-read_done (with_page res page)
          (stored_property client render json markers opts (page_target page.id) s) s
          (judged client render json markers opts it r page
            (wanted_parent client render json markers opts it page parent_id) (with_page res page))
          h in
      judged-Ends it r page prop stored parent_id s (with_page res page) res' s' valid dry
        has_parent titled found rest

  -- The export is idempotent: with a client that keeps its laws, from a state that is valid, and
  -- with properties that encoding/json reads back, an item that has a key, renders under a title
  -- that is not empty, and has a parent, and that one run, no dry run, did not skip and reconciled
  -- without an error, is `unchanged` in a second run, which succeeds and leaves the site as it is.
  pub reconcile-again :
      (it : Item) (r : Rendered) (parent_id : Text) (s : S) (res : PageResult) (s' : S)
      → ReadsBack json
      → IsValid s
      → opts.dry_run ≡ false
      → is_empty it.key ≡ false
      → HasParent opts it parent_id
      → render it ≡ ok r
      → is_empty r.title ≡ false
      → reconcile client render json markers opts it parent_id s ≡ ((res, none), s')
      → res.action ≢ skipped
      → (res2 : PageResult) × (res2.action ≡ unchanged)
        × (reconcile client render json markers opts it parent_id s' ≡ ((res2, none), s'))
  unfolding reconcile attempt
  reconcile-again it r parent_id s res s' back valid dry key has_parent e titled h acted =
      let (o, found, rest) =
        attempt-read_done (rendered_result it r)
          (find_page client render json markers opts it.key r.title s) s
          (on_page client render json markers opts it r parent_id (rendered_result it r))
          (rw e at h) in
      elim (on_page-Ends it r parent_id s (rendered_result it r) res o s' valid dry has_parent
        titled found rest) [
          | inl (same, inl a) ↦ (
            res,
            a,
            subst
                (λ t. reconcile client render json markers opts it parent_id t ≡ ((res, none), s'))
                (sym same) h,
          )
          | inl (same, inr a) ↦ absurd (acted a)
          | inr v ↦ (
            unchanged_result client render json markers opts (rendered_result it r) v.page,
            refl,
            reconcile-Settled client render json markers opts it r parent_id s' back e key v,
          )
        ]
