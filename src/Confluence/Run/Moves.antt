-- ===== src/Confluence/Run/Moves.antt =====
-- What the archiving of orphans in pkg/export/confluence/orphans.go keeps of a run.
use docz.Prelude.{
  false, ◌≡◌, inl, inr, refl, Option, none, some, List, [], ◌∷◌, Bool-cases, is_empty,
}
use docz.Text.{Text}
use docz.Confluence.Client.{
  Kind, page_type, folder_type, ExportError, Answer, ok, failed, Page, Node, Property, Client,
  Target, page_target,
}
use docz.Confluence.Reconcile.{
  Item, Rendered, PageProperty, Options, Json, Markers, stored_property,
}
use docz.Confluence.Run.{Plan, Run}
use docz.Confluence.Run.Orphans.{
  is_kept_title, is_orphan, orphan, orphan_judged, orphan_read, orphan_of, orphans_among,
  orphans_read, orphans_in, archive, recorded_move, archive_found, archive_created, archive_page,
  moved_under, property_moved, page_moved, moved_result, orphan_result,
}
use docz.Confluence.Run.Errors.{is_broken, Consistent, if-Consistent, record_result-Consistent}

module _ {S : Type 0} (client : Client S) (render : Item → Answer Rendered) (json : Json)
    (markers : Markers) (describe : ExportError → Text) (opts : Options) (plan : Plan) where
  archive_found-Consistent :
      (run : Run) (x : Answer (Option Page)) (s : S)
      → Consistent run
      → Consistent (archive_found client render json markers describe opts plan run x s).1
  archive_found-Consistent run (failed e) s c = c
  archive_found-Consistent run (ok (some page)) s c = c
  archive_found-Consistent run (ok none) s c = made _
    where
      made :
          (m : Answer Page × S)
          → Consistent (archive_created client render json markers describe opts plan run m).1
      made (ok page, t) = c
      made (failed e, t) = c

  archive_page-Consistent :
      (run : Run) (s : S)
      → Consistent run
      → Consistent (archive_page client render json markers describe opts plan run s).1
  unfolding archive_page
  archive_page-Consistent run s c = elim (Bool-cases (is_empty run.archive_id)) [
    | inl e ↦
        rw e (archive_found-Consistent run (client.find_page opts.space_id plan.archive s) s c)
    | inr e ↦ rw e c
  ]

  moved_under-Consistent :
      (child : Page) (prop : Property) (stored : PageProperty) (x : Answer Text × Run × S)
      → Consistent x.1
      → Consistent (moved_under client render json markers describe opts plan child prop stored x).1
  moved_under-Consistent child prop stored (failed e, run, s) c = c
  moved_under-Consistent child prop stored (ok id, run, s) c = moved _
    where
      written :
          (page : Page) (m : Answer (Unit {0}) × S)
          → Consistent (property_moved client render json markers describe opts plan page run m).1
      written page (ok _, t) = c
      written page (failed e, t) = c

      moved :
          (m : Answer Page × S)
          → Consistent
              (page_moved client render json markers describe opts plan child prop stored run m).1
      moved (ok page, t) = written page _
      moved (failed e, t) = c

  orphan_judged-Consistent :
      (child : Page) (prop : Option Property) (stored : PageProperty) (run : Run) (s : S)
      → Consistent run
      → Consistent
          (orphan_judged client render json markers describe opts plan child (prop, stored) run s).0
  unfolding archive
  orphan_judged-Consistent child none stored run s c = c
  orphan_judged-Consistent child (some prop) stored run s c =
      elim (Bool-cases (is_orphan plan opts.repository (some prop) stored)) [
        | inr e ↦ rw e c
        | inl e ↦ rw e (
            if-Consistent opts.dry_run _ _
              (record_result-Consistent describe (orphan_result stored child) none run (λ n. refl)
                c)
              (moved (archive client render json markers describe opts plan child prop stored run s)
                (moved_under-Consistent child prop stored
                  (archive_page client render json markers describe opts plan run s)
                  (archive_page-Consistent run s c))))
      ]
    where
      kept_action :
          (o : Option Page) → is_broken (moved_result (orphan_result stored child) o).action ≡ false
      kept_action none = refl
      kept_action (some page) = refl

      moved :
          (m : (Option Page × Option ExportError) × Run × S)
          → Consistent m.1
          → Consistent
              (recorded_move client render json markers describe opts plan
                (orphan_result stored child)
                m).0
      moved ((o, err), t, u) k = record_result-Consistent describe _ err t (λ n. kept_action o) k

  orphan_read-Consistent :
      (child : Page) (x : Answer (Option Property × PageProperty)) (run : Run) (s : S)
      → Consistent run
      → Consistent (orphan_read client render json markers describe opts plan child x run s).0
  orphan_read-Consistent child (failed e) run s c =
      record_result-Consistent describe _ (some e) run (λ n. refl) c
  orphan_read-Consistent child (ok (prop, stored)) run s c =
      orphan_judged-Consistent child prop stored run s c

  orphan_of-Consistent :
      (kind : Kind) (page : Page) (run : Run) (s : S)
      → Consistent run
      → Consistent (orphan_of client render json markers describe opts plan kind page run s).0
  unfolding orphan
  orphan_of-Consistent folder_type page run s c = c
  orphan_of-Consistent page_type page run s c = elim (Bool-cases (is_kept_title plan page.title)) [
    | inl e ↦ rw e c
    | inr e ↦ rw e (
        orphan_read-Consistent page
          (stored_property client render json markers opts (page_target page.id) s) run s c)
  ]

  orphans_among-Consistent :
      (ns : List Node) (run : Run) (s : S)
      → Consistent run
      → Consistent (orphans_among client render json markers describe opts plan ns run s).0
  unfolding orphans_among
  orphans_among-Consistent [] run s c = c
  orphans_among-Consistent (n ∷ ns) run s c =
      orphans_among-Consistent ns _ _ (orphan_of-Consistent n.kind n.page run s c)

  orphans_read-Consistent :
      (t : Target) (x : Answer (List Node)) (run : Run) (s : S)
      → Consistent run
      → Consistent (orphans_read client render json markers describe opts plan t x run s).0
  orphans_read-Consistent t (failed e) run s c =
      record_result-Consistent describe _ (some e) run (λ n. refl) c
  orphans_read-Consistent t (ok ns) run s c = orphans_among-Consistent ns run s c

  pub orphans_in-Consistent :
      (ts : List Target) (run : Run) (s : S)
      → Consistent run
      → Consistent (orphans_in client render json markers describe opts plan ts run s).0
  unfolding orphans_in
  orphans_in-Consistent [] run s c = c
  orphans_in-Consistent (t ∷ ts) run s c =
      orphans_in-Consistent ts _ _ (orphans_read-Consistent t (client.children t s) run s c)
