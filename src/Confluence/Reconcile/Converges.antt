-- ===== src/Confluence/Reconcile/Converges.antt =====
-- A reconciliation of pkg/export/confluence/reconcile.go behind one that succeeded.
use docz.Prelude.{
  ◌<◌, Bool, true, false, ◌&&◌, ◌≡◌, ◌≢◌, ◌⊎◌, inl, inr, refl, sym, ap, ◌∙◌, Option, none, some,
  List, [], arith, if◌then◌else◌, Bool-cases, Option-cases, is_empty,
}
use docz.Text.{Text, equal, equal_iff}
use docz.Text.Dict.{lookup}
use mathlib.Core.Option.{some-injective}
use docz.Confluence.Client.{
  Answer, ok, failed, Page, Target, page_target, Property, Client, bind-eq_ok, ok-injective,
}
use docz.Confluence.Laws.{Shows, IsStored, IsStore}
use docz.Confluence.Reconcile.{
  Item, Rendered, Anchor, created, PageResult, Options, property_key, parent_key, Json, Markers,
  Outcome, attempt, concluded, or_empty, with_page, in_space, or_by_title, find_page, property_of,
  write_property, create, wanted_parent, next_property,
}
use docz.Confluence.Reconcile.Settles.{Settled}
use docz.Confluence.Reconcile.Found.{in_space-eq_some, find_page-Shows}

-- The item's page keeps its parent, or the item has one.
abbrev pub HasParent : Options → Item → Text → Type 0
HasParent opts it parent_id =
    ((equal it.key parent_key && is_empty opts.folder) ≡ true) ⊎ (is_empty parent_id ≡ false)

pub of_else :
    {A : Type 0} (b : Bool) (x : A) {y z : A} → b ≡ false → (if b then x else y) ≡ z → y ≡ z
of_else true x e h = cc
of_else false x e h = h

pub attempt-eq_done :
    {S A : Type 0} (res : PageResult) (m : Answer A × S) (k : A → S → Outcome S) {res' : PageResult}
    {s' : S}
    → attempt res m k ≡ ((res', none), s')
    → (a : A) × (s1 : S) × (m ≡ (ok a, s1)) × (k a s1 ≡ ((res', none), s'))
unfolding attempt
attempt-eq_done res (ok a, s1) k h = (a, s1, refl, h)
attempt-eq_done res (failed e, s1) k h = absurd (some-none (ap (λ o. o.0.1) h))
  where
    some-none : some e ≢ none
    some-none k = cc

-- A call that only reads.
pub attempt-read_done :
    {S A : Type 0} (res : PageResult) (m : Answer A) (s : S) (k : A → S → Outcome S)
    {res' : PageResult} {s' : S}
    → attempt res (m, s) k ≡ ((res', none), s')
    → (a : A) × (m ≡ ok a) × (k a s ≡ ((res', none), s'))
unfolding attempt
attempt-read_done res (ok a) s k h = (a, refl, h)
attempt-read_done res (failed e) s k h = absurd (some-none (ap (λ o. o.0.1) h))
  where
    some-none : some e ≢ none
    some-none k = cc

pub concluded-eq_done :
    {S : Type 0} (res : PageResult) (m : Answer (Unit {0}) × S) {res' : PageResult} {s' : S}
    → concluded res m ≡ ((res', none), s')
    → m ≡ (ok tt, s')
unfolding concluded
concluded-eq_done res (ok tt, s1) h = ap (λ o. (ok tt, o.1)) h
concluded-eq_done res (failed e, s1) h = absurd (some-none (ap (λ o. o.0.1) h))
  where
    some-none : some e ≢ none
    some-none k = cc

module _ {S : Type 0} (client : Client S) (IsValid : S → Type 0) where
  Shows-IsStored :
      (space : Text) (s s1 s2 : S) (page : Page) (t : Target) (p : Property)
      → Shows client IsValid space s page s1
      → IsStored client IsValid t p s1 s2
      → Shows client IsValid space s page s2
  Shows-IsStored space s s1 s2 page t p shows set = record {
    valid = set.valid;
    by_id = λ id. set.by_id id ∙ shows.by_id id;
    by_title = set.by_title space page.title ∙ shows.by_title;
    in_space = shows.in_space;
  }

  Shows-by_id :
      (space : Text) (s s' : S) (page : Page)
      → Shows client IsValid space s page s'
      → client.page_by_id page.id s' ≡ ok (some page)
  Shows-by_id space s s' page shows =
      shows.by_id page.id ∙ rw ((equal_iff page.id page.id).1 refl) refl

module _ {S : Type 0} (client : Client S) (render : Item → Answer Rendered) (json : Json)
    (markers : Markers) (opts : Options) (IsValid : S → Type 0)
    (laws : IsStore client IsValid) where
  -- Behind a write of the page and of its property.
  pub written-Settled :
      (it : Item) (r : Rendered) (parent_id : Text) (s s1 s2 : S) (page : Page) (o : Option Page)
      (prop : Option Property) (anchors : List Anchor)
      → IsValid s
      → find_page client render json markers opts it.key r.title s ≡ ok o
      → ((p : Page) → o ≡ some p → p.id ≡ page.id)
      → Shows client IsValid opts.space_id s page s1
      → page.title ≡ r.title
      → page.parent_id ≡ wanted_parent client render json markers opts it page parent_id
      → 0 < page.version
      → write_property client render json markers opts page.id prop it r.hash page.version anchors
          s1
        ≡ (ok tt, s2)
      → Settled client render json markers opts it r parent_id s2
  unfolding write_property
  written-Settled it r parent_id s s1 s2 page o prop anchors valid found same shows title parent
        version wrote =
      let value =
        json.marshal (property_of client render json markers opts it r.hash page.version anchors) in
      let p = next_property client render json markers opts prop value in
      let set =
        laws.set page.id page p s1 s2 shows.valid
          (Shows-by_id client IsValid opts.space_id s s1 page shows) wrote in
      record {
        page = page;
        prop = set.stored;
        anchors = anchors;
        found =
            find_page-Shows client render json markers opts IsValid laws it.key r.title s s2 page o
              valid found same
              (Shows-IsStored client IsValid opts.space_id s s1 s2 page (page_target page.id) p
                shows set)
              title;
        read = ap (λ k. client.property (page_target page.id) k s2) (key_of prop value) ∙ set.read;
        value = set.has_value ∙ value_of prop value;
        has_title = title;
        has_parent = parent;
        has_version = version;
      }
    where
      key_of :
          (q : Option Property) (v : Text)
          → property_key ≡ (next_property client render json markers opts q v).key
      key_of none v = refl
      key_of (some q) v = refl

      value_of :
          (q : Option Property) (v : Text)
          → (next_property client render json markers opts q v).value ≡ v
      value_of none v = refl
      value_of (some q) v = refl

  -- What HasParent gives.
  pub parent_wanted :
      (it : Item) (parent_id : Text) (page : Page)
      → HasParent opts it parent_id
      → page.parent_id ≡ parent_id ⊎ is_empty parent_id ≡ true
      → page.parent_id ≡ wanted_parent client render json markers opts it page parent_id
  unfolding wanted_parent
  parent_wanted it parent_id page (inl own) h = rw own refl
  parent_wanted it parent_id page (inr some_parent) h = ground arith

  pub create-Settled :
      (it : Item) (r : Rendered) (parent_id : Text) (s : S) (res res' : PageResult) (s' : S)
      → IsValid s
      → opts.dry_run ≡ false
      → HasParent opts it parent_id
      → find_page client render json markers opts it.key r.title s ≡ ok none
      → create client render json markers opts it r parent_id res s ≡ ((res', none), s')
      → Settled client render json markers opts it r parent_id s'
  unfolding create
  create-Settled it r parent_id s res res' s' valid dry has_parent found h =
      let (page, s1, made, rest) = attempt-eq_done _ _ _ (of_else opts.dry_run _ dry h) in
      let is = laws.create _ s page s1 valid made in
      written-Settled it r parent_id s s1 s' page none none [] valid found
        (λ p q. absurd (none-some p q)) is.shows is.has_title
        (parent_wanted it parent_id page has_parent is.has_parent) is.has_version
        (concluded-eq_done (with_page (record res { action = created }) page)
          (write_property client render json markers opts page.id none it r.hash page.version [] s1)
          rest)
    where
      none-some : (p : Page) → none ≢ some p
      none-some p k = cc

  -- A page that findPage gives is one of the space, and is read by its id.
  pub find_page-read :
      (key title : Text) (s : S) (page : Page)
      → IsValid s
      → find_page client render json markers opts key title s ≡ ok (some page)
      → (client.page_by_id page.id s ≡ ok (some page)) × (page.space_id ≡ opts.space_id)
  unfolding find_page
  find_page-read key title s page valid h = elim (Bool-cases (is_empty id)) [
    | inl e ↦ by_title (rw e at h)
    | inr e ↦ remembered (bind-eq_ok _ _ (rw e at h))
  ]
    where
      id : Text
      id = or_empty (lookup key opts.pages)

      Goal : Type 0
      Goal = (client.page_by_id page.id s ≡ ok (some page)) × (page.space_id ≡ opts.space_id)

      by_title : client.find_page opts.space_id title s ≡ ok (some page) → Goal
      by_title k = let (a, b, c) = laws.title_read opts.space_id title s page valid k in (a, b)

      remembered :
          (x : Option Page) × (client.page_by_id id s ≡ ok x)
            × (or_by_title client render json markers opts title
                  (in_space client render json markers opts x)
                  s
                ≡ ok (some page))
          → Goal
      remembered (x, read, chosen) =
          elim (Option-cases (in_space client render json markers opts x)) [
            | inl n ↦ by_title (rw n at chosen)
            | inr (p, y) ↦
                let (usable, space) = in_space-eq_some client render json markers opts x p y in
                let same =
                  some-injective p page (ok-injective (some p) (some page) (rw y at chosen)) in
                let here = read ∙ ap ok usable in
                let own = laws.id_read id s p valid here in
                (
                  ap (λ i. client.page_by_id i s) (ap (λ (q : Page). q.id) (sym same) ∙ own)
                      ∙ here
                      ∙ ap (λ q. ok (some q)) same,
                  ap (λ (q : Page). q.space_id) (sym same) ∙ space,
                )
          ]
