-- ===== src/Confluence/Run/Results.antt =====
-- The results of a reconciliation of pkg/export/confluence/reconcile.go, and those of a run of
-- pkg/export/confluence/export.go.
use docz.Prelude.{
  Bool, true, false, ◌≡◌, ◌≢◌, ◌⊎◌, inl, inr, refl, Option, none, some, List, if◌then◌else◌,
}
use docz.Text.{Text}
use docz.Confluence.Client.{ExportError, Answer, ok, failed, Page, Property, Client}
use docz.Confluence.Reconcile.{
  Item, Rendered, PageProperty, Anchor, Comments, Action, none_yet, created, updated, unchanged,
  skipped, archived, broken, PageResult, Options, Json, Markers, Outcome, Decision, decide, done,
  attempt, concluded, create, update, update_carried, act, wanted, is_foreign, judged,
  reconcile_page, on_page, rendered_result, first_result, with_page, reconcile,
}
use docz.Confluence.Reconcile.Again.{decide_action}

-- The actions that a reconciliation can report without an error.
abbrev pub acted : Action → Bool
acted created = true
acted updated = true
acted unchanged = true
acted skipped = true
acted none_yet = false
acted archived = false
acted broken = false

-- The result has the item's key and, beside no error, an action.
pub record Reports {S : Type 0} (key : Text) (o : Outcome S) : Type 0 where
  pub has_key : o.0.0.key ≡ key
  pub has_action : o.0.1 ≡ none → acted o.0.0.action ≡ true

with_error :
    {S : Type 0} (key : Text) (res : PageResult) (e : ExportError) (s : S)
    → res.key ≡ key
    → Reports key ((res, some e), s)
with_error key res e s h = record { has_key = h; has_action = λ n. absurd (some-none n) }
  where
    some-none : some e ≢ none
    some-none n = cc

without_error :
    {S : Type 0} (key : Text) (res : PageResult) (s : S)
    → res.key ≡ key
    → acted res.action ≡ true
    → Reports key (done res s)
without_error key res s h a = record { has_key = h; has_action = λ n. a }

attempt-Reports :
    {S A : Type 0} (key : Text) (res : PageResult) (m : Answer A × S) (k : A → S → Outcome S)
    → res.key ≡ key
    → ((a : A) (s : S) → Reports key (k a s))
    → Reports key (attempt res m k)
unfolding attempt
attempt-Reports key res (ok a, s) k h f = f a s
attempt-Reports key res (failed e, s) k h f = with_error key res e s h

concluded-Reports :
    {S : Type 0} (key : Text) (res : PageResult) (m : Answer (Unit {0}) × S)
    → res.key ≡ key
    → acted res.action ≡ true
    → Reports key (concluded res m)
unfolding concluded
concluded-Reports key res (ok u, s) h a = without_error key res s h a
concluded-Reports key res (failed e, s) h a = with_error key res e s h

if-Reports :
    {S : Type 0} (key : Text) (b : Bool) (x y : Outcome S)
    → Reports key x
    → Reports key y
    → Reports key (if b then x else y)
if-Reports key true x y h k = h
if-Reports key false x y h k = k

module _ {S : Type 0} (client : Client S) (render : Item → Answer Rendered) (json : Json)
    (markers : Markers) (opts : Options) where
  update_carried-Reports :
      (it : Item) (r : Rendered) (page : Page) (prop : Option Property) (parent_id : Text)
      (res : PageResult) (c : Text × Comments × List Anchor) (s : S)
      → acted res.action ≡ true
      → Reports res.key
          (update_carried client render json markers opts it r page prop parent_id res c s)
  update_carried-Reports it r page prop parent_id res (body, comments, anchors) s a =
      if-Reports res.key opts.dry_run _ _ (without_error res.key _ _ refl a)
        (attempt-Reports res.key _ _ _ refl (λ page2 s1. concluded-Reports res.key _ _ refl a))

  act-Reports :
      (it : Item) (r : Rendered) (page : Page) (prop : Option Property) (stored : PageProperty)
      (parent_id : Text) (res : PageResult) (d : Decision) (s : S)
      → (d.action ≡ updated) ⊎ ((d.action ≡ unchanged) ⊎ (d.action ≡ skipped))
      → Reports res.key
          (act client render json markers opts it r page prop stored parent_id res d s)
  unfolding update
  act-Reports it r page prop stored parent_id res d s (inl a) = rw a (
      attempt-Reports res.key _ _ _ refl (λ c s1.
        update_carried-Reports it r page prop parent_id
          (record res { edited = d.edited; action = updated }) c s1 refl))
  act-Reports it r page prop stored parent_id res d s (inr (inl a)) =
      rw a (without_error res.key _ _ refl refl)
  act-Reports it r page prop stored parent_id res d s (inr (inr a)) =
      rw a (without_error res.key _ _ refl refl)

  judged-Reports :
      (it : Item) (r : Rendered) (page : Page) (parent_id : Text) (res : PageResult)
      (prop : Option Property) (stored : PageProperty) (s : S)
      → Reports res.key
          (judged client render json markers opts it r page parent_id res (prop, stored) s)
  judged-Reports it r page parent_id res prop stored s =
      if-Reports res.key (is_foreign client render json markers opts prop stored) _ _
        (without_error res.key _ _ refl refl)
        (act-Reports it r page prop stored parent_id res
          (decide prop stored page (wanted client render json markers opts r parent_id) opts) s
          (decide_action opts prop stored page _))

  on_page-Reports :
      (it : Item) (r : Rendered) (parent_id : Text) (res : PageResult) (o : Option Page) (s : S)
      → Reports res.key (on_page client render json markers opts it r parent_id res o s)
  unfolding create reconcile_page
  on_page-Reports it r parent_id res none s =
      if-Reports res.key opts.dry_run _ _ (without_error res.key _ _ refl refl)
        (attempt-Reports res.key _ _ _ refl (λ page s1. concluded-Reports res.key _ _ refl refl))
  on_page-Reports it r parent_id res (some page) s =
      attempt-Reports res.key _ _ _ refl
        (λ (prop, stored) s1. judged-Reports it r page _ (with_page res page) prop stored s1)

  pub reconcile-Reports :
      (it : Item) (parent_id : Text) (s : S)
      → Reports it.key (reconcile client render json markers opts it parent_id s)
  unfolding reconcile
  reconcile-Reports it parent_id s = attempt-Reports it.key (first_result it) _ _ refl λ r s1.
      attempt-Reports it.key (rendered_result it r) _ _ refl
        λ o s2. on_page-Reports it r parent_id (rendered_result it r) o s2
