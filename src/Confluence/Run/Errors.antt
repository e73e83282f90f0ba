-- ===== src/Confluence/Run/Errors.antt =====
-- The report and the error of a run of pkg/export/confluence/export.go.
use docz.Prelude.{
  Bool, true, false, ◌≡◌, inl, inr, refl, sym, ap, ◌∙◌, Option, none, some, List, [], ◌∷◌, ◌++◌,
  append-nil, append_assoc, map, if◌then◌else◌, Bool-cases,
}
use docz.Text.{Text}
use mathlib.Core.List.{map-append}
use docz.Confluence.Client.{ExportError, Answer, Client}
use docz.Confluence.Reconcile.{
  Item, Rendered, Action, none_yet, created, updated, unchanged, skipped, archived, broken,
  PageResult, Options, Json, Markers, Outcome, reconcile,
}
use docz.Confluence.Run.{Run, parent_of, record_result, or_first, failed_result, recorded, pages}
use docz.Confluence.Run.Results.{acted, Reports, reconcile-Reports}

abbrev pub is_broken : Action → Bool
is_broken broken = true
is_broken _ = false

-- The title of the first result that failed.
unfoldable pub first_broken : List PageResult → Option Text
first_broken [] = none
first_broken (res ∷ rest) =
    let later = first_broken rest in if is_broken res.action then some res.title else later

abbrev pub error_title : Option (Text × ExportError) → Option Text
error_title none = none
error_title (some (title, e)) = some title

-- The run's error is that of the first result that failed.
abbrev pub Consistent : Run → Type 0
Consistent run = error_title run.first_err ≡ first_broken run.pages

abbrev pub or_later : Option Text → Option Text → Option Text
or_later none b = b
or_later (some a) b = some a

first_broken-append :
    (a b : List PageResult) → first_broken (a ++ b) ≡ or_later (first_broken a) (first_broken b)
unfolding first_broken
first_broken-append [] b = refl
first_broken-append (r ∷ a) b = elim (Bool-cases (is_broken r.action)) [
  | inl e ↦ rw e refl
  | inr e ↦ rw e (first_broken-append a b)
]

acted-is_broken : (a : Action) → acted a ≡ true → is_broken a ≡ false
acted-is_broken none_yet h = cc
acted-is_broken created h = refl
acted-is_broken updated h = refl
acted-is_broken unchanged h = refl
acted-is_broken skipped h = refl
acted-is_broken archived h = cc
acted-is_broken broken h = cc

or_later-none : (o : Option Text) → or_later o none ≡ o
or_later-none none = refl
or_later-none (some t) = refl

error_title-or_first :
    (o : Option (Text × ExportError)) (e : Text × ExportError)
    → error_title (or_first o e) ≡ or_later (error_title o) (some e.0)
error_title-or_first none e = refl
error_title-or_first (some first) e = refl

pub if-Consistent :
    {S : Type 0} (b : Bool) (x y : Run × S)
    → Consistent x.0
    → Consistent y.0
    → Consistent (if b then x else y).0
if-Consistent true x y h k = h
if-Consistent false x y h k = k

pub record_result-Consistent :
    (describe : ExportError → Text) (res : PageResult) (err : Option ExportError) (run : Run)
    → (err ≡ none → is_broken res.action ≡ false)
    → Consistent run
    → Consistent (record_result describe res err run)
unfolding record_result first_broken
record_result-Consistent describe res none run h c =
    c
    ∙ sym (or_later-none (first_broken run.pages))
    ∙ sym (first_broken-append run.pages (res ∷ []) ∙ rw (h refl) refl)
record_result-Consistent describe res (some e) run h c =
    error_title-or_first run.first_err (res.title, e)
    ∙ ap (λ o. or_later o (some res.title)) c
    ∙ sym (first_broken-append run.pages (failed_result describe res e ∷ []))

module _ {S : Type 0} (client : Client S) (render : Item → Answer Rendered) (json : Json)
    (markers : Markers) (describe : ExportError → Text) (opts : Options) where
  recorded-Consistent :
      (key : Text) (run : Run) (o : Outcome S)
      → Reports key o
      → Consistent run
      → Consistent (recorded client render json markers describe opts run o).0
  recorded-Consistent key run ((res, err), s) h c =
      record_result-Consistent describe res err
        (record run { page_ids = run.page_ids ++ (res.page_id ∷ []) })
        (λ n. acted-is_broken res.action (h.has_action n)) c

  pub pages-Consistent :
      (items : List Item) (run : Run) (s : S)
      → Consistent run
      → Consistent (pages client render json markers describe opts items run s).0
  unfolding pages
  pages-Consistent [] run s c = c
  pages-Consistent (it ∷ items) run s c = pages-Consistent items _ _ (
      recorded-Consistent it.key run
        (reconcile client render json markers opts it (parent_of run it.parent) s)
        (reconcile-Reports client render json markers opts it (parent_of run it.parent) s) c)

  -- One result for each item, in order, under its key.
  recorded-key :
      (key : Text) (run : Run) (o : Outcome S)
      → Reports key o
      → map
          (λ (r : PageResult). r.key)
          (recorded client render json markers describe opts run o).0.pages
        ≡ map (λ (r : PageResult). r.key) run.pages ++ (key ∷ [])
  unfolding record_result
  recorded-key key run ((res, none), s) h =
      map-append (λ (r : PageResult). r.key) run.pages (res ∷ [])
      ∙ ap (λ k. map (λ (r : PageResult). r.key) run.pages ++ (k ∷ [])) h.has_key
  recorded-key key run ((res, some e), s) h =
      map-append (λ (r : PageResult). r.key) run.pages (failed_result describe res e ∷ [])
      ∙ ap (λ k. map (λ (r : PageResult). r.key) run.pages ++ (k ∷ [])) h.has_key

  -- A run's pages report one result for each item of the plan, in the plan's order and under the
  -- item's key, behind the results that were there, whatever the client and the renderer answer.
  pub pages-keys :
      (items : List Item) (run : Run) (s : S)
      → map
          (λ (r : PageResult). r.key)
          (pages client render json markers describe opts items run s).0.pages
        ≡ map (λ (r : PageResult). r.key) run.pages ++ map (λ (i : Item). i.key) items
  unfolding pages
  pages-keys [] run s = sym (append-nil (map (λ (r : PageResult). r.key) run.pages))
  pages-keys (it ∷ items) run s =
      pages-keys items _ _
      ∙ ap (λ l. l ++ map (λ (i : Item). i.key) items)
          (recorded-key it.key run
            (reconcile client render json markers opts it (parent_of run it.parent) s)
            (reconcile-Reports client render json markers opts it (parent_of run it.parent) s))
      ∙ append_assoc (map (λ (r : PageResult). r.key) run.pages) (it.key ∷ [])
          (map (λ (i : Item). i.key) items)
