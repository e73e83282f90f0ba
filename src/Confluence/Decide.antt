-- ===== src/Confluence/Decide.antt =====
-- What to do with a page that is there: decide of pkg/export/confluence/reconcile.go, and the
-- small functions beside it.
use docz.Prelude.{
  Bool, true, false, not, ◌&&◌, ◌||◌, Option, none, some, List, [], ◌∷◌, ◌++◌, map, ltb, ◌==◌,
  if◌then◌else◌, is_empty, take,
}
use docz.Text.{Text, codes, equal, cut_prefix}
use docz.Text.Decimal.{itoa}
use docz.Confluence.Client.{Page, Property, InlineComment}
use docz.Confluence.Pages.{
  Item, Anchor, PageProperty, Action, Edit, Options, updated, unchanged, skipped,
}

-- (pageProperty).owned
unfoldable pub owned : PageProperty → Text → Bool
owned p repo = is_empty p.repo || equal p.repo repo

-- (pageProperty).valid
unfoldable pub valid : PageProperty → Bool
valid p = not (is_empty p.id) && ltb 0 p.version

pub record Want : Type 0 where
  pub hash : Text
  pub parent_id : Text
  pub title : Text

pub record Decision : Type 0 where
  pub action : Action
  pub reason : Text
  pub edited : Option Edit

abbrev pub decided : Action → Decision
decided a = record { action = a; reason = []; edited = none }

-- editOf
unfoldable pub edit_of : Bool → PageProperty → Page → Option Edit
edit_of ours stored page =
    if not ours || stored.version == page.version
    then none
    else some (record { version = page.version; expected = stored.version })

abbrev pub edited_reason : Page → PageProperty → Text
edited_reason page stored =
    codes "edited in Confluence (v"
    ++ (itoa page.version ++ (codes ", expected v" ++ (itoa stored.version ++ codes ")")))

abbrev pub is_some {ℓ} : {A : Type ℓ} → Option A → Bool
is_some none = false
is_some (some a) = true

-- The page is ours and as the item wants it.
unfoldable pub is_same : Bool → PageProperty → Page → Want → Bool
is_same ours stored page w =
    ours && equal stored.hash w.hash && equal page.parent_id w.parent_id && equal page.title w.title

-- The cases of decide, on its three computed values.
unfoldable pub decide_cases : Options → Bool → Bool → Bool → Option Edit → Text → Decision
decide_cases opts has_prop ours same edited reason =
    if opts.force && same && not (is_some edited)
    then decided unchanged
    else if opts.force
    then record { action = updated; reason = []; edited = edited }
    else if not has_prop
    then record (decided skipped) { reason = codes "not docz's page" }
    else if not ours
    then record (decided skipped) {
      reason = codes "its docz property was not written by docz export";
    }
    else if is_some edited && opts.overwrite
    then record { action = updated; reason = []; edited = edited }
    else if is_some edited
    then record { action = skipped; reason = reason; edited = edited }
    else if same
    then decided unchanged
    else decided updated

-- decide
unfoldable pub decide : Option Property → PageProperty → Page → Want → Options → Decision
decide prop stored page w opts =
    let ours = is_some prop && valid stored in
    decide_cases opts (is_some prop) ours (is_same ours stored page w) (edit_of ours stored page)
      (edited_reason page stored)

-- missing
unfoldable pub has_ref : Text → List Anchor → Bool
has_ref ref [] = false
has_ref ref (b ∷ bs) = equal b.ref ref || has_ref ref bs

unfoldable pub missing : List Anchor → List Anchor → List Anchor
missing [] bs = []
missing (a ∷ rest) bs = let later = missing rest bs in if has_ref a.ref bs then later else a ∷ later

unfoldable pub is_listed : Text → List InlineComment → Bool
is_listed ref [] = false
is_listed ref (c ∷ cs) = equal c.ref ref || is_listed ref cs

-- slices.DeleteFunc of listed
unfoldable pub still_listed : List InlineComment → List Anchor → List Anchor
still_listed cs [] = []
still_listed cs (a ∷ rest) =
    let later = still_listed cs rest in if is_listed a.ref cs then a ∷ later else later

abbrev pub texts : List Anchor → List Text
texts = map (λ (a : Anchor). a.quote)

-- syncMessage
unfoldable pub sync_message : Item → Text → Text
sync_message it hash =
    let digest : Text = elim (cut_prefix hash (codes "sha256:")) [
      | none ↦ hash
      | some rest ↦ rest
    ] in
    codes "docz sync " ++ (it.key ++ (b' ' ∷ take 12 digest))
