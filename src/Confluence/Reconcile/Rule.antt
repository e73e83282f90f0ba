-- ===== src/Confluence/Reconcile/Rule.antt =====
-- When decide of pkg/export/confluence/reconcile.go gives each action.
use docz.Prelude.{
  ◌<◌, Bool, true, false, not, ◌&&◌, ◌||◌, ◌≡◌, ◌≢◌, ◌⊎◌, ◌↔◌, inl, inr, refl, Option, none, some,
  [], ◌∷◌, arith, ◌==◌, ==_iff, ltb, if◌then◌else◌, Bool-cases, is_empty,
}
use docz.Text.{Text, equal, equal_iff}
use docz.Confluence.Client.{Page, Property}
use docz.Confluence.Reconcile.{
  PageProperty, Action, updated, unchanged, skipped, Options, valid, Want, edit_of, is_some,
  is_same, decide_cases, decide,
}
use docz.Confluence.Reconcile.Protects.{is_ours}

-- The page has a docz property, which names an item and a version.
abbrev pub IsOurs : Option Property → PageProperty → Type 0
IsOurs prop stored = (prop ≢ none) × (stored.id ≢ []) × (0 < stored.version)

abbrev pub AsWanted : PageProperty → Page → Want → Type 0
AsWanted stored page w =
    (stored.hash ≡ w.hash) × (page.parent_id ≡ w.parent_id) × (page.title ≡ w.title)

is_some_iff : (prop : Option Property) → (is_some prop ≡ true) ↔ (prop ≢ none)
is_some_iff none = (λ h. cc, λ h. absurd (h refl))
is_some_iff (some p) = (λ h e. cc, λ h. refl)

filled_iff : (s : Text) → (not (is_empty s) ≡ true) ↔ (s ≢ [])
filled_iff [] = (λ h. cc, λ h. absurd (h refl))
filled_iff (c ∷ s) = (λ h e. cc, λ h. refl)

and_iff : (a b : Bool) → ((a && b) ≡ true) ↔ ((a ≡ true) × (b ≡ true))
and_iff a b = ground arith

is_ours_iff :
    (prop : Option Property) (stored : PageProperty)
    → (is_ours prop stored ≡ true) ↔ IsOurs prop stored
unfolding valid
is_ours_iff prop stored =
    let (a, b) = and_iff (is_some prop) (not (is_empty stored.id) && ltb 0 stored.version) in
    let (c, d) = and_iff (not (is_empty stored.id)) (ltb 0 stored.version) in
    let (e, f) = is_some_iff prop in
    let (g, k) = filled_iff stored.id in
    (
      λ h. (e (a h).0, g (c (a h).1).0, positive (c (a h).1).1),
      λ (h, i, v). b (f h, d (k i, ground arith)),
    )
  where
    positive : ltb 0 stored.version ≡ true → 0 < stored.version
    positive h = ground arith

abbrev same_text : PageProperty → Page → Want → Bool
same_text stored page w =
    equal stored.hash w.hash && (equal page.parent_id w.parent_id && equal page.title w.title)

same_text_iff :
    (stored : PageProperty) (page : Page) (w : Want)
    → (same_text stored page w ≡ true) ↔ AsWanted stored page w
same_text_iff stored page w =
    let (a, b) =
      and_iff (equal stored.hash w.hash)
        (equal page.parent_id w.parent_id && equal page.title w.title) in
    let (c, d) = and_iff (equal page.parent_id w.parent_id) (equal page.title w.title) in
    (
      λ h. (
        (equal_iff _ _).0 (a h).0,
        (equal_iff _ _).0 (c (a h).1).0,
        (equal_iff _ _).0 (c (a h).1).1,
      ),
      λ (h, p, t). b ((equal_iff _ _).1 h, d ((equal_iff _ _).1 p, (equal_iff _ _).1 t)),
    )

-- The action on the computed tests.
abbrev action_of : Bool → Bool → Bool → Bool → Bool → Action
action_of force overwrite ours same current =
    if force || (ours && (current || overwrite))
    then if ours && same && current then unchanged else updated
    else skipped

decide-action_of :
    (prop : Option Property) (stored : PageProperty) (page : Page) (w : Want) (opts : Options)
    → (decide prop stored page w opts).action
      ≡ action_of opts.force opts.overwrite
          (is_ours prop stored)
          (same_text stored page w)
          (stored.version == page.version)
unfolding decide decide_cases is_same edit_of
decide-action_of prop stored page w opts = ground arith

action_of-unchanged :
    (force overwrite ours same current : Bool)
    → (action_of force overwrite ours same current ≡ unchanged)
      ↔ ((ours ≡ true) × (current ≡ true) × (same ≡ true))
action_of-unchanged force overwrite ours same current = ground arith

action_of-skipped :
    (force overwrite ours same current : Bool)
    → (action_of force overwrite ours same current ≡ skipped)
      ↔ ((force ≡ false) × ((ours ≡ false) ⊎ ((current ≡ false) × (overwrite ≡ false))))
action_of-skipped force overwrite ours same current = ground arith

action_of-cases :
    (force overwrite ours same current : Bool)
    → let a = action_of force overwrite ours same current in
      (a ≡ unchanged) ⊎ ((a ≡ skipped) ⊎ (a ≡ updated))
action_of-cases force overwrite ours same current = ground arith

decide-edited :
    (prop : Option Property) (stored : PageProperty) (page : Page) (w : Want) (opts : Options)
    → (decide prop stored page w opts).edited ≡ edit_of (is_ours prop stored) stored page
unfolding decide decide_cases is_same edit_of
decide-edited prop stored page w opts = ground arith

false_iff : {P : Type 0} (b : Bool) → (b ≡ true) ↔ P → (b ≡ false) ↔ (¬ P)
false_iff true (there, back) = (λ h. cc, λ n. absurd (n (there refl)))
false_iff false (there, back) = (λ h p. absurd (false-ne-true (back p)), λ n. refl)
  where
    false-ne-true : false ≢ true
    false-ne-true h = cc

edit_of_iff :
    (ours : Bool) (stored : PageProperty) (page : Page)
    → (edit_of ours stored page ≢ none)
      ↔ ((ours ≡ true) × ((stored.version == page.version) ≡ false))
unfolding edit_of
edit_of_iff ours stored page = elim (Bool-cases (not ours || stored.version == page.version)) [
  | inl e ↦ rw e (λ h. absurd (h refl), λ (a, b). absurd (clash a b e))
  | inr e ↦ rw e (λ h. (ground arith, ground arith), λ h k. cc)
]
  where
    clash :
        ours ≡ true
        → (stored.version == page.version) ≡ false
        → (not ours || stored.version == page.version) ≡ true
        → ⊥
    clash a b e = ground arith

-- decide leaves a page unchanged exactly when it has a docz property that names an item and a version,
-- its version is the one that was stored, and its hash, parent and title are as wanted. It skips a
-- page exactly when Force is not set and the page has no such property, or its version is another and
-- Overwrite is not set. It updates all others. It reports an edit exactly when the page has such a
-- property and another version than the one that was stored.
pub decide-rule :
    (prop : Option Property) (stored : PageProperty) (page : Page) (w : Want) (opts : Options)
    → let d = decide prop stored page w opts in
      ((d.action ≡ unchanged)
        ↔ (IsOurs prop stored × (stored.version ≡ page.version) × AsWanted stored page w))
      × ((d.action ≡ skipped) ↔ (
          (opts.force ≡ false)
          × ((¬ (IsOurs prop stored))
              ⊎ ((stored.version ≢ page.version) × (opts.overwrite ≡ false)))))
      × ((d.action ≡ unchanged) ⊎ ((d.action ≡ skipped) ⊎ (d.action ≡ updated)))
      × ((d.edited ≢ none) ↔ (IsOurs prop stored × (stored.version ≢ page.version)))
decide-rule prop stored page w opts =
    let force = opts.force in
    let overwrite = opts.overwrite in
    let ours = is_ours prop stored in
    let same = same_text stored page w in
    let current = stored.version == page.version in
    let (a, b) = is_ours_iff prop stored in
    let (c, d) = ==_iff stored.version page.version in
    let (e, f) = same_text_iff stored page w in
    let (foreign, not_ours) = false_iff ours (a, b) in
    let (moved, other) = false_iff current (c, d) in
    rw (decide-action_of prop stored page w opts, decide-edited prop stored page w opts)
      (
        (
          λ h.
              let (i, j, k) = (action_of-unchanged force overwrite ours same current).0 h in
              (a i, c j, e k),
          λ (i, j, k). (action_of-unchanged force overwrite ours same current).1 (b i, d j, f k),
        ),
        (
          λ h.
              let (i, j) = (action_of-skipped force overwrite ours same current).0 h in
              (i, elim j [ inl k ↦ inl (foreign k) | inr (k, l) ↦ inr (moved k, l) ]),
          λ (i, j).
              (action_of-skipped force overwrite ours same current).1
                (i, elim j [ inl k ↦ inl (not_ours k) | inr (k, l) ↦ inr (other k, l) ]),
        ),
        action_of-cases force overwrite ours same current,
        (
          λ h. let (i, j) = (edit_of_iff ours stored page).0 h in (a i, moved j),
          λ (i, j). (edit_of_iff ours stored page).1 (b i, other j),
        ),
      )
