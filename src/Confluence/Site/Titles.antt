-- ===== src/Confluence/Site/Titles.antt =====
-- The titles in the nodes of pkg/export/confluence/confluencetest/site.go: a space has at most one
-- node of a kind under a title.
use docz.Prelude.{
  Bool, true, false, ◌&&◌, ◌≡◌, ◌≢◌, inl, inr, refl, sym, ap, ◌∙◌, none, some, [], ◌∷◌, arith,
  Bool-cases, All, All-weaken,
}
use docz.Prelude.Pairs.{AllPairs}
use docz.Text.{Text, equal, equal_iff}
use docz.Text.Dict.{Dict, lookup, insert, All-lookup, All-insert}
use mathlib.Core.Option.{some-injective}
use docz.Confluence.Client.{Kind, page_type, folder_type}
use docz.Confluence.Site.{SiteNode, same_kind, holder}

abbrev pub titled : SiteNode → Kind → Text → Text → Bool
titled n kind space title =
    same_kind n.kind kind && equal n.page.space_id space && equal n.page.title title

abbrev pub clash : SiteNode → SiteNode → Bool
clash n m = titled n m.kind m.page.space_id m.page.title

same_kind_self : (k : Kind) → same_kind k k ≡ true
same_kind_self page_type = refl
same_kind_self folder_type = refl

same_kind_sym : (k l : Kind) → same_kind k l ≡ same_kind l k
same_kind_sym page_type page_type = refl
same_kind_sym page_type folder_type = refl
same_kind_sym folder_type page_type = refl
same_kind_sym folder_type folder_type = refl

pub same_kind-page : (k : Kind) → same_kind k page_type ≡ true → k ≡ page_type
same_kind-page page_type h = refl
same_kind-page folder_type h = cc

pub equal_refl : (t : Text) → equal t t ≡ true
equal_refl t = (equal_iff t t).1 refl

pub equal_sym : (s t : Text) → equal s t ≡ equal t s
equal_sym s t = ground (arith, equal_iff s t, equal_iff t s)

clash_self : (n : SiteNode) → clash n n ≡ true
clash_self n = rw (same_kind_self n.kind, equal_refl n.page.space_id, equal_refl n.page.title) refl

clash_sym : (n m : SiteNode) → clash n m ≡ clash m n
clash_sym n m =
    rw
      (
        same_kind_sym n.kind m.kind,
        equal_sym n.page.space_id m.page.space_id,
        equal_sym n.page.title m.page.title,
      )
      refl

-- Two entries with different keys, and different kinds, spaces or titles.
abbrev pub Apart : Text × SiteNode → Text × SiteNode → Type 0
Apart (i, n) (j, m) = (equal i j ≡ false) × (clash n m ≡ false)

abbrev pub Unclashed : Text → SiteNode → Text × SiteNode → Type 0
Unclashed k n (j, m) = equal j k ≡ false → clash m n ≡ false

pub insert-Apart :
    (k : Text) (n : SiteNode) (ns : Dict SiteNode)
    → All (Unclashed k n) ns
    → AllPairs Apart ns
    → AllPairs Apart (insert k n ns)
unfolding insert
insert-Apart k n [] u h = (tt, tt)
insert-Apart k n ((j, m) ∷ ns) (u, us) (a, h) = elim (Bool-cases (equal j k)) [
  | inl e ↦ rw e (behind ns a us e, h)
  | inr e ↦ rw e (All-insert (Apart (j, m)) k n ns a (e, u e), insert-Apart k n ns us h)
]
  where
    behind :
        (l : Dict SiteNode)
        → All (Apart (j, m)) l
        → All (Unclashed k n) l
        → equal j k ≡ true
        → All (Apart (k, n)) l
    behind [] b v e = tt
    behind ((i, o) ∷ l) ((b, c), bs) (v, vs) e =
        let away = ap (λ x. equal x i) (sym ((equal_iff j k).0 e)) ∙ b in
        ((away, clash_sym n o ∙ v (equal_sym i k ∙ away)), behind l bs vs e)

pub lookup-Unclashed :
    (k : Text) (n : SiteNode) (ns : Dict SiteNode)
    → AllPairs Apart ns
    → lookup k ns ≡ some n
    → All (Unclashed k n) ns
unfolding lookup
lookup-Unclashed k n [] h e = tt
lookup-Unclashed k n ((j, m) ∷ ns) (a, h) e = elim (Bool-cases (equal j k)) [
  | inl q ↦ (
    (λ r. absurd (true-ne-false (sym q ∙ r))),
    All-weaken (Apart (j, m)) (Unclashed k n) (away (some-injective m n (rw q at e))) ns a,
  )
  | inr q ↦ (
    (λ r. (All-lookup (Apart (j, m)) k n ns a (rw q at e)).1),
    lookup-Unclashed k n ns h (rw q at e),
  )
]
  where
    true-ne-false : true ≢ false
    true-ne-false r = cc

    away : m ≡ n → (f : Text × SiteNode) → Apart (j, m) f → Unclashed k n f
    away same (i, o) (b, c) r = ap (λ x. clash o x) (sym same) ∙ clash_sym o m ∙ c

pub holder-none :
    (ns : Dict SiteNode) (kind : Kind) (space title : Text)
    → holder ns kind space title ≡ none
    → All (λ e. titled e.1 kind space title ≡ false) ns
unfolding holder
holder-none [] kind space title h = tt
holder-none ((j, m) ∷ ns) kind space title h = elim (Bool-cases (titled m kind space title)) [
  | inl q ↦ absurd (some-none (rw q at h))
  | inr q ↦ (q, holder-none ns kind space title (rw q at h))
]
  where
    some-none : some m ≢ none
    some-none r = cc

pub holder-lookup :
    (k : Text) (n : SiteNode) (ns : Dict SiteNode)
    → AllPairs Apart ns
    → lookup k ns ≡ some n
    → holder ns n.kind n.page.space_id n.page.title ≡ some n
unfolding holder lookup
holder-lookup k n [] h e = cc
holder-lookup k n ((j, m) ∷ ns) (a, h) e = elim (Bool-cases (equal j k)) [
  | inl q ↦ let same = some-injective m n (rw q at e) in rw (sym same, clash_self m) refl
  | inr q ↦
      rw (All-lookup (Apart (j, m)) k n ns a (rw q at e)).1 (holder-lookup k n ns h (rw q at e))
]

pub holder-eq_some :
    (ns : Dict SiteNode) (kind : Kind) (space title : Text) (n : SiteNode)
    → AllPairs Apart ns
    → holder ns kind space title ≡ some n
    → (k : Text) × (lookup k ns ≡ some n) × (titled n kind space title ≡ true)
unfolding holder lookup
holder-eq_some [] kind space title n h e = cc
holder-eq_some ((j, m) ∷ ns) kind space title n (a, h) e =
    elim (Bool-cases (titled m kind space title)) [
      | inl q ↦
          let same = some-injective m n (rw q at e) in
          (j, rw (equal_refl j) (ap some same), ap (λ x. titled x kind space title) (sym same) ∙ q)
      | inr q ↦
          let (k, found, t) = holder-eq_some ns kind space title n h (rw q at e) in
          (k, rw (All-lookup (Apart (j, m)) k n ns a found).0 found, t)
    ]

pub titled-parts :
    (n : SiteNode) (kind : Kind) (space title : Text)
    → titled n kind space title ≡ true
    → (same_kind n.kind kind ≡ true) × (n.page.space_id ≡ space) × (n.page.title ≡ title)
titled-parts n kind space title h = (
  ground arith,
  (equal_iff n.page.space_id space).0 (ground arith),
  (equal_iff n.page.title title).0 (ground arith),
)
