-- ===== src/Confluence/Site/Valid.antt =====
-- What the writes of pkg/export/confluence/confluencetest/site.go keep of its nodes: each has its
-- own id, below the next one, and no title is taken twice.
use docz.Prelude.{
  ℕ, suc, ◌+◌, ◌<◌, false, ◌≡◌, ◌≢◌, inl, inr, refl, sym, ap, ◌∙◌, none, some, [], ◌∷◌, arith,
  Bool-cases, All, All-weaken,
}
use docz.Prelude.Pairs.{AllPairs}
use docz.Text.{Text, equal, equal_iff}
use docz.Text.Decimal.{itoa, value, value-itoa}
use docz.Text.Dict.{Dict, lookup, insert, All-lookup, All-insert}
use mathlib.Core.Option.{some-injective}
use docz.Confluence.Client.{Kind}
use docz.Confluence.Site.{SiteNode, Site, holder, current_page, with_node, fresh_id}
use docz.Confluence.Site.Titles.{
  titled, Apart, Unclashed, insert-Apart, lookup-Unclashed, holder-none,
}

abbrev pub HasId : Text × SiteNode → Type 0
HasId (i, n) = n.page.id ≡ i

abbrev pub Below : ℕ → Text × SiteNode → Type 0
Below next (i, n) = (m : ℕ) → next < m → equal i (itoa (100 + m)) ≡ false

pub record IsSite (s : Site) : Type 0 where
  pub has_id : All HasId s.nodes
  pub below : All (Below s.next_id) s.nodes
  pub apart : AllPairs Apart s.nodes

itoa-apart : (a b : ℕ) → a < b → equal (itoa a) (itoa b) ≡ false
itoa-apart a b h = elim (Bool-cases (equal (itoa a) (itoa b))) [
  | inl e ↦ absurd (
      less a b h
        (sym (value-itoa a) ∙ ap (value 0) ((equal_iff (itoa a) (itoa b)).0 e) ∙ value-itoa b))
  | inr e ↦ e
]
  where
    less : (x y : ℕ) → x < y → x ≢ y
    less x y p q = omega arith

-- The fresh id belongs to no node.
pub fresh_id-lookup : (s : Site) → IsSite s → lookup (fresh_id s) s.nodes ≡ none
unfolding fresh_id lookup
fresh_id-lookup s is = go s.nodes is.below
  where
    go :
        (ns : Dict SiteNode)
        → All (Below s.next_id) ns
        → lookup (itoa (100 + suc s.next_id)) ns ≡ none
    go [] h = refl
    go ((j, m) ∷ ns) (b, h) = rw (b (suc s.next_id) (omega arith)) (go ns h)

-- A node added under the fresh id, whose title is free.
pub added-IsSite :
    (s : Site) (n : SiteNode) (write : Text)
    → IsSite s
    → n.page.id ≡ fresh_id s
    → holder s.nodes n.kind n.page.space_id n.page.title ≡ none
    → IsSite (with_node s (fresh_id s) n (suc s.next_id) write)
unfolding fresh_id
added-IsSite s n write is own free = record {
  has_id = All-insert HasId _ n s.nodes is.has_id own;
  below =
      All-insert (Below (suc s.next_id)) _ n s.nodes
        (All-weaken (Below s.next_id) (Below (suc s.next_id)) (λ e b m h. b m (omega arith)) s.nodes
          is.below)
        (λ m h. itoa-apart (100 + suc s.next_id) (100 + m) (omega arith));
  apart =
      insert-Apart _ n s.nodes
        (All-weaken (λ e. titled e.1 n.kind n.page.space_id n.page.title ≡ false) (Unclashed _ n)
          (λ e t r. t) s.nodes (holder-none s.nodes n.kind n.page.space_id n.page.title free))
        is.apart;
}

-- A node changed in its place: it keeps its id, and its title is its own or free.
pub changed-IsSite :
    (s : Site) (id : Text) (old n : SiteNode) (write : Text)
    → IsSite s
    → lookup id s.nodes ≡ some old
    → n.page.id ≡ old.page.id
    → All (Unclashed id n) s.nodes
    → IsSite (with_node s id n s.next_id write)
changed-IsSite s id old n write is found own free = record {
  has_id =
      All-insert HasId id n s.nodes is.has_id
        (own ∙ All-lookup HasId id old s.nodes is.has_id found);
  below =
      All-insert (Below s.next_id) id n s.nodes is.below
        (All-lookup (Below s.next_id) id old s.nodes is.below found);
  apart = insert-Apart id n s.nodes free is.apart;
}

-- A node that keeps its kind, its space and its title.
pub same_title-Unclashed :
    (s : Site) (id : Text) (old n : SiteNode)
    → IsSite s
    → lookup id s.nodes ≡ some old
    → n.kind ≡ old.kind
    → n.page.space_id ≡ old.page.space_id
    → n.page.title ≡ old.page.title
    → All (Unclashed id n) s.nodes
same_title-Unclashed s id old n is found k sp t =
    All-weaken (Unclashed id old) (Unclashed id n) (λ e u r. rw (k, sp, t) (u r)) s.nodes
      (lookup-Unclashed id old s.nodes is.apart found)

-- A node replaced by one of the same kind, space, title and status.
abbrev pub SameFace : SiteNode → SiteNode → Type 0
SameFace n m = (n.page ≡ m.page) × (n.kind ≡ m.kind) × (n.current ≡ m.current)

pub current_page-face :
    (n m : SiteNode) → SameFace n m → current_page (some n) ≡ current_page (some m)
current_page-face n m (p, k, c) = rw (p, c) refl

pub holder-insert :
    (id : Text) (old n : SiteNode) (kind : Kind) (space title : Text) (ns : Dict SiteNode)
    → lookup id ns ≡ some old
    → SameFace n old
    → current_page (holder (insert id n ns) kind space title)
      ≡ current_page (holder ns kind space title)
unfolding holder insert lookup
holder-insert id old n kind space title [] h f = cc
holder-insert id old n kind space title ((j, m) ∷ ns) h f = elim (Bool-cases (equal j id)) [
  | inl e ↦ rw e (replaced (some-injective m old (rw e at h)))
  | inr e ↦ rw e (elim (Bool-cases (titled m kind space title)) [
    | inl q ↦ rw q refl
    | inr q ↦ rw q (holder-insert id old n kind space title ns (rw e at h) f)
  ])
]
  where
    replaced :
        m ≡ old
        → current_page (holder ((id, n) ∷ ns) kind space title)
          ≡ current_page (holder ((j, m) ∷ ns) kind space title)
    replaced q =
        let (p, k, c) = f in
        rw (q, p, k)
          (elim (Bool-cases (titled old kind space title)) [
            | inl y ↦ rw (y, c) refl
            | inr y ↦ rw y refl
          ])
