-- ===== src/Toc/First.antt =====
-- The region that tocRegion of pkg/doczcore/toc/toc.go takes.
use docz.Prelude.{
  Bool, true, false, ◌≡◌, ◌≢◌, ◌⊎◌, inl, inr, refl, ap, subst, Option, none, some, List, [], ◌∷◌,
  ◌++◌, arith, if◌then◌else◌, Bool-cases, All, All-append_right,
}
use docz.Text.{codes, equal, equal_iff}
use docz.Docparse.Regions.{Region}
use docz.Toc.{first_toc}

-- The first region of kind toc.
pub record IsFirstToc (rs : List Region) (r : Region) : Type 0 where
  pub before : List Region
  pub after : List Region
  pub splits : rs ≡ before ++ r ∷ after
  pub none_before : All (λ x. x.kind ≢ codes "toc") before
  pub is_toc : r.kind ≡ codes "toc"

abbrev pub Tocless : List Region → Type 0
Tocless rs = All (λ x. x.kind ≢ codes "toc") rs

IsFirstToc-later :
    (x : Region) (rs : List Region) (r : Region)
    → x.kind ≢ codes "toc"
    → IsFirstToc rs r
    → IsFirstToc (x ∷ rs) r
IsFirstToc-later x rs r other h = record {
  before = x ∷ h.before;
  after = h.after;
  splits = ap (◌∷◌ x) h.splits;
  none_before = (other, h.none_before);
  is_toc = h.is_toc;
}

-- first_toc gives the first toc region if it is closed, and otherwise none.
pub first_toc-cases :
    (rs : List Region)
    → (Tocless rs × (first_toc rs ≡ none))
      ⊎ ((r : Region) × IsFirstToc rs r × (first_toc rs ≡ (if r.closed then some r else none)))
unfolding first_toc
first_toc-cases [] = inl (tt, refl)
first_toc-cases (x ∷ rs) = elim (Bool-cases (equal x.kind (codes "toc"))) [
  | inl e ↦ inr (
    x,
    record {
      before = [];
      after = rs;
      splits = refl;
      none_before = tt;
      is_toc = (equal_iff x.kind (codes "toc")).0 e;
    },
    rw e refl,
  )
  | inr e ↦
      let other = not_toc e in
      elim (first_toc-cases rs) [
        | inl (all_other, h) ↦ inl ((other, all_other), rw e h)
        | inr (r, first, h) ↦ inr (r, IsFirstToc-later x rs r other first, rw e h)
      ]
]
  where
    not_toc : equal x.kind (codes "toc") ≡ false → x.kind ≢ codes "toc"
    not_toc e k = ground (arith, (equal_iff x.kind (codes "toc")).1 k)

pub IsFirstToc-All :
    (P : Region → Type 0) (rs : List Region) (r : Region) → IsFirstToc rs r → All P rs → P r
IsFirstToc-All P rs r first h =
    (All-append_right P first.before (r ∷ first.after) (subst (All P) first.splits h)).0

pub chosen :
    {o : Option Region} (r : Region) (closed : Bool)
    → o ≡ (if closed then some r else none)
    → closed ≡ true
    → o ≡ some r
chosen r true h e = h
chosen r false h e = cc

pub rejected :
    {o : Option Region} (r : Region) (closed : Bool)
    → o ≡ (if closed then some r else none)
    → closed ≡ false
    → o ≡ none
rejected r true h e = cc
rejected r false h e = h
