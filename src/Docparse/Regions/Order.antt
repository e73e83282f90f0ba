-- ===== src/Docparse/Regions/Order.antt =====
-- Regions come back in document order, one for each start marker.
use docz.Prelude.{
  ℕ, ◌≤◌, ◌<◌, true, false, ◌≡◌, inl, inr, refl, ap, List, [], ◌∷◌, ◌++◌, append-nil, map, arith,
  Bool-cases, All, All-weaken,
}
use docz.Prelude.Pairs.{AllPairs, AllPairs-reverse}
use docz.Text.{Text}
use mathlib.Core.List.{reverse_perm, Perm, perm_middle}
use mathlib.Core.List.Perm
use native.Mathlib.Nat.{ℕ_set}
use docz.Prelude.Sorted.{eq_of_perm_sorted}
use docz.Docparse.Markers.{Role, start, finish, Marker, markers}
use docz.Docparse.Markers.Order.{Before, markers-Increasing}
use docz.Docparse.Regions.{Region, regions, in_order, sift, sort_from, sort_regions, last_line}
use docz.Docparse.Regions.Starts.{Key, region_key, region_keys, start_key, start_keys, paired-perm}

-- Sorting.
sift-perm : (r : Region) (ps : List Region) → Perm (sift r ps) (r ∷ ps)
unfolding sift
sift-perm r [] = Perm.rfl
sift-perm r (p ∷ ps) = elim (Bool-cases (in_order p r)) [
  | inl e ↦ rw e Perm.rfl
  | inr e ↦ rw e (Perm.trans (Perm.cons p (sift-perm r ps)) (Perm.swap r p ps))
]

sort_from-perm : (rs done : List Region) → Perm (sort_from done rs) (rs ++ done)
unfolding sort_from
sort_from-perm [] done = Perm.rfl
sort_from-perm (r ∷ rs) done =
    Perm.trans (sort_from-perm rs (sift r done))
      (Perm.trans (Perm.append_left rs (sift-perm r done)) (perm_middle rs done))

pub sort_regions-perm : (rs : List Region) → Perm (sort_regions rs) rs
unfolding sort_regions
sort_regions-perm rs =
    Perm.trans (reverse_perm (sort_from [] rs)) (rw (append-nil rs) at (sort_from-perm rs []))

-- The sorted part stands with its last entry first.
abbrev Descending : List Region → Type 0
Descending = AllPairs (λ a b. b.first ≤ a.first)

in_order-le : (a b : Region) → in_order a b ≡ true → a.first ≤ b.first
unfolding in_order
in_order-le a b h = ground arith

in_order-le_of_false : (a b : Region) → in_order a b ≡ false → b.first ≤ a.first
unfolding in_order
in_order-le_of_false a b h = ground arith

pub sift-All :
    (P : Region → Type 0) (r : Region) (ps : List Region) → P r → All P ps → All P (sift r ps)
unfolding sift
sift-All P r [] hr h = (hr, tt)
sift-All P r (p ∷ ps) hr (hp, h) = elim (Bool-cases (in_order p r)) [
  | inl e ↦ rw e (hr, (hp, h))
  | inr e ↦ rw e (hp, sift-All P r ps hr h)
]

sift-Descending : (r : Region) (ps : List Region) → Descending ps → Descending (sift r ps)
unfolding sift
sift-Descending r [] h = (tt, tt)
sift-Descending r (p ∷ ps) (hp, h) = elim (Bool-cases (in_order p r)) [
  | inl e ↦
      let le = in_order-le p r e in
      rw e (
        (
          le,
          All-weaken (λ q. q.first ≤ p.first) (λ q. q.first ≤ r.first) (λ q x. omega arith) ps hp,
        ),
        (hp, h),
      )
  | inr e ↦ rw e (
    sift-All (λ q. q.first ≤ p.first) r ps (in_order-le_of_false p r e) hp,
    sift-Descending r ps h,
  )
]

sort_from-Descending : (rs done : List Region) → Descending done → Descending (sort_from done rs)
unfolding sort_from
sort_from-Descending [] done h = h
sort_from-Descending (r ∷ rs) done h =
    sort_from-Descending rs (sift r done) (sift-Descending r done h)

-- The regions come back in the order of their first lines.
pub sort_regions-IsSorted :
    (rs : List Region) → AllPairs (λ a b. a.first ≤ b.first) (sort_regions rs)
unfolding sort_regions
sort_regions-IsSorted rs =
    AllPairs-reverse (λ a b. b.first ≤ a.first) (sort_from [] rs) (sort_from-Descending rs [] tt)

region_keys-All :
    (n : ℕ) (rs : List Region) → All (λ r. n ≤ r.first) rs → All (λ k. n ≤ k.1) (region_keys rs)
region_keys-All n [] h = tt
region_keys-All n (r ∷ rs) (p, h) = (p, region_keys-All n rs h)

region_keys-IsSorted :
    (rs : List Region)
    → AllPairs (λ a b. a.first ≤ b.first) rs
    → AllPairs (λ j k. j.1 ≤ k.1) (region_keys rs)
region_keys-IsSorted [] h = tt
region_keys-IsSorted (r ∷ rs) (p, h) = (region_keys-All r.first rs p, region_keys-IsSorted rs h)

start_key-All :
    (n : ℕ) (m : Marker) (role : Role) (ks : List Key)
    → n < m.line
    → All (λ k. n < k.1) ks
    → All (λ k. n < k.1) (start_key m role ks)
start_key-All n m start ks lt h = (lt, h)
start_key-All n m finish ks lt h = h

start_keys-All :
    (n : ℕ) (ms : List Marker) → All (λ m. n < m.line) ms → All (λ k. n < k.1) (start_keys ms)
start_keys-All n [] h = tt
start_keys-All n (m ∷ ms) (lt, h) =
    start_key-All n m m.role (start_keys ms) lt (start_keys-All n ms h)

start_key-AllPairs :
    (m : Marker) (role : Role) (ks : List Key)
    → All (λ k. m.line < k.1) ks
    → AllPairs (λ (j k : Key). j.1 < k.1) ks
    → AllPairs (λ (j k : Key). j.1 < k.1) (start_key m role ks)
start_key-AllPairs m start ks a h = (a, h)
start_key-AllPairs m finish ks a h = h

pub start_keys-IsSorted :
    (ms : List Marker) → AllPairs Before ms → AllPairs (λ (j k : Key). j.1 < k.1) (start_keys ms)
start_keys-IsSorted [] h = tt
start_keys-IsSorted (m ∷ ms) (b, h) =
    start_key-AllPairs m m.role (start_keys ms) (start_keys-All m.line ms b)
      (start_keys-IsSorted ms h)

Key-set : IsSet Key
Key-set = hlevel ℕ_set

region_keys-map : (rs : List Region) → region_keys rs ≡ map region_key rs
region_keys-map [] = refl
region_keys-map (r ∷ rs) = ap (◌∷◌ (region_key r)) (region_keys-map rs)

region_keys-perm : (xs ys : List Region) → Perm xs ys → Perm (region_keys xs) (region_keys ys)
region_keys-perm xs ys p = rw (region_keys-map xs, region_keys-map ys) (Perm.map region_key p)

-- The regions, in the order returned, have exactly the kinds and the first lines of the start
-- markers, in the order of the markers.
pub regions-starts : (content : Text) → region_keys (regions content) ≡ start_keys (markers content)
unfolding regions
regions-starts content =
    eq_of_perm_sorted (λ (k : Key). k.1) Key-set _ _
      (region_keys-IsSorted _ (sort_regions-IsSorted _))
      (start_keys-IsSorted (markers content) (markers-Increasing content).1)
      (Perm.trans (region_keys-perm _ _ (sort_regions-perm _))
        (paired-perm (markers content) (last_line content)))
