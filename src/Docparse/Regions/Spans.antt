-- ===== src/Docparse/Regions/Spans.antt =====
-- What every document's regions are: spans of its lines, disjoint or nested.
use docz.Prelude.{
  ℕ, suc, ◌≤◌, ◌<◌, true, false, ◌≡◌, ◌⊎◌, inl, inr, List, [], ◌∷◌, ◌++◌, arith, Bool-cases, length,
  All, All-append, All-weaken,
}
use docz.Prelude.Pairs.{AllPairs, AllPairs-append, AllPairs-reverse, AllPairs-weaken, All-reverse}
use docz.Text.{Text}
use docz.Docparse.Markers.{markers}
use docz.Docparse.Markers.Order.{markers-Increasing}
use docz.Docparse.Regions.{
  Region, OpenStack, close_all, pair_all, paired, in_order, sift, sort_from, sort_regions,
  last_line, regions,
}
use docz.Docparse.Regions.Order.{regions-starts, sift-All, start_keys-IsSorted}
use docz.Docparse.Regions.Starts.{region_keys, Key}
use docz.Docparse.Regions.Stack.{EachOpen, EachOpen-weaken, Ending, close_all-All}
use docz.Docparse.Regions.Nesting.{new-IsValid, pair_all-IsValid}
use docz.Docparse.Regions.Laminar.{
  Within, Laminar, IsOrdered, Finished, Opened, IsValid, AllClear, Laminar-end, All-swap, Around,
  Around-stack, Around-Laminar,
}

-- The span is one of lines `1` to `last`; only a region that the end of the file closed may be a
-- single line.
abbrev pub InDocument : ℕ → Region → Type 0
InDocument last r =
    (1 ≤ r.first) × (r.first ≤ r.last) × (r.last ≤ last) × (r.closed ≡ true → r.first < r.last)

close_all-Laminar :
    (line : ℕ) (stack : OpenStack) → IsOrdered stack → AllPairs Laminar (close_all line stack)
unfolding close_all
close_all-Laminar line [] h = tt
close_all-Laminar line (o ∷ stack) (b, h) = (
  Around-Laminar line o (length stack) false (close_all line stack) (
      close_all-All (Around line o (length stack)) line stack
        (Around-stack line o (length stack) stack b)),
  close_all-Laminar line stack h,
)

-- The last region that a marker ended stands before the end, and what is open runs to the end.
paired-Laminar :
    (line : ℕ) (out : List Region) (stack : OpenStack)
    → IsValid (suc line) out stack
    → AllPairs Laminar (out ++ close_all line stack)
paired-Laminar line out stack v =
    AllPairs-append Laminar out (close_all line stack) v.apart
      (close_all-Laminar line stack v.ordered)
      (All-swap out (close_all line stack) (
        close_all-All (λ e. All (λ x. Laminar x e) out) line stack
          (EachOpen-weaken (AllClear out) (Ending (λ e. All (λ x. Laminar x e) out) line)
            (λ o d h c. Laminar-end (suc line) line out o d c (omega arith) v.finished h) stack
            v.clear)))

paired-InDocument :
    (line : ℕ) (out : List Region) (stack : OpenStack)
    → IsValid (suc line) out stack
    → All (InDocument line) (out ++ close_all line stack)
unfolding close_all
paired-InDocument line out stack v =
    All-append (InDocument line) out (close_all line stack)
      (All-weaken (Finished (suc line)) (InDocument line)
        (λ r h. (h.0, omega arith, omega arith, λ c. h.1)) out v.finished)
      (close_all-InDocument stack v.opened)
  where
    close_all-InDocument :
        (st : OpenStack)
        → EachOpen (Opened (suc line)) st
        → All (InDocument line) (close_all line st)
    close_all-InDocument [] h = tt
    close_all-InDocument (o ∷ st) (h, k) =
        ((h.0, omega arith, omega arith, λ c. cc), close_all-InDocument st k)

-- Sorting keeps what holds of all and of all pairs, whatever their order.
sort_from-All :
    (P : Region → Type 0) (rs done : List Region)
    → All P rs
    → All P done
    → All P (sort_from done rs)
unfolding sort_from
sort_from-All P [] done h k = k
sort_from-All P (r ∷ rs) done (p, h) k = sort_from-All P rs (sift r done) h (sift-All P r done p k)

Laminar-symm : (a b : Region) → Laminar a b → Laminar b a
Laminar-symm a b h = ground arith

sift-AllPairs :
    (r : Region) (ps : List Region)
    → All (Laminar r) ps
    → AllPairs Laminar ps
    → AllPairs Laminar (sift r ps)
unfolding sift
sift-AllPairs r [] h k = (tt, tt)
sift-AllPairs r (p ∷ ps) (h, hs) (k, ks) = elim (Bool-cases (in_order p r)) [
  | inl e ↦ rw e ((h, hs), (k, ks))
  | inr e ↦ rw e (sift-All (Laminar p) r ps (Laminar-symm r p h) k, sift-AllPairs r ps hs ks)
]

sort_from-AllPairs :
    (rs done : List Region)
    → AllPairs Laminar rs
    → AllPairs Laminar done
    → All (λ r. All (Laminar r) done) rs
    → AllPairs Laminar (sort_from done rs)
unfolding sort_from
sort_from-AllPairs [] done h k a = k
sort_from-AllPairs (r ∷ rs) done (h, hs) k (a, as') =
    sort_from-AllPairs rs (sift r done) hs (sift-AllPairs r done a k) (All-sift rs h as')
  where
    All-sift :
        (xs : List Region)
        → All (Laminar r) xs
        → All (λ x. All (Laminar x) done) xs
        → All (λ x. All (Laminar x) (sift r done)) xs
    All-sift [] u w = tt
    All-sift (x ∷ xs) (u, us) (w, ws) =
        (sift-All (Laminar x) r done (Laminar-symm r x u) w, All-sift xs us ws)

All-Laminar-nil : (rs : List Region) → All (λ r. All (Laminar r) []) rs
All-Laminar-nil [] = tt
All-Laminar-nil (r ∷ rs) = (tt, All-Laminar-nil rs)

sort_regions-Laminar : (rs : List Region) → AllPairs Laminar rs → AllPairs Laminar (sort_regions rs)
unfolding sort_regions
sort_regions-Laminar rs h =
    AllPairs-weaken (λ a b. Laminar b a) Laminar (λ a b. Laminar-symm b a) _
      (AllPairs-reverse Laminar (sort_from [] rs)
        (sort_from-AllPairs rs [] h tt (All-Laminar-nil rs)))

sort_regions-All : (P : Region → Type 0) (rs : List Region) → All P rs → All P (sort_regions rs)
unfolding sort_regions
sort_regions-All P rs h = All-reverse P (sort_from [] rs) (sort_from-All P rs [] h tt)

regions-IsValid :
    (content : Text)
    → IsValid
        (suc (last_line content))
        (pair_all ([], []) (markers content)).0
        (pair_all ([], []) (markers content)).1
unfolding last_line
regions-IsValid content =
    let (b, p) = markers-Increasing content in
    pair_all-IsValid 1 _ ([], []) (markers content) (omega arith) (omega arith) b p new-IsValid

-- Every region spans lines of the document, and a closed one has a line for each of its markers.
pub regions-InDocument : (content : Text) → All (InDocument (last_line content)) (regions content)
unfolding regions paired
regions-InDocument content =
    sort_regions-All (InDocument (last_line content)) _
      (paired-InDocument (last_line content) _ _ (regions-IsValid content))

regions-Laminar : (content : Text) → AllPairs Laminar (regions content)
unfolding regions paired
regions-Laminar content =
    sort_regions-Laminar _ (paired-Laminar (last_line content) _ _ (regions-IsValid content))

-- A region is followed by those within it, which are deeper, and by those behind it.
abbrev pub Follows : Region → Region → Type 0
Follows a b = (a.last < b.first) ⊎ Within a b

Follows-All :
    (last : ℕ) (r : Region) (rs : List Region)
    → All (λ (k : Key). r.first < k.1) (region_keys rs)
    → All (Laminar r) rs
    → All (InDocument last) rs
    → All (Follows r) rs
Follows-All last r [] h k d = tt
Follows-All last r (x ∷ rs) (h, hs) (k, ks) (d, ds) = (ground arith, Follows-All last r rs hs ks ds)

keys-Follows :
    (last : ℕ) (rs : List Region)
    → AllPairs (λ (j k : Key). j.1 < k.1) (region_keys rs)
    → AllPairs Laminar rs
    → All (InDocument last) rs
    → AllPairs Follows rs
keys-Follows last [] h k d = tt
keys-Follows last (r ∷ rs) (h, hs) (k, ks) (d, ds) =
    (Follows-All last r rs h k ds, keys-Follows last rs hs ks ds)

-- Of two regions the later one begins behind the end of the earlier one, or lies within it at a
-- greater depth.
pub regions-Follows : (content : Text) → AllPairs Follows (regions content)
regions-Follows content =
    keys-Follows (last_line content) (regions content)
      (rw (regions-starts content)
        (start_keys-IsSorted (markers content) (markers-Increasing content).1))
      (regions-Laminar content) (regions-InDocument content)
