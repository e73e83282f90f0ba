-- ===== src/Docparse/Regions/Laminar.antt =====
-- How two spans of pkg/doczcore/docparse/regions.go may lie to each other, and what an end marker
-- adds to them.
use docz.Prelude.{
  ℕ, suc, ◌≤◌, ◌<◌, Bool, true, false, ◌≡◌, ◌⊎◌, inl, inr, refl, none, some, List, [], ◌∷◌, arith,
  Bool-cases, length, All, All-weaken,
}
use docz.Prelude.Pairs.{AllPairs}
use docz.Text.{Text, equal}
use docz.Docparse.Markers.{Marker}
use docz.Docparse.Markers.Order.{Before, Between}
use docz.Docparse.Regions.{Region, OpenRegion, OpenStack, end_region, close, end_inner}
use docz.Docparse.Regions.Stack.{
  EachOpen, EachOpen-weaken, EachOpen-both, Outcome, Leaves, Ends, close-EachOpen, Ending,
  close-Ends,
}

-- The markers behind `m` stand on later lines.
pub Between-Before :
    (m : Marker) (hi n : ℕ) (ms : List Marker)
    → All (Between n hi) ms
    → All (Before m) ms
    → All (Between (suc m.line) hi) ms
Between-Before m hi n [] h k = tt
Between-Before m hi n (x ∷ ms) (b, bs) (p, ps) = ((p, b.1), Between-Before m hi n ms bs ps)

-- `b` lies within `a`, at a greater depth.
abbrev pub Within : Region → Region → Type 0
Within a b = (a.first < b.first) × (b.last ≤ a.last) × (a.depth < b.depth)

-- Two regions are disjoint, or one lies within the other.
abbrev pub Laminar : Region → Region → Type 0
Laminar a b = (a.last < b.first) ⊎ ((b.last < a.first) ⊎ (Within a b ⊎ Within b a))

-- The entry below is older and less deep.
abbrev pub Below : OpenRegion → ℕ → OpenRegion → ℕ → Type 0
Below o d p e = (p.first < o.first) × (e < d)

abbrev pub IsOrdered : OpenStack → Type 0
IsOrdered [] = Unit
IsOrdered (o ∷ stack) = EachOpen (Below o (length stack)) stack × IsOrdered stack

-- A finished region ended before an open entry began, or lies in it.
abbrev pub Clear : Region → OpenRegion → ℕ → Type 0
Clear r o d = (r.last < o.first) ⊎ ((o.first < r.first) × (d < r.depth))

abbrev pub AllClear : List Region → OpenRegion → ℕ → Type 0
AllClear out o d = All (λ r. Clear r o d) out

-- The span of a region that ended before line `n`.
abbrev pub Finished : ℕ → Region → Type 0
Finished n r = (1 ≤ r.first) × (r.first < r.last) × (r.last < n)

abbrev pub Opened : ℕ → OpenRegion → ℕ → Type 0
Opened n o d = (1 ≤ o.first) × (o.first < n)

-- The state of the loop when all the markers read stand before line `n`.
pub record IsValid (n : ℕ) (out : List Region) (stack : OpenStack) : Type 0 where
  pub finished : All (Finished n) out
  pub apart : AllPairs Laminar out
  pub opened : EachOpen (Opened n) stack
  pub ordered : IsOrdered stack
  pub clear : EachOpen (AllClear out) stack

pub Laminar-end :
    (n line : ℕ) (out : List Region) (o : OpenRegion) (d : ℕ) (c : Bool)
    → n ≤ suc line
    → All (Finished n) out
    → AllClear out o d
    → All (λ r. Laminar r (end_region o d line c)) out
Laminar-end n line [] o d c le h k = tt
Laminar-end n line (r ∷ out) o d c le (f, h) (k, ks) =
    (ground arith, Laminar-end n line out o d c le h ks)

-- The regions that `close` ends, one against another and against the entries that are left.
abbrev pub EndsApart : Outcome → Type 0
EndsApart = Ends (AllPairs Laminar)

abbrev pub EndsClear : Outcome → Type 0
EndsClear none = Unit
EndsClear (some (ended, left)) = EachOpen (AllClear ended) left

-- Regions ended at `line` by entries older and less deep than `o`.
abbrev pub Around : ℕ → OpenRegion → ℕ → Region → Type 0
Around line o d e = (e.first < o.first) × (e.depth < d) × (e.last ≡ line)

pub Around-stack :
    (line : ℕ) (o : OpenRegion) (d : ℕ) (stack : OpenStack)
    → EachOpen (Below o d) stack
    → EachOpen (Ending (Around line o d) line) stack
Around-stack line o d =
    EachOpen-weaken (Below o d) (Ending (Around line o d) line) λ p e h c. (h.0, h.1, refl)

pub Around-Laminar :
    (line : ℕ) (o : OpenRegion) (d : ℕ) (c : Bool) (ended : List Region)
    → All (Around line o d) ended
    → All (Laminar (end_region o d line c)) ended
Around-Laminar line o d c =
    All-weaken (Around line o d) (Laminar (end_region o d line c)) λ e h. ground arith

pub end_inner-EndsApart :
    (line : ℕ) (o : OpenRegion) (d : ℕ) (r : Outcome)
    → Ends (All (Around line o d)) r
    → EndsApart r
    → EndsApart (end_inner (end_region o d line false) r)
end_inner-EndsApart line o d none a h = tt
end_inner-EndsApart line o d (some (ended, left)) a h = (Around-Laminar line o d false ended a, h)

pub close-EndsApart :
    (kind : Text) (line : ℕ) (stack : OpenStack)
    → IsOrdered stack
    → EndsApart (close kind line stack)
unfolding close
close-EndsApart kind line [] h = tt
close-EndsApart kind line (o ∷ stack) (b, h) = elim (Bool-cases (equal o.kind kind)) [
  | inl e ↦ rw e (tt, tt)
  | inr e ↦ rw e (
      end_inner-EndsApart line o (length stack) (close kind line stack)
        (close-Ends (Around line o (length stack)) kind line stack
          (Around-stack line o (length stack) stack b))
        (close-EndsApart kind line stack h))
]

pub end_inner-EndsClear :
    (line : ℕ) (o : OpenRegion) (d : ℕ) (c : Bool) (r : Outcome)
    → Leaves (EachOpen (Below o d)) r
    → EndsClear r
    → EndsClear (end_inner (end_region o d line c) r)
end_inner-EndsClear line o d c none b h = tt
end_inner-EndsClear line o d c (some (ended, left)) b h =
    EachOpen-both (Below o d) (AllClear ended) (AllClear (end_region o d line c ∷ ended))
      (λ p e below clear. (inr below, clear)) left b h

pub close-EndsClear :
    (kind : Text) (line : ℕ) (stack : OpenStack)
    → IsOrdered stack
    → EndsClear (close kind line stack)
unfolding close
close-EndsClear kind line [] h = tt
close-EndsClear kind line (o ∷ stack) (b, h) = elim (Bool-cases (equal o.kind kind)) [
  | inl e ↦ rw e (
      EachOpen-weaken (Below o (length stack))
        (AllClear (end_region o (length stack) line true ∷ [])) (λ p e below. (inr below, tt)) stack
        b)
  | inr e ↦ rw e (
      end_inner-EndsClear line o (length stack) false (close kind line stack)
        (close-EachOpen (Below o (length stack)) kind line stack b)
        (close-EndsClear kind line stack h))
]

pub All-swap :
    (out ended : List Region)
    → All (λ e. All (λ r. Laminar r e) out) ended
    → All (λ r. All (Laminar r) ended) out
All-swap [] ended h = tt
All-swap (r ∷ out) ended h = (
  All-weaken (λ e. All (λ r. Laminar r e) (r ∷ out)) (Laminar r) (λ e k. k.0) ended h,
  All-swap out ended (
      All-weaken (λ e. All (λ r. Laminar r e) (r ∷ out)) (λ e. All (λ r. Laminar r e) out)
        (λ e k. k.1) ended h),
)
