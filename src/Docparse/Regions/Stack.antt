-- ===== src/Docparse/Regions/Stack.antt =====
-- What holds of each open entry, with its depth, holds of the entries that `close` leaves and of
-- the regions that it ends.
use docz.Prelude.{
  ℕ, Bool, true, false, inl, inr, Option, none, some, List, [], ◌∷◌, Bool-cases, length, All,
}
use docz.Text.{Text, equal}
use docz.Docparse.Regions.{Region, OpenRegion, OpenStack, end_region, close, close_all, end_inner}

abbrev pub EachOpen : (OpenRegion → ℕ → Type 0) → OpenStack → Type 0
EachOpen P [] = Unit
EachOpen P (o ∷ stack) = P o (length stack) × EachOpen P stack

module _ (P Q : OpenRegion → ℕ → Type 0) where
  pub EachOpen-weaken :
      ((o : OpenRegion) (d : ℕ) → P o d → Q o d)
      → (stack : OpenStack) → EachOpen P stack
      → EachOpen Q stack
  EachOpen-weaken f [] h = tt
  EachOpen-weaken f (o ∷ stack) (p, h) = (f o (length stack) p, EachOpen-weaken f stack h)

module _ (P Q R : OpenRegion → ℕ → Type 0) where
  pub EachOpen-both :
      ((o : OpenRegion) (d : ℕ) → P o d → Q o d → R o d)
      → (stack : OpenStack) → EachOpen P stack
      → EachOpen Q stack
      → EachOpen R stack
  EachOpen-both f [] h k = tt
  EachOpen-both f (o ∷ stack) (p, h) (q, k) = (f o (length stack) p q, EachOpen-both f stack h k)

abbrev pub Outcome : Type 0
Outcome = Option (List Region × OpenStack)

-- of the stack that is left
abbrev pub Leaves : (OpenStack → Type 0) → Outcome → Type 0
Leaves P none = Unit
Leaves P (some (ended, left)) = P left

-- of the regions that are ended
abbrev pub Ends : (List Region → Type 0) → Outcome → Type 0
Ends P none = Unit
Ends P (some (ended, left)) = P ended

module _ (P : OpenStack → Type 0) where
  pub end_inner-Leaves : (r : Region) (c : Outcome) → Leaves P c → Leaves P (end_inner r c)
  end_inner-Leaves r none h = tt
  end_inner-Leaves r (some (ended, left)) h = h

-- A property of stacks that passes to the stack below the top is kept by `close`.
module _ (P : OpenStack → Type 0) (below : (o : OpenRegion) (s : OpenStack) → P (o ∷ s) → P s) where
  pub close-Leaves :
      (kind : Text) (line : ℕ) (stack : OpenStack) → P stack → Leaves P (close kind line stack)
  unfolding close
  close-Leaves kind line [] h = tt
  close-Leaves kind line (o ∷ stack) h = elim (Bool-cases (equal o.kind kind)) [
    | inl e ↦ rw e (below o stack h)
    | inr e ↦ rw e (
        end_inner-Leaves P _ (close kind line stack)
          (close-Leaves kind line stack (below o stack h)))
  ]

module _ (P : OpenRegion → ℕ → Type 0) where
  pub close-EachOpen :
      (kind : Text) (line : ℕ) (stack : OpenStack)
      → EachOpen P stack
      → Leaves (EachOpen P) (close kind line stack)
  close-EachOpen = close-Leaves (EachOpen P) (λ o s h. h.1)

-- A region ended at `line` is one of these.
abbrev pub Ending : (Region → Type 0) → ℕ → OpenRegion → ℕ → Type 0
Ending Q line o d = (c : Bool) → Q (end_region o d line c)

module _ (Q : Region → Type 0) where
  end_inner-Ends : (r : Region) (c : Outcome) → Q r → Ends (All Q) c → Ends (All Q) (end_inner r c)
  end_inner-Ends r none q h = tt
  end_inner-Ends r (some (ended, left)) q h = (q, h)

  pub close-Ends :
      (kind : Text) (line : ℕ) (stack : OpenStack)
      → EachOpen (Ending Q line) stack
      → Ends (All Q) (close kind line stack)
  unfolding close
  close-Ends kind line [] h = tt
  close-Ends kind line (o ∷ stack) (q, h) = elim (Bool-cases (equal o.kind kind)) [
    | inl e ↦ rw e (q true, tt)
    | inr e ↦
        rw e (end_inner-Ends _ (close kind line stack) (q false) (close-Ends kind line stack h))
  ]

  pub close_all-All :
      (line : ℕ) (stack : OpenStack) → EachOpen (Ending Q line) stack → All Q (close_all line stack)
  unfolding close_all
  close_all-All line [] h = tt
  close_all-All line (o ∷ stack) (q, h) = (q false, close_all-All line stack h)
