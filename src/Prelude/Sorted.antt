-- ===== src/Prelude/Sorted.antt =====
-- A list in weak order and a list in strict order that hold the same members are the same list.
use mathlib.Core.Path.{◌≡◌, ap₂, sym, subst}
use mathlib.Core.Logic.Or
use mathlib.Core.List.{List, [], ◌∷◌, Mem, Perm, mem-cons, mem-cons_self, not-mem-nil}
use mathlib.Core.List.Perm
use Prim.Native.Nat.{ℕ, ◌≤◌, ◌<◌}
use native.Mathlib.Omega.{arith}
use native.Mathlib.Bridge.{le_prop}
use docz.Prelude.Lists.{All}
use docz.Prelude.Pairs.{AllPairs}

module _ {ℓ κ} {A : Type ℓ} (P : A → Type κ) (prop : (a : A) → IsProp (P a)) where
  pub All-mem : {a : A} (xs : List A) → All P xs → Mem a xs → P a
  All-mem [] h m = absurd (not-mem-nil m)
  All-mem {a} (x ∷ xs) h m =
      Or.elim (prop a) (mem-cons.0 m) (λ e. subst P (sym e) h.0) (All-mem xs h.1)

module _ {ℓ} {A : Type ℓ} (key : A → ℕ) (set : IsSet A) where
  heads_eq :
      (a b : A) (l r : List A)
      → All (λ x. key a ≤ key x) l
      → All (λ x. key b < key x) r
      → Perm (a ∷ l) (b ∷ r)
      → a ≡ b
  heads_eq a b l r ha hb p =
      Or.elim (set a b) (mem-cons.0 ((Perm.mem_iff p).0 mem-cons_self)) (λ e. e)
        λ m. Or.elim (set a b) (mem-cons.0 ((Perm.mem_iff p).1 mem-cons_self)) sym λ n. absurd (
          omega (
            arith,
            All-mem (λ x. key b < key x) (λ x. le_prop) r hb m,
            All-mem (λ x. key a ≤ key x) (λ x. le_prop) l ha n,
          ))

  pub eq_of_perm_sorted :
      (l r : List A)
      → AllPairs (λ x y. key x ≤ key y) l
      → AllPairs (λ x y. key x < key y) r
      → Perm l r
      → l ≡ r
  eq_of_perm_sorted [] r sl sr p = Perm.nil-eq p
  eq_of_perm_sorted (a ∷ l) [] sl sr p = Perm.eq-nil p
  eq_of_perm_sorted (a ∷ l) (b ∷ r) sl sr p =
      let e = heads_eq a b l r sl.0 sr.0 p in
      let tails = Perm.cons_inv (Perm.trans p (Perm.symm (Perm.cons' e Perm.rfl))) in
      ap₂ ◌∷◌ e (eq_of_perm_sorted l r sl.1 sr.1 tails)
