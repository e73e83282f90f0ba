-- ===== src/Prelude/Pairs.antt =====
-- Relations between all the members of a list.
use mathlib.Core.List.{List, [], ◌∷◌, ◌++◌, reverse, reverse-cons}
use docz.Prelude.Lists.{All, All-append, All-append_left, All-append_right, All-weaken}

module _ {ℓ κ} {A : Type ℓ} (R : A → A → Type κ) where
  -- `R` holds of each member and every later one.
  abbrev pub AllPairs : List A → Type κ
  AllPairs [] = Unit
  AllPairs (x ∷ xs) = All (R x) xs × AllPairs xs

module _ {ℓ κ} {A : Type ℓ} (R : A → A → Type κ) where
  pub AllPairs-append :
      (xs ys : List A)
      → AllPairs R xs
      → AllPairs R ys
      → All (λ x. All (R x) ys) xs
      → AllPairs R (xs ++ ys)
  AllPairs-append [] ys hx hy h = hy
  AllPairs-append (x ∷ xs) ys (rx, hx) hy (r, h) =
      (All-append (R x) xs ys rx r, AllPairs-append xs ys hx hy h)

  pub AllPairs-unappend :
      (xs ys : List A)
      → AllPairs R (xs ++ ys)
      → AllPairs R xs × AllPairs R ys × All (λ x. All (R x) ys) xs
  AllPairs-unappend [] ys h = (tt, h, tt)
  AllPairs-unappend (x ∷ xs) ys (r, h) =
      let (hx, hy, across) = AllPairs-unappend xs ys h in
      ((All-append_left (R x) xs ys r, hx), hy, (All-append_right (R x) xs ys r, across))

module _ {ℓ κ} {A : Type ℓ} (P : A → Type κ) where
  pub All-reverse : (xs : List A) → All P xs → All P (reverse xs)
  All-reverse [] h = tt
  All-reverse (x ∷ xs) (p, h) =
      rw reverse-cons (All-append P (reverse xs) (x ∷ []) (All-reverse xs h) (p, tt))

module _ {ℓ κ} {A : Type ℓ} (R : A → A → Type κ) where
  pub AllPairs-reverse : (xs : List A) → AllPairs R xs → AllPairs (λ a b. R b a) (reverse xs)
  AllPairs-reverse [] h = tt
  AllPairs-reverse (x ∷ xs) (r, h) = rw reverse-cons (
      AllPairs-append (λ a b. R b a) (reverse xs) (x ∷ []) (AllPairs-reverse xs h) (tt, tt)
        (All-reverse (λ y. All (λ b. R b y) (x ∷ [])) xs
          (All-weaken (R x) (λ y. All (λ b. R b y) (x ∷ [])) (λ a p. (p, tt)) xs r)))

module _ {ℓ κ μ} {A : Type ℓ} (R : A → A → Type κ) (S : A → A → Type μ) where
  pub AllPairs-weaken : ((a b : A) → R a b → S a b) → (xs : List A) → AllPairs R xs → AllPairs S xs
  AllPairs-weaken f [] h = tt
  AllPairs-weaken f (x ∷ xs) (r, h) = (All-weaken (R x) (S x) (f x) xs r, AllPairs-weaken f xs h)
