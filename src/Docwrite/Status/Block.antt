-- ===== src/Docwrite/Status/Block.antt =====
-- The frontmatter block that frontmatterBounds of pkg/doczcore/docwrite/status.go finds.
use docz.Prelude.{
  ℕ, ◌+◌, ◌≤◌, true, false, ◌≡◌, ◌≢◌, ◌⊎◌, inl, inr, refl, sym, ap, ◌∙◌, subst, Option, none, some,
  [], ◌∷◌, ◌++◌, arith, ◌==◌, ==_iff, Bool-cases, length,
}
use docz.Text.{Text, codes, cut_prefix, cut_prefix-append, cut_prefix-eq_some}
use docz.Docwrite.Status.{closes, longer, find_close}
use docz.Docwrite.Status.Bare.{cons-injective}

-- The end of the text or of the line.
abbrev pub EndsHere : Text → Type 0
EndsHere t = (t ≡ []) ⊎ ((u : Text) × (t ≡ b'\n' ∷ u))

-- The text begins with the newline in front of a closing line.
abbrev pub IsClosing : Text → Type 0
IsClosing s = (t : Text) × (s ≡ codes "\n---" ++ t) × EndsHere t

-- The block ends where the first closing line begins.
pub record Closes (sub block rest : Text) : Type 0 where
  pub splits : sub ≡ block ++ rest
  pub inner : Text
  pub ends_line : block ≡ inner ++ (b'\n' ∷ [])
  pub closing : IsClosing (b'\n' ∷ rest)
  pub is_first :
      (front behind : Text)
      → sub ≡ front ++ behind
      → IsClosing behind
      → length block ≤ length front + 1

closes-IsClosing : (s : Text) → closes s ≡ true → IsClosing s
unfolding closes
closes-IsClosing s h = go (cut_prefix s (codes "\n---")) refl h
  where
    go :
        (o : Option Text)
        → cut_prefix s (codes "\n---") ≡ o
        → elim o [ none ↦ false | some [] ↦ true | some (c ∷ _) ↦ c == b'\n' ] ≡ true
        → IsClosing s
    go none e k = cc
    go (some []) e k = ([], cut_prefix-eq_some s (codes "\n---") [] e, inl refl)
    go (some (c ∷ t)) e k = (
      c ∷ t,
      cut_prefix-eq_some s (codes "\n---") (c ∷ t) e,
      inr (t, ap (λ d. d ∷ t) ((==_iff c b'\n').0 k)),
    )

IsClosing-closes : (s : Text) → IsClosing s → closes s ≡ true
unfolding closes
IsClosing-closes s (t, e, h) =
    let cut = ap (λ x. cut_prefix x (codes "\n---")) e ∙ cut_prefix-append (codes "\n---") t in
    rw (closes, cut) (last t h)
  where
    last :
        (x : Text)
        → EndsHere x
        → elim (some x) [ none ↦ false | some [] ↦ true | some (c ∷ _) ↦ c == b'\n' ] ≡ true
    last [] k = refl
    last (c ∷ x) (inl k) = cc
    last (c ∷ x) (inr (u, k)) = (==_iff c b'\n').1 (ap head_of k)
      where
        head_of : Text → ℕ
        head_of [] = c
        head_of (d ∷ r) = d

abbrev pub ClosesIn : Text → Option (Text × Text) → Type 0
ClosesIn s none = Unit
ClosesIn s (some (block, rest)) = Closes s block rest

Closes-now : (c : ℕ) (s : Text) → IsClosing (c ∷ s) → Closes (c ∷ s) (c ∷ []) s
Closes-now c s (t, e, h) =
    let (newline, _) = cons-injective c b'\n' s (codes "---" ++ t) e in
    record {
      splits = refl;
      inner = [];
      ends_line = ap (λ d. d ∷ []) newline;
      closing = (t, ap (λ d. d ∷ s) (sym newline) ∙ e, h);
      is_first = λ front behind k n. omega arith;
    }

Closes-later :
    (c : ℕ) (s block rest : Text)
    → ¬ (IsClosing (c ∷ s))
    → Closes s block rest
    → Closes (c ∷ s) (c ∷ block) rest
Closes-later c s block rest not_here h = record {
  splits = ap (◌∷◌ c) h.splits;
  inner = c ∷ h.inner;
  ends_line = ap (◌∷◌ c) h.ends_line;
  closing = h.closing;
  is_first = first;
}
  where
    first :
        (front behind : Text)
        → c ∷ s ≡ front ++ behind
        → IsClosing behind
        → length (c ∷ block) ≤ length front + 1
    first [] behind e k = absurd (not_here (subst IsClosing (sym e) k))
    first (x ∷ front) behind e k =
        let shorter = h.is_first front behind (cons-injective c x s (front ++ behind) e).1 k in
        omega (arith, shorter)

pub find_close-Closes : (s : Text) → ClosesIn s (find_close s)
unfolding find_close
find_close-Closes [] = tt
find_close-Closes (c ∷ s) = elim (Bool-cases (closes (c ∷ s))) [
  | inl e ↦ rw e (Closes-now c s (closes-IsClosing (c ∷ s) e))
  | inr e ↦ rw e (one_more (not_closing e) (find_close s) (find_close-Closes s))
]
  where
    not_closing : closes (c ∷ s) ≡ false → ¬ (IsClosing (c ∷ s))
    not_closing e k = clash (sym (IsClosing-closes (c ∷ s) k) ∙ e)
      where
        clash : true ≢ false
        clash q = cc

    one_more :
        ¬ (IsClosing (c ∷ s))
        → (o : Option (Text × Text)) → ClosesIn s o
        → ClosesIn (c ∷ s) (longer c o)
    one_more n none h = tt
    one_more n (some (block, rest)) h = Closes-later c s block rest n h
