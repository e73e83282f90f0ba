-- ===== src/Config/Access/Kept.antt =====
-- Which scopes normalizeAccess of pkg/doczcore/config/access.go keeps.
use docz.Prelude.{
  true, false, ◌||◌, ◌≡◌, ◌≢◌, ◌⊎◌, ◌↔◌, inl, inr, refl, sym, ◌∙◌, subst, List, [], ◌∷◌, ◌++◌, map,
  if◌then◌else◌, Bool-cases, is_empty, All,
}
use docz.Text.{Text, codes, equal, equal_iff}
use docz.Text.Trim.{trim_space}
use docz.Config.Paths.{among}
use docz.Config.Access.{normalize_from, normalize_access}

-- A text is in a list.
abbrev pub Among : Text → List Text → Type 0
Among t [] = ⊥
Among t (s ∷ ss) = (s ≡ t) ⊎ Among t ss

among-Among : (t : Text) (ss : List Text) → among t ss ≡ true → Among t ss
unfolding among
among-Among t [] h = cc
among-Among t (s ∷ ss) h = elim (Bool-cases (equal s t)) [
  | inl e ↦ inl ((equal_iff s t).0 e)
  | inr e ↦ inr (among-Among t ss (rw e at h))
]

Among-concat : (t u : Text) (ss : List Text) → Among t (ss ++ (u ∷ [])) ↔ (Among t ss ⊎ (u ≡ t))
Among-concat t u [] =
    (elim [ inl h ↦ inr h | inr h ↦ absurd h ], elim [ inl h ↦ absurd h | inr h ↦ inl h ])
Among-concat t u (s ∷ ss) =
    let (there, back) = Among-concat t u ss in
    (
      elim [ inl h ↦ inl (inl h) | inr h ↦ elim (there h) [ inl k ↦ inl (inr k) | inr k ↦ inr k ] ],
      elim [
        | inl h ↦ elim h [ inl k ↦ inl k | inr k ↦ inr (back (inl k)) ]
        | inr h ↦ inr (back (inr h))
      ],
    )

is_empty-nil : (s : Text) → is_empty s ≡ true → s ≡ []
is_empty-nil [] h = refl
is_empty-nil (c ∷ s) h = cc

module _ {R Before Is Nonempty Later : Type 0} where
  -- A member that is not added: it was there, or it may not be.
  passed_over :
      R ↔ (Before ⊎ (Nonempty × Later))
      → (Is → Nonempty → Before)
      → R ↔ (Before ⊎ (Nonempty × (Is ⊎ Later)))
  passed_over (there, back) known = (
    λ r. elim (there r) [ inl b ↦ inl b | inr q ↦ inr (q.0, inr q.1) ],
    elim [
      | inl b ↦ back (inl b)
      | inr (n, inl i) ↦ back (inl (known i n))
      | inr (n, inr l) ↦ back (inr (n, l))
    ],
  )

  -- A member that is added.
  taken_in :
      {With : Type 0}
      → R ↔ (With ⊎ (Nonempty × Later))
      → With ↔ (Before ⊎ Is)
      → (Is → Nonempty)
      → R ↔ (Before ⊎ (Nonempty × (Is ⊎ Later)))
  taken_in (there, back) (apart, joined) new = (
    λ r. elim (there r) [
      | inl w ↦ elim (apart w) [ inl b ↦ inl b | inr i ↦ inr (new i, inl i) ]
      | inr q ↦ inr (q.0, inr q.1)
    ],
    elim [
      | inl b ↦ back (inl (joined (inl b)))
      | inr (n, inl i) ↦ back (inl (joined (inr i)))
      | inr (n, inr l) ↦ back (inr (n, l))
    ],
  )

module _ (to_lower : Text → Text) where
  abbrev fold : Text → Text
  fold s = to_lower (trim_space s)

  -- The trimmed scopes in lower case that are not empty; if there is none, public:read.
  abbrev pub Kept : List Text → Text → Type 0
  Kept ss t =
      ((t ≢ []) × Among t (map fold ss)) ⊎ ((t ≡ codes "public:read") × All (λ s. fold s ≡ []) ss)

  normalize_from-Among :
      (t : Text) (scopes ss : List Text)
      → Among t (normalize_from to_lower scopes ss)
        ↔ (Among t scopes ⊎ ((t ≢ []) × Among t (map fold ss)))
  unfolding normalize_from
  normalize_from-Among t scopes [] = (λ h. inl h, elim [ inl h ↦ h | inr h ↦ absurd h.1 ])
  normalize_from-Among t scopes (s ∷ ss) =
      elim (Bool-cases (is_empty (fold s) || among (fold s) scopes)) [
        | inl e ↦ rw e (passed_over (normalize_from-Among t scopes ss) (known e))
        | inr e ↦ rw e (
            taken_in (normalize_from-Among t (scopes ++ (fold s ∷ [])) ss)
              (Among-concat t (fold s) scopes) (new e))
      ]
    where
      known :
          (is_empty (fold s) || among (fold s) scopes) ≡ true → fold s ≡ t → t ≢ [] → Among t scopes
      known e i n = elim (Bool-cases (is_empty (fold s))) [
        | inl k ↦ absurd (n (sym i ∙ is_empty-nil (fold s) k))
        | inr k ↦ subst (λ u. Among u scopes) i (among-Among (fold s) scopes (rw k at e))
      ]

      new : (is_empty (fold s) || among (fold s) scopes) ≡ false → fold s ≡ t → t ≢ []
      new e i n = absurd (filled (fold s) e (i ∙ n))
        where
          filled : (u : Text) → (is_empty u || among (fold s) scopes) ≡ false → u ≢ []
          filled [] h k = cc
          filled (c ∷ u) h k = cc

  all_empty :
      (ss : List Text)
      → ((t : Text) → ¬ ((t ≢ []) × Among t (map fold ss)))
      → All (λ s. fold s ≡ []) ss
  all_empty [] h = tt
  all_empty (s ∷ ss) h =
      (nil_of (fold s) (λ n. h (fold s) (n, inl refl)), all_empty ss (λ t (n, m). h t (n, inr m)))
    where
      nil_of : (u : Text) → ¬ (u ≢ []) → u ≡ []
      nil_of [] k = refl
      nil_of (c ∷ u) k = absurd (k (λ e. cc))

  all_empty-Among :
      (t : Text) (ss : List Text) → All (λ s. fold s ≡ []) ss → Among t (map fold ss) → t ≡ []
  all_empty-Among t [] h m = absurd m
  all_empty-Among t (s ∷ ss) (e, h) (inl i) = sym i ∙ e
  all_empty-Among t (s ∷ ss) (e, h) (inr m) = all_empty-Among t ss h m

  pub normalize_access-Kept :
      (ss : List Text) (t : Text) → Among t (normalize_access to_lower ss) ↔ Kept ss t
  unfolding normalize_access
  normalize_access-Kept ss t =
      go (normalize_from to_lower [] ss) (λ u. normalize_from-Among u [] ss)
    where
      go :
          (r : List Text)
          → ((u : Text) → Among u r ↔ (⊥ ⊎ ((u ≢ []) × Among u (map fold ss))))
          → Among t (if is_empty r then codes "public:read" ∷ [] else r) ↔ Kept ss t
      go [] h = (
        elim [ inl e ↦ inr (sym e, all_empty ss (λ u q. (h u).1 (inr q))) | inr e ↦ absurd e ],
        elim [ inl q ↦ absurd ((h t).1 (inr q)) | inr (e, _) ↦ inl (sym e) ],
      )
      go (u ∷ r) h = (
        λ m. elim ((h t).0 m) [ inl b ↦ absurd b | inr q ↦ inl q ],
        elim [
          | inl q ↦ (h t).1 (inr q)
          | inr (e, none_left) ↦ elim ((h u).0 (inl refl)) [
            | inl b ↦ absurd b
            | inr (n, m) ↦ absurd (n (all_empty-Among u ss none_left m))
          ]
        ],
      )
