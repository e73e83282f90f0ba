-- ===== src/Config/Access/Grammar.antt =====
-- The grammar of a scope, and that ValidateScope of pkg/doczcore/config/access.go accepts exactly it.
use docz.Prelude.{
  ℕ, ◌≤◌, Bool, true, false, ◌&&◌, ◌||◌, ◌≡◌, ◌↔◌, ◌⊎◌, inl, inr, refl, sym, ap, ◌∙◌, subst, Option,
  none, some, [], ◌∷◌, ◌++◌, arith, ◌==◌, ==_iff, Bool-cases, length, All, All-weaken,
}
use mathlib.Core.Option.{some-injective}
use docz.Text.{Text, codes, equal, equal_iff}
use docz.Config.Access.{
  before_cut, cut, is_label, all_label, is_audience, validate_parts, validate_scope,
}

abbrev pub IsLabel : ℕ → Type 0
IsLabel c = ((b'a' ≤ c) × (c ≤ b'z')) ⊎ ((b'0' ≤ c) × (c ≤ b'9'))

-- An audience, a colon and an action. The audience is a letter or digit and at most 62 letters,
-- digits and dashes; the action is "read", but for the one scope that writes.
pub record IsScope (s : Text) : Type 0 where
  pub first : ℕ
  pub rest : Text
  pub action : Text
  pub splits : s ≡ first ∷ (rest ++ b':' ∷ action)
  pub starts : IsLabel first
  pub goes_on : All (λ c. IsLabel c ⊎ (c ≡ b'-')) rest
  pub is_short : length rest ≤ 62
  pub permitted : (action ≡ codes "read") ⊎ (s ≡ codes "confluence:write")

is_label_iff : (c : ℕ) → (is_label c ≡ true) ↔ IsLabel c
unfolding is_label
is_label_iff c = (λ h. ground arith, elim [ inl h ↦ ground arith | inr h ↦ ground arith ])

all_label_iff : (s : Text) → (all_label s ≡ true) ↔ All (λ c. IsLabel c ⊎ (c ≡ b'-')) s
unfolding all_label
all_label_iff [] = (λ h. tt, λ h. refl)
all_label_iff (c ∷ s) =
    let (there, back) = all_label_iff s in
    (
      λ h. (one (Bool-cases (is_label c)) (all_label s) h, there (later (is_label c) h)),
      λ (p, h). both (is_label c) (all_label s) (label p) (back h),
    )
  where
    one :
        (is_label c ≡ true) ⊎ (is_label c ≡ false)
        → (b : Bool) → ((is_label c || c == b'-') && b) ≡ true
        → IsLabel c ⊎ (c ≡ b'-')
    one (inl e) b h = inl ((is_label_iff c).0 e)
    one (inr e) b h = inr (ground arith)

    later : (a : Bool) → ((a || c == b'-') && all_label s) ≡ true → all_label s ≡ true
    later a h = ground arith

    label : IsLabel c ⊎ (c ≡ b'-') → (is_label c || c == b'-') ≡ true
    label (inl p) = rw ((is_label_iff c).1 p) refl
    label (inr p) = ground arith

    both : (a b : Bool) → (a || c == b'-') ≡ true → b ≡ true → ((a || c == b'-') && b) ≡ true
    both a b h k = ground arith

cut-some :
    (sep : ℕ) (s front behind : Text) → cut sep s ≡ some (front, behind) → s ≡ front ++ sep ∷ behind
unfolding cut
cut-some sep [] front behind h = cc
cut-some sep (c ∷ s) front behind h = elim (Bool-cases (c == sep)) [
  | inl e ↦ here ((==_iff c sep).0 e) (rw e at h)
  | inr e ↦ there (cut sep s) (cut-some sep s) (rw e at h)
]
  where
    at_once : Option (Text × Text)
    at_once = some ([], s)

    here : c ≡ sep → at_once ≡ some (front, behind) → c ∷ s ≡ front ++ sep ∷ behind
    here e k =
        let q = some-injective _ _ k in rw (sym (ap (λ o. o.0) q), sym (ap (λ o. o.1) q), e) refl

    there :
        (o : Option (Text × Text))
        → ((a b : Text) → o ≡ some (a, b) → s ≡ a ++ sep ∷ b)
        → before_cut c o ≡ some (front, behind)
        → c ∷ s ≡ front ++ sep ∷ behind
    there none f k = cc
    there (some (a, b)) f k =
        let q = some-injective _ _ k in
        ap (◌∷◌ c) (f a b refl) ∙ ap (λ (o : Text × Text). o.0 ++ sep ∷ o.1) q

cut-append :
    (sep : ℕ) (front behind : Text)
    → All (λ c. (c == sep) ≡ false) front
    → cut sep (front ++ sep ∷ behind) ≡ some (front, behind)
unfolding cut
cut-append sep [] behind h = ground arith
cut-append sep (c ∷ front) behind (p, h) = rw (p, cut-append sep front behind h) refl

IsLabel-ne-colon : (c : ℕ) → IsLabel c ⊎ (c ≡ b'-') → (c == b':') ≡ false
IsLabel-ne-colon c h = ground arith

validate_scope-IsScope : (s : Text) → validate_scope s ≡ none → IsScope s
unfolding validate_scope is_audience
validate_scope-IsScope s h = parts (cut b':' s) (cut-some b':' s) h
  where
    audience :
        (a action : Text)
        → s ≡ a ++ b':' ∷ action
        → is_audience a ≡ true
        → (action ≡ codes "read") ⊎ (s ≡ codes "confluence:write")
        → IsScope s
    audience [] action e k p = cc
    audience (c ∷ a) action e k p = record {
      first = c;
      rest = a;
      action = action;
      splits = e;
      starts = (is_label_iff c).0 (ground arith);
      goes_on = (all_label_iff a).0 (ground arith);
      is_short = ground arith;
      permitted = p;
    }

    permitted :
        (a action : Text)
        → validate_parts s (some (a, action)) ≡ none
        → (action ≡ codes "read") ⊎ (s ≡ codes "confluence:write")
    permitted a action k = elim (Bool-cases (equal action (codes "read"))) [
      | inl e ↦ inl ((equal_iff _ _).0 e)
      | inr e ↦ inr ((equal_iff _ _).0 (ground arith))
    ]

    parts :
        (o : Option (Text × Text))
        → ((a action : Text) → o ≡ some (a, action) → s ≡ a ++ b':' ∷ action)
        → validate_parts s o ≡ none
        → IsScope s
    parts none f k = absurd (ground arith)
    parts (some (a, action)) f k =
        audience a action (f a action refl) (ground arith) (permitted a action k)

goes_on-lacks : (a : Text) → All (λ c. IsLabel c ⊎ (c ≡ b'-')) a → All (λ c. (c == b':') ≡ false) a
goes_on-lacks a h =
    All-weaken (λ c. IsLabel c ⊎ (c ≡ b'-')) (λ c. (c == b':') ≡ false) IsLabel-ne-colon a h

validate_parts-read :
    (s a : Text) → is_audience a ≡ true → validate_parts s (some (a, codes "read")) ≡ none
validate_parts-read s a h = rw (h, (equal_iff (codes "read") (codes "read")).1 refl) refl

IsScope-is_audience : (s : Text) (h : IsScope s) → is_audience (h.first ∷ h.rest) ≡ true
unfolding is_audience
IsScope-is_audience s h =
    ground
      (arith, (is_label_iff h.first).1 h.starts, (all_label_iff h.rest).1 h.goes_on, h.is_short)

IsScope-validate_scope : (s : Text) → IsScope s → validate_scope s ≡ none
unfolding validate_scope
IsScope-validate_scope s h = elim h.permitted [
  | inl e ↦
      ap (validate_parts s) (ap (cut b':') h.splits ∙ divided)
      ∙ ap (λ t. validate_parts s (some (h.first ∷ h.rest, t))) e
      ∙ validate_parts-read s (h.first ∷ h.rest) (IsScope-is_audience s h)
  | inr e ↦ subst (λ t. validate_scope t ≡ none) (sym e) writes
]
  where
    divided : cut b':' (h.first ∷ (h.rest ++ b':' ∷ h.action)) ≡ some (h.first ∷ h.rest, h.action)
    divided =
        cut-append b':' (h.first ∷ h.rest) h.action
          (IsLabel-ne-colon h.first (inl h.starts), goes_on-lacks h.rest h.goes_on)

    writes : validate_scope (codes "confluence:write") ≡ none
    writes = unfold cut is_audience is_label all_label equal in refl

-- ValidateScope accepts exactly the scopes of the grammar.
pub validate_scope_iff : (s : Text) → (validate_scope s ≡ none) ↔ IsScope s
validate_scope_iff s = (validate_scope-IsScope s, IsScope-validate_scope s)
