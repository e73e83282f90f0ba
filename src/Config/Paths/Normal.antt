-- ===== src/Config/Paths/Normal.antt =====
-- What normalizeRepoPath of pkg/doczcore/config/paths.go makes of a path.
use docz.Prelude.{
  ℕ, zero, suc, Bool, true, false, ◌&&◌, ◌≡◌, ◌≢◌, ◌⊎◌, inl, inr, refl, sym, ap, ◌∙◌, subst, Option,
  none, List, [], ◌∷◌, ◌++◌, arith, ◌==◌, if◌then◌else◌, Bool-cases,
}
use docz.Text.{Text, codes, equal, has_prefix}
use docz.Text.Trim.{trim_space}
use docz.Text.Lines.{split}
use docz.Config.Paths.{
  strip_dots, normalize_repo_path, check_path_shape, validate_repo_relative_path,
}
use docz.Config.Paths.Resolve.{resolve}

-- What a path stands for: a path of the host, or the directory that the walk from the root of the
-- repository reaches.
pub data Place : Type 0 where
  absolute : Text → Place
  in_repository : Option (List Text) → Place

unfoldable pub place : Text → Place
place path =
    if has_prefix path (codes "/")
    then absolute path
    else in_repository (resolve [] (split b'/' path))

-- "./" so many times.
abbrev pub dots : ℕ → Text
dots zero = []
dots (suc n) = b'.' ∷ b'/' ∷ dots n

resolve-strip_dots :
    (dir : List Text) (value : Text)
    → resolve dir (split b'/' (strip_dots value)) ≡ resolve dir (split b'/' value)
unfolding strip_dots
resolve-strip_dots dir [] = refl
resolve-strip_dots dir (a ∷ []) = refl
resolve-strip_dots dir (a ∷ b ∷ s) = elim (Bool-cases (a == b'.' && b == b'/')) [
  | inl e ↦ rw e (resolve-strip_dots dir s ∙ sym (dot_slash a b e))
  | inr e ↦ rw e refl
]
  where
    dot_slash :
        (x y : ℕ)
        → (x == b'.' && y == b'/') ≡ true
        → resolve dir (split b'/' (x ∷ y ∷ s)) ≡ resolve dir (split b'/' s)
    dot_slash x y k =
        let (ex, ey) = both x y k in
        subst (λ z. resolve dir (split b'/' (z ∷ y ∷ s)) ≡ resolve dir (split b'/' s)) (sym ex)
          (subst (λ z. resolve dir (split b'/' (b'.' ∷ z ∷ s)) ≡ resolve dir (split b'/' s))
            (sym ey) (unfold resolve split equal in refl))
      where
        both : (m n : ℕ) → (m == b'.' && n == b'/') ≡ true → (m ≡ b'.') × (n ≡ b'/')
        both m n j = ground arith

strip_dots-prefix : (value : Text) → has_prefix (strip_dots value) (codes "./") ≡ false
unfolding strip_dots has_prefix
strip_dots-prefix [] = refl
strip_dots-prefix (a ∷ []) = ground arith
strip_dots-prefix (a ∷ b ∷ s) = ground (arith, strip_dots-prefix s)

strip_dots-dots : (value : Text) → (n : ℕ) × (value ≡ dots n ++ strip_dots value)
unfolding strip_dots
strip_dots-dots [] = (0, refl)
strip_dots-dots (a ∷ []) = (0, refl)
strip_dots-dots (a ∷ b ∷ s) = elim (Bool-cases (a == b'.' && b == b'/')) [
  | inl e ↦
      let (n, h) = strip_dots-dots s in
      (suc n, rw e (rw (first a b e, second a b e) (ap (λ t. b'.' ∷ b'/' ∷ t) h)))
  | inr e ↦ (0, rw e refl)
]
  where
    first : (x y : ℕ) → (x == b'.' && y == b'/') ≡ true → x ≡ b'.'
    first x y h = ground arith

    second : (x y : ℕ) → (x == b'.' && y == b'/') ≡ true → y ≡ b'/'
    second x y h = ground arith

dots-relative :
    (n : ℕ) (s : Text)
    → has_prefix s (codes "/") ≡ false
    → has_prefix (dots n ++ s) (codes "/") ≡ false
unfolding has_prefix
dots-relative zero s h = h
dots-relative (suc n) s h = refl

strip_dots-place :
    (value : Text)
    → has_prefix (strip_dots value) (codes "/") ≡ false
    → place (strip_dots value) ≡ place value
unfolding place
strip_dots-place value h =
    let (n, e) = strip_dots-dots value in
    let relative : has_prefix value (codes "/") ≡ false =
      subst (λ t. has_prefix t (codes "/") ≡ false) (sym e)
        (dots-relative n (strip_dots value) h) in
    rw (h, relative) (ap in_repository (resolve-strip_dots [] value))

absolute_refused :
    (is_format : ℕ → Bool) (field value : Text) (allow_dir : Bool)
    → has_prefix value (codes "/") ≡ true
    → validate_repo_relative_path is_format field value allow_dir ≢ none
unfolding validate_repo_relative_path check_path_shape
absolute_refused is_format field value allow_dir h = ground (arith, h)

-- normalizeRepoPath takes some number of "./" off the front of the trimmed path, as many as there
-- are, and no more. What is left stands for the place that the trimmed path stands for, unless it
-- begins with "/": validateRepoRelativePath then refuses it.
pub normalize_repo_path-place :
    (is_format : ℕ → Bool) (field value : Text) (allow_dir : Bool)
    → (n : ℕ) × (trim_space value ≡ dots n ++ normalize_repo_path value)
      × (has_prefix (normalize_repo_path value) (codes "./") ≡ false)
      × ((place (normalize_repo_path value) ≡ place (trim_space value))
          ⊎ ((has_prefix (normalize_repo_path value) (codes "/") ≡ true)
              × (validate_repo_relative_path is_format field (normalize_repo_path value) allow_dir
                  ≢ none)))
unfolding normalize_repo_path
normalize_repo_path-place is_format field value allow_dir =
    let path = trim_space value in
    let (n, e) = strip_dots-dots path in
    (
      n,
      e,
      strip_dots-prefix path,
      elim (Bool-cases (has_prefix (strip_dots path) (codes "/"))) [
        | inl h ↦ inr (h, absolute_refused is_format field (strip_dots path) allow_dir h)
        | inr h ↦ inl (strip_dots-place path h)
      ],
    )
