-- ===== src/Config/Paths/Resolve.antt =====
-- Where a path leads that pkg/doczcore/config/paths.go accepts: the walk of a consumer over its
-- components, from the root of the repository.
use docz.Prelude.{
  ℕ, Bool, true, false, not, ◌||◌, ◌≡◌, ◌≢◌, refl, sym, ◌∙◌, Option, none, some, List, [], ◌∷◌, map,
  arith, if◌then◌else◌, is_empty, All,
}
use docz.Text.{Text, codes, equal, equal_iff}
use docz.Text.Trim.{trim_right}
use docz.Text.Lines.{split, split-ne-nil}
use docz.Config.Paths.{
  PathError, among, without_empty_end, drop_end, segments, is_stripped, ending_changes,
  check_path_segments, named, check_path_shape, validate_repo_relative_path,
}

-- The directory that a walk reaches, its innermost name first; `none` stands above the root.
unfoldable pub resolve : List Text → List Text → Option (List Text)
resolve dir [] = some dir
resolve dir (s ∷ ss) =
    let stay = resolve dir ss in
    let down = resolve (s ∷ dir) ss in
    if is_empty s || equal s (codes ".")
    then stay
    else if equal s (codes "..")
    then elim dir [ [] ↦ none | _ ∷ parent ↦ resolve parent ss ]
    else down

-- A consumer may rewrite a component, but none that ends in another character than those.
abbrev pub KeepsNames : (Text → Text) → Type 0
KeepsNames rewrite = (s : Text) → trim_right is_stripped s ≡ s → rewrite s ≡ s

abbrev Clean : Text → Type 0
Clean s =
    (is_empty s ≡ false)
    × (equal s (codes ".") ≡ false)
    × (equal s (codes "..") ≡ false)
    × (trim_right is_stripped s ≡ s)

-- The names of a walk that only goes down.
abbrev pub below : List Text → List Text → List Text
below dir [] = dir
below dir (s ∷ ss) = below (s ∷ dir) ss

abbrev Passed : List Text → Type 0
Passed ss =
    (among (codes "..") ss ≡ false)
    × (among (codes ".") ss ≡ false)
    × (among [] ss ≡ false)
    × (ending_changes ss ≡ false)

check_path_segments-Passed : (ss : List Text) → check_path_segments ss ≡ none → Passed ss
unfolding check_path_segments
check_path_segments-Passed ss h = ground arith

equal_nil : (s : Text) → equal s [] ≡ is_empty s
unfolding equal
equal_nil [] = refl
equal_nil (c ∷ s) = refl

Passed-Clean : (ss : List Text) → Passed ss → All Clean ss
unfolding among ending_changes
Passed-Clean [] h = tt
Passed-Clean (s ∷ ss) (up, dot, empty, ending) = (
  (
    sym (equal_nil s) ∙ or-false_left _ _ empty,
    or-false_left _ _ dot,
    or-false_left _ _ up,
    (equal_iff (trim_right is_stripped s) s).0 (not-false _ (or-false_left _ _ ending)),
  ),
  Passed-Clean ss (
    or-false_right _ _ up,
    or-false_right _ _ dot,
    or-false_right _ _ empty,
    or-false_right _ _ ending,
  ),
)
  where
    or-false_left : (a b : Bool) → (a || b) ≡ false → a ≡ false
    or-false_left a b h = ground arith

    or-false_right : (a b : Bool) → (a || b) ≡ false → b ≡ false
    or-false_right a b h = ground arith

    not-false : (a : Bool) → not a ≡ false → a ≡ true
    not-false a h = ground arith

-- One clean component leads one directory down.
resolve-Clean :
    (dir : List Text) (s : Text) (ss : List Text)
    → Clean s
    → resolve dir (s ∷ ss) ≡ resolve (s ∷ dir) ss
unfolding resolve
resolve-Clean dir s ss (empty, dot, up, _) = rw (empty, dot, up) refl

resolve-below :
    (rewrite : Text → Text)
    → KeepsNames rewrite
    → (dir ss : List Text) → All Clean ss
    → resolve dir (map rewrite ss) ≡ some (below dir ss)
resolve-below rewrite keeps dir [] h = unfold resolve in refl
resolve-below rewrite keeps dir (s ∷ ss) (clean, h) =
    rw (keeps s clean.3)
      (resolve-Clean dir s (map rewrite ss) clean ∙ resolve-below rewrite keeps (s ∷ dir) ss h)

-- An empty component at the end leads nowhere.
resolve-without_empty_end :
    (rewrite : Text → Text)
    → KeepsNames rewrite
    → (dir ss : List Text) → All Clean (without_empty_end ss)
    → resolve dir (map rewrite ss) ≡ some (below dir (without_empty_end ss))
unfolding without_empty_end
resolve-without_empty_end rewrite keeps dir [] h = unfold resolve in refl
resolve-without_empty_end rewrite keeps dir ([] ∷ []) h =
    rw (keeps [] (unfold trim_right in refl)) (unfold resolve in refl)
resolve-without_empty_end rewrite keeps dir ((c ∷ s) ∷ []) h =
    resolve-below rewrite keeps dir ((c ∷ s) ∷ []) h
resolve-without_empty_end rewrite keeps dir (s ∷ t ∷ ss) (clean, h) = rw (keeps s clean.3) (
    resolve-Clean dir s (map rewrite (t ∷ ss)) clean
    ∙ resolve-without_empty_end rewrite keeps (s ∷ dir) (t ∷ ss) h)

resolve-segments :
    (rewrite : Text → Text)
    → KeepsNames rewrite
    → (value : Text) (allow_dir : Bool) → All Clean (segments value allow_dir)
    → resolve [] (map rewrite (split b'/' value)) ≡ some (below [] (segments value allow_dir))
unfolding segments
resolve-segments rewrite keeps value false h = resolve-below rewrite keeps [] (split b'/' value) h
resolve-segments rewrite keeps value true h = ends (split b'/' value) h
  where
    ends :
        (ss : List Text)
        → All Clean (drop_end ss)
        → resolve [] (map rewrite ss) ≡ some (below [] (drop_end ss))
    ends [] k = resolve-below rewrite keeps [] [] k
    ends (s ∷ []) k = resolve-below rewrite keeps [] (s ∷ []) k
    ends (s ∷ t ∷ ss) (clean, k) = rw (keeps s clean.3) (
        resolve-Clean [] s (map rewrite (t ∷ ss)) clean
        ∙ resolve-without_empty_end rewrite keeps (s ∷ []) (t ∷ ss) k)

segments-ne-nil : (value : Text) (allow_dir : Bool) → segments value allow_dir ≢ []
unfolding segments
segments-ne-nil value false = split-ne-nil b'/' value
segments-ne-nil value true = ends (split b'/' value) (split-ne-nil b'/' value)
  where
    ends : (ss : List Text) → ss ≢ [] → drop_end ss ≢ []
    ends [] h = h
    ends (s ∷ []) h = λ e. cc
    ends (s ∷ t ∷ ss) h = λ e. cc

segments_of_accepted :
    (is_format : ℕ → Bool) (value : Text) (allow_dir : Bool)
    → check_path_shape is_format value allow_dir ≡ none
    → check_path_segments (segments value allow_dir) ≡ none
unfolding check_path_shape
segments_of_accepted is_format value allow_dir h = ground arith

-- An accepted path leads below the root of the repository, through exactly its segments, of which
-- there is one at least: also for a consumer that rewrites the components which end in a space or
-- a period.
pub validate-resolve :
    (is_format : ℕ → Bool) (rewrite : Text → Text)
    → KeepsNames rewrite
    → (field value : Text) (allow_dir : Bool)
    → validate_repo_relative_path is_format field value allow_dir ≡ none
    → (resolve [] (map rewrite (split b'/' value)) ≡ some (below [] (segments value allow_dir)))
      × (segments value allow_dir ≢ [])
unfolding validate_repo_relative_path
validate-resolve is_format rewrite keeps field value allow_dir h =
    let passed = segments_of_accepted is_format value allow_dir (unnamed field _ h) in
    (
      resolve-segments rewrite keeps value allow_dir
          (Passed-Clean _ (check_path_segments-Passed (segments value allow_dir) passed)),
      segments-ne-nil value allow_dir,
    )
  where
    unnamed : (t : Text) (o : Option PathError) → named t o ≡ none → o ≡ none
    unnamed t none k = refl
    unnamed t (some e) k = cc
