-- ===== src/Docparse/Headings/Slugs.antt =====
-- The loop of uniqueSlug ends with a slug that was not taken.
use docz.Prelude.{
  ℕ, zero, suc, ◌+◌, ◌≤◌, ◌<◌, Bool, true, false, ◌≡◌, ◌⊎◌, inl, inr, refl, ap, Option, none, some,
  [], ◌∷◌, ◌++◌, append_assoc, arith, ltb, if◌then◌else◌, Bool-cases, Option-cases, length,
}
use docz.Text.{Text, equal, cut_prefix, equal_iff, cut_prefix-append}
use docz.Text.Decimal.{itoa, value, value-itoa}
use docz.Docparse.Headings.{Taken, lookup, insert, or_zero, suffixed, unique_from, unique_slug}

pub lookup-insert :
    (k j : Text) (v : ℕ) (m : Taken)
    → lookup j (insert k v m) ≡ (if equal k j then some v else lookup j m)
unfolding lookup insert
lookup-insert k j v [] = refl
lookup-insert k j v ((i, w) ∷ m) =
    ground (arith, equal_iff k j, equal_iff i k, equal_iff i j, lookup-insert k j v m)

-- The map knows the slug.
abbrev pub Knows : Taken → Text → Type 0
Knows taken k = (n : ℕ) × (lookup k taken ≡ some n)

pub insert-Knows : (k j : Text) (v : ℕ) (m : Taken) → Knows m j → Knows (insert k v m) j
insert-Knows k j v m (n, h) = elim (Bool-cases (equal k j)) [
  | inl e ↦ (v, rw (lookup-insert k j v m, e))
  | inr e ↦ (n, rw (lookup-insert k j v m, e) h)
]

pub insert-Knows_self : (k : Text) (v : ℕ) (m : Taken) → lookup k (insert k v m) ≡ some v
insert-Knows_self k v m = rw (lookup-insert k k v m, (equal_iff k k).1 refl)

-- The keys that the loop can still meet behind the counter `n`.
abbrev beyond : ℕ → Option Text → Bool
beyond n none = false
beyond n (some d) = ltb n (value 0 d)

abbrev tail_of : Text → Text → Option Text
tail_of slug k = cut_prefix k (slug ++ b'-' ∷ [])

abbrev one : Bool → ℕ
one true = 1
one false = 0

abbrev hits : Text → ℕ → Taken → ℕ
hits slug n [] = 0
hits slug n ((k, v) ∷ m) = one (beyond n (tail_of slug k)) + hits slug n m

one_le : (b : Bool) → one b ≤ 1
one_le true = omega arith
one_le false = omega arith

hits-le-length : (slug : Text) (n : ℕ) (m : Taken) → hits slug n m ≤ length m
hits-le-length slug n [] = omega arith
hits-le-length slug n ((k, v) ∷ m) =
    omega (arith, hits-le-length slug n m, one_le (beyond n (tail_of slug k)))

cut_prefix-longer : (s t : Text) (c : ℕ) → cut_prefix s (s ++ (c ∷ t)) ≡ none
unfolding cut_prefix
cut_prefix-longer [] t c = refl
cut_prefix-longer (x ∷ s) t c = ground (arith, cut_prefix-longer s t c)

-- A new count for the slug itself is no such key.
hits-insert : (slug : Text) (n v : ℕ) (m : Taken) → hits slug n (insert slug v m) ≡ hits slug n m
unfolding insert
hits-insert slug n v [] = rw (cut_prefix-longer slug [] b'-')
hits-insert slug n v ((j, w) ∷ m) = elim (Bool-cases (equal j slug)) [
  | inl e ↦ rw (e, (equal_iff j slug).0 e)
  | inr e ↦ rw (e, hits-insert slug n v m)
]

tail_of-suffixed : (slug : Text) (n : ℕ) → tail_of slug (suffixed slug n) ≡ some (itoa n)
tail_of-suffixed slug n =
    rw (← append_assoc slug (b'-' ∷ []) (itoa n)) (cut_prefix-append (slug ++ b'-' ∷ []) (itoa n))

beyond_mono : (n : ℕ) (o : Option Text) → one (beyond (suc n) o) ≤ one (beyond n o)
beyond_mono n none = omega arith
beyond_mono n (some d) = ground arith

hits_mono : (slug : Text) (n : ℕ) (m : Taken) → hits slug (suc n) m ≤ hits slug n m
hits_mono slug n [] = omega arith
hits_mono slug n ((k, v) ∷ m) = omega (arith, hits_mono slug n m, beyond_mono n (tail_of slug k))

beyond-suffixed :
    (slug k : Text) (n : ℕ)
    → k ≡ suffixed slug (suc n)
    → suc (one (beyond (suc n) (tail_of slug k))) ≤ one (beyond n (tail_of slug k))
beyond-suffixed slug k n h =
    rw (h, tail_of-suffixed slug (suc n), value-itoa (suc n)) (ground arith)

-- A taken candidate is one key less to meet.
hits-lt :
    (slug : Text) (n v : ℕ) (m : Taken)
    → lookup (suffixed slug (suc n)) m ≡ some v
    → hits slug (suc n) m < hits slug n m
unfolding lookup
hits-lt slug n v [] h = cc
hits-lt slug n v ((k, w) ∷ m) h = elim (Bool-cases (equal k (suffixed slug (suc n)))) [
  | inl e ↦ omega (arith, beyond-suffixed slug k n ((equal_iff k _).0 e), hits_mono slug n m)
  | inr e ↦ omega (arith, beyond_mono n (tail_of slug k), hits-lt slug n v m (rw e at h))
]

-- What the loop returns: a new slug, and a map that knows it beside all that it knew.
pub record Fresh (taken : Taken) (slug : Text) (out : Option (Text × Taken)) : Type 0 where
  pub result : Text
  pub taken' : Taken
  pub returns : out ≡ some (result, taken')
  pub was_free : lookup result taken ≡ none
  pub known : Knows taken' result
  pub keeps : (k : Text) → Knows taken k → Knows taken' k

-- The loop at a free slug.
Fresh-free :
    (fuel : ℕ) (taken : Taken) (slug result : Text)
    → lookup result taken ≡ none
    → Fresh taken slug (unique_from (suc fuel) taken slug result)
unfolding unique_from
Fresh-free fuel taken slug result h = record {
  result = result;
  taken' = insert result 0 taken;
  returns = ground arith;
  was_free = h;
  known = (0, insert-Knows_self result 0 taken);
  keeps = λ k. insert-Knows result k 0 taken;
}

unique_from_taken :
    (fuel v : ℕ) (taken : Taken) (slug result : Text) (n : ℕ)
    → lookup result taken ≡ some v
    → or_zero (lookup slug taken) ≡ n
    → unique_from (suc fuel) taken slug result
      ≡ unique_from fuel (insert slug (suc n) taken) slug (suffixed slug (suc n))
unfolding unique_from
unique_from_taken fuel v taken slug result n h e = ground arith

-- What the loop returns from a map with another count is new to the map.
Fresh-insert :
    (taken : Taken) (slug : Text) (n v : ℕ) (out : Option (Text × Taken))
    → lookup slug taken ≡ some v
    → Fresh (insert slug n taken) slug out
    → Fresh taken slug out
Fresh-insert taken slug n v out h f = record {
  result = f.result;
  taken' = f.taken';
  returns = f.returns;
  was_free = free_before (Bool-cases (equal slug f.result)) f.was_free;
  known = f.known;
  keeps = λ k known. f.keeps k (insert-Knows slug k n taken known);
}
  where
    free_before :
        (equal slug f.result ≡ true) ⊎ (equal slug f.result ≡ false)
        → lookup f.result (insert slug n taken) ≡ none
        → lookup f.result taken ≡ none
    free_before (inl e) free = cc (rw (lookup-insert slug f.result n taken, e) at free)
    free_before (inr e) free = rw (lookup-insert slug f.result n taken, e) at free

unique_from-Fresh :
    (fuel n : ℕ) (taken : Taken) (slug : Text)
    → lookup slug taken ≡ some (suc n)
    → hits slug n taken < fuel
    → Fresh taken slug (unique_from fuel taken slug (suffixed slug (suc n)))
unique_from-Fresh zero n taken slug h lt = absurd (omega arith)
unique_from-Fresh (suc fuel) n taken slug h lt =
    elim (Option-cases (lookup (suffixed slug (suc n)) taken)) [
      | inl free ↦ Fresh-free fuel taken slug (suffixed slug (suc n)) free
      | inr (v, met) ↦
          rw
            (unique_from_taken fuel v taken slug (suffixed slug (suc n)) (suc n) met (ap or_zero h))
            (Fresh-insert taken slug (suc (suc n)) (suc n) _ h (
              unique_from-Fresh fuel (suc n) (insert slug (suc (suc n)) taken) slug
                (insert-Knows_self slug (suc (suc n)) taken)
                (omega (
                  arith,
                  hits-insert slug (suc n) (suc (suc n)) taken,
                  hits-lt slug n v taken met,
                ))))
    ]

-- uniqueSlug returns: it ends, with a slug that was not taken.
pub unique_slug-Fresh : (taken : Taken) (slug : Text) → Fresh taken slug (unique_slug taken slug)
unfolding unique_slug
unique_slug-Fresh taken slug = elim (Option-cases (lookup slug taken)) [
  | inl free ↦ Fresh-free (suc (length taken)) taken slug slug free
  | inr (v, met) ↦
      rw (unique_from_taken (suc (length taken)) v taken slug slug v met (ap or_zero met)) (
        Fresh-insert taken slug (suc v) v _ met (
          unique_from-Fresh (suc (length taken)) v (insert slug (suc v) taken) slug
            (insert-Knows_self slug (suc v) taken)
            (omega (arith, hits-insert slug v (suc v) taken, hits-le-length slug v taken))))
]

-- The first heading with a slug keeps it.
pub unique_slug_free :
    (taken : Taken) (slug : Text)
    → lookup slug taken ≡ none
    → unique_slug taken slug ≡ some (slug, insert slug 0 taken)
unfolding unique_slug unique_from
unique_slug_free taken slug h = ground arith
