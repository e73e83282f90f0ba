-- ===== src/Docparse/TaskItems/Shape.antt =====
-- Which lines match taskItemPattern, and what it captures.
use docz.Prelude.{
  ℕ, Bool, true, false, ◌||◌, ◌≡◌, inl, inr, refl, sym, ap, subst, some, [], ◌∷◌, ◌++◌, arith, ◌==◌,
  Bool-cases, bind-eq_some, length, All,
}
use docz.Text.{Text, cut_prefix, has_prefix, is_space, is_blank}
use docz.Text.Trim.{trim_left, trim_left_self, trim_left-append, trim_space-head}
use mathlib.Core.Option.{some-injective}
use docz.Docparse.Blocks.{new_skipper, skip, is_fence_toggle, opens_comment_block}
use docz.Docparse.Markers.{some_blanks, span}
use docz.Docparse.TaskItems.{TaskMatch, task_bullet, checkbox, tail_text, match_task}

abbrev pub IsBlank : ℕ → Type 0
IsBlank c = is_blank c ≡ true

abbrev pub is_state : ℕ → Bool
is_state c = c == b' ' || c == b'x' || c == b'X'

-- A line cut at the places where the pattern cuts it.
pub record TaskShape (line : Text) (m : TaskMatch) : Type 0 where
  pub lead : Text
  pub bullet : ℕ
  pub first_blank : ℕ
  pub blanks : Text
  pub behind : Text
  pub line_is : line ≡ lead ++ (bullet ∷ first_blank ∷ (blanks ++ (b'[' ∷ m.state ∷ b']' ∷ behind)))
  pub lead_blank : All IsBlank lead
  pub bullet_is : (bullet == b'-' || bullet == b'*') ≡ true
  pub first_blank_is : is_blank first_blank ≡ true
  pub blanks_blank : All IsBlank blanks
  pub state_is : is_state m.state ≡ true
  pub behind_is : tail_text behind ≡ some m.rest
  pub indent_is : m.indent ≡ length lead

pub span-append_self : (p : ℕ → Bool) (s : Text) → (span p s).0 ++ (span p s).1 ≡ s
unfolding span
span-append_self p [] = refl
span-append_self p (c ∷ s) = ground (arith, span-append_self p s)

pub span-All : (p : ℕ → Bool) (s : Text) → All (λ c. p c ≡ true) (span p s).0
unfolding span
span-All p [] = tt
span-All p (c ∷ s) = elim (Bool-cases (p c)) [ inl e ↦ rw e (e, span-All p s) | inr e ↦ rw e tt ]

-- The blanks that `trim_left` drops.
trim_left-split : (s : Text) → (b : Text) × All IsBlank b × (s ≡ b ++ trim_left is_blank s)
unfolding trim_left
trim_left-split [] = ([], tt, refl)
trim_left-split (c ∷ s) = elim (Bool-cases (is_blank c)) [
  | inl e ↦ let (b, all, eq) = trim_left-split s in (c ∷ b, (e, all), rw e (ap (◌∷◌ c) eq))
  | inr e ↦ ([], tt, rw e refl)
]

task_bullet-eq_some :
    (s r : Text)
    → task_bullet s ≡ some r
    → (c : ℕ) × (s ≡ c ∷ r) × ((c == b'-' || c == b'*') ≡ true)
unfolding task_bullet
task_bullet-eq_some [] r h = cc
task_bullet-eq_some (c ∷ s) r h = (c, ground arith, ground arith)

pub some_blanks-eq_some :
    (s r : Text)
    → some_blanks s ≡ some r
    → (c : ℕ) × (b : Text) × (s ≡ c ∷ (b ++ r)) × (is_blank c ≡ true) × All IsBlank b
unfolding some_blanks
some_blanks-eq_some [] r h = cc
some_blanks-eq_some (c ∷ s) r h =
    let (b, all, eq) = trim_left-split s in (c, b, ground arith, ground arith, all)

checkbox-eq_some :
    (s : Text) (c : ℕ) (r : Text)
    → checkbox s ≡ some (c, r)
    → (s ≡ b'[' ∷ c ∷ b']' ∷ r) × (is_state c ≡ true)
unfolding checkbox
checkbox-eq_some (o ∷ c' ∷ e ∷ s) c r h = ground arith
checkbox-eq_some s c r h = cc

shape_of_parts :
    (lead body r₁ blanks r₂ behind text : Text) (bullet first c : ℕ) (m : TaskMatch)
    → body ≡ bullet ∷ r₁
    → r₁ ≡ first ∷ (blanks ++ r₂)
    → r₂ ≡ b'[' ∷ c ∷ b']' ∷ behind
    → record { indent = length lead; state = c; rest = text } ≡ m
    → All IsBlank lead
    → (bullet == b'-' || bullet == b'*') ≡ true
    → is_blank first ≡ true
    → All IsBlank blanks
    → is_state c ≡ true
    → tail_text behind ≡ some text
    → TaskShape (lead ++ body) m
shape_of_parts lead body r₁ blanks r₂ behind text bullet first c m eb e₁ e₂ em hl hb hf hs hc ht =
    rw (← em) (record {
      lead = lead;
      bullet = bullet;
      first_blank = first;
      blanks = blanks;
      behind = behind;
      line_is = rw (eb, e₁, e₂);
      lead_blank = hl;
      bullet_is = hb;
      first_blank_is = hf;
      blanks_blank = hs;
      state_is = hc;
      behind_is = ht;
      indent_is = refl;
    })

-- The captures of a match come from such a cut.
pub match_task-TaskShape :
    (line : Text) (m : TaskMatch) → match_task line ≡ some m → TaskShape line m
unfolding match_task
match_task-TaskShape line m h =
    let lead = (span is_blank line).0 in
    let body = (span is_blank line).1 in
    let (r₁, e₁, h₁) = bind-eq_some (task_bullet body) _ h in
    let (r₂, e₂, h₂) = bind-eq_some (some_blanks r₁) _ h₁ in
    let (cr, e₃, h₃) = bind-eq_some (checkbox r₂) _ h₂ in
    let (text, e₄, h₄) = bind-eq_some (tail_text cr.1) _ h₃ in
    let (bullet, bs, bi) = task_bullet-eq_some body r₁ e₁ in
    let (fb, blanks, ss, fbi, all) = some_blanks-eq_some r₁ r₂ e₂ in
    let (cs, ci) = checkbox-eq_some r₂ cr.0 cr.1 e₃ in
    subst (λ l. TaskShape l m) (span-append_self is_blank line)
      (shape_of_parts lead body r₁ blanks r₂ cr.1 text bullet fb cr.0 m bs ss cs
        (some-injective _ _ h₄) (span-All is_blank line) bi fbi all ci e₄)

-- A run of blanks stops at another character.
pub span-append :
    (p : ℕ → Bool) (s rest : Text) (c : ℕ)
    → All (λ x. p x ≡ true) s
    → p c ≡ false
    → span p (s ++ (c ∷ rest)) ≡ (s, c ∷ rest)
unfolding span
span-append p [] rest c h hc = rw hc
span-append p (x ∷ s) rest c (hx, h) hc = rw (hx, span-append p s rest c h hc)

some_blanks-append :
    (first c : ℕ) (blanks rest : Text)
    → is_blank first ≡ true
    → All IsBlank blanks
    → is_blank c ≡ false
    → some_blanks (first ∷ (blanks ++ (c ∷ rest))) ≡ some (c ∷ rest)
unfolding some_blanks
some_blanks-append first c blanks rest hf h hc =
    rw (hf, trim_left-append is_blank blanks (c ∷ rest) h, trim_left_self is_blank c rest hc)

bullet_lem : (c : ℕ) → (c == b'-' || c == b'*') ≡ true → (is_blank c ≡ false) × (is_space c ≡ false)
unfolding is_blank is_space
bullet_lem c h = ground arith

task_bullet_of : (c : ℕ) (s : Text) → (c == b'-' || c == b'*') ≡ true → task_bullet (c ∷ s) ≡ some s
unfolding task_bullet
task_bullet_of c s h = rw h

checkbox_of : (c : ℕ) (s : Text) → is_state c ≡ true → checkbox (b'[' ∷ c ∷ b']' ∷ s) ≡ some (c, s)
unfolding checkbox
checkbox_of c s h = ground arith

-- A line that is cut so matches, with these captures.
pub TaskShape-match_task :
    (line : Text) (m : TaskMatch) → TaskShape line m → match_task line ≡ some m
unfolding match_task
TaskShape-match_task line m s =
    rw
      (
        s.line_is,
        span-append is_blank s.lead _ s.bullet s.lead_blank (bullet_lem s.bullet s.bullet_is).0,
        task_bullet_of s.bullet _ s.bullet_is,
        some_blanks-append s.first_blank b'[' s.blanks _ s.first_blank_is s.blanks_blank
            (unfold is_blank in refl),
        checkbox_of m.state s.behind s.state_is,
        s.behind_is,
      )
      (ap (λ i. some (record m { indent = i })) (sym s.indent_is))

TaskShape-fence : (line : Text) (m : TaskMatch) → TaskShape line m → is_fence_toggle line ≡ false
unfolding is_fence_toggle has_prefix
TaskShape-fence line m s =
    rw
      (
        s.line_is,
        trim_space-head s.lead _ s.bullet s.lead_blank (bullet_lem s.bullet s.bullet_is).1,
      )
      (ground (arith, s.bullet_is))

TaskShape-comment :
    (line : Text) (m : TaskMatch) → TaskShape line m → opens_comment_block line ≡ false
unfolding opens_comment_block cut_prefix
TaskShape-comment line m s =
    rw
      (
        s.line_is,
        trim_left-append is_blank s.lead _ s.lead_blank,
        trim_left_self is_blank s.bullet _ (bullet_lem s.bullet s.bullet_is).0,
      )
      (ground (arith, s.bullet_is))

-- A line that matches is outside every block when the lines before it are.
pub TaskShape-skip :
    (line : Text) (m : TaskMatch) → TaskShape line m → skip new_skipper line ≡ (false, new_skipper)
unfolding skip
TaskShape-skip line m s = rw (TaskShape-fence line m s, TaskShape-comment line m s)
