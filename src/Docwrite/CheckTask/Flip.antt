-- ===== src/Docwrite/CheckTask/Flip.antt =====
-- A successful call flips one checkbox, and the opposite call takes it back.
use docz.Prelude.{
  ℕ, suc, ◌-◌, Bool, true, false, not, ◌||◌, ◌≡◌, refl, sym, ap, ◌∙◌, subst, ◌∷◌, ◌++◌,
  append_assoc, arith,
}
use docz.Text.{Text, contains_byte, contains_byte-append}
use docz.Text.Lines.{newlines, newlines-append, newlines_of_lacks}
use docz.Docparse.TaskItems.Shape.{is_state}
use docz.Docparse.TaskItems.State.{front, restate, line-restate, restate-TaskShape}
use docz.Docwrite.CheckTask.{ok, next_line, state_byte, set_task_state_bytes}
use docz.Docwrite.CheckTask.Offsets.{
  walk-IsLineStart, behind_line, next_line-lacks, next_line-behind, behind_line-behind,
}
use docz.Docwrite.CheckTask.Splice.{
  is_checked, Target, with_state, doc-with_state, set-Target, set-eq_ok,
}

-- A state byte is no other byte.
contains_byte-state :
    (p rest : Text) (b c d : ℕ)
    → is_state b ≡ false
    → is_state c ≡ true
    → is_state d ≡ true
    → contains_byte (p ++ (b'[' ∷ c ∷ rest)) b ≡ contains_byte (p ++ (b'[' ∷ d ∷ rest)) b
unfolding contains_byte
contains_byte-state p rest b c d hb hc hd =
    rw (contains_byte-append p (b'[' ∷ c ∷ rest) b, contains_byte-append p (b'[' ∷ d ∷ rest) b)
      (ground arith)

not-not : (b : Bool) → not (not b) ≡ b
not-not true = refl
not-not false = refl

module _ (doc : Text) (line : ℕ) (checked : Bool) (t : Target doc line checked) where
  -- Behind the walk the document has the rewritten line.
  restate-lacks : (c : ℕ) → is_state c ≡ true → contains_byte (restate t.shape c) b'\n' ≡ false
  restate-lacks c h =
      contains_byte-state (front t.shape) _ b'\n' c t.match.state refl h t.shape.state_is
      ∙ ap (λ l. contains_byte l b'\n') (sym (line-restate (next_line t.at.1) t.match t.shape))
      ∙ next_line-lacks t.at.1

  next_line-with_state :
      (c : ℕ)
      → is_state c ≡ true
      → next_line (restate t.shape c ++ behind_line t.at.1) ≡ restate t.shape c
  next_line-with_state c h = next_line-behind (restate t.shape c) t.at.1 (restate-lacks c h)

  contains_byte-with_state :
      (b c : ℕ)
      → is_state b ≡ false
      → is_state c ≡ true
      → contains_byte (with_state t c) b ≡ contains_byte doc b
  contains_byte-with_state b c hb hc =
      rw
        (
          contains_byte-append t.at.0 _ b,
          contains_byte-append (restate t.shape c) (behind_line t.at.1) b,
          contains_byte-state (front t.shape) (b']' ∷ t.shape.behind) b c t.match.state hb hc
              t.shape.state_is,
        )
        (sym (
            ap (λ x. contains_byte t.at.0 b || x)
              (contains_byte-append (restate t.shape t.match.state) (behind_line t.at.1) b))
          ∙ sym (contains_byte-append t.at.0 _ b)
          ∙ ap (λ l. contains_byte l b) (sym (doc-with_state doc line checked t)))

  -- The rewritten document has a checkbox in the state that was written.
  flip-Target :
      (c : ℕ)
      → is_state c ≡ true
      → is_checked c ≡ checked
      → Target (with_state t c) line (not checked)
  flip-Target c h e = record {
    no_cr = contains_byte-with_state b'\r' c refl h ∙ t.no_cr;
    counted = t.counted;
    at = (t.at.0, restate t.shape c ++ behind_line t.at.1);
    found = (walk-IsLineStart (line - 1) doc t.at t.found).again _;
    match = record t.match { state = c };
    shape = restate-TaskShape (next_line t.at.1) t.match t.shape _ c (next_line-with_state c h) h;
    other_state = e ∙ sym (not-not checked);
  }

  -- Writing the first state back gives the document.
  flip_back :
      (c : ℕ)
      → is_state c ≡ true
      → is_checked c ≡ checked
      → state_byte (not checked) ≡ t.match.state
      → set_task_state_bytes (with_state t c) line (not checked) ≡ ok doc
  unfolding flip-Target restate-TaskShape
  flip_back c h e back =
      set-Target (with_state t c) line (not checked) (flip-Target c h e)
      ∙ ap (λ l. ok (t.at.0 ++ l))
          (rw (back, behind_line-behind (restate t.shape c) t.at.1 (restate-lacks c h)))
      ∙ ap ok (sym (doc-with_state doc line checked t))

ok-injective : (a b : Text) → ok a ≡ ok b → a ≡ b
ok-injective a b h = ground arith

with_state-append :
    (doc : Text) (line : ℕ) (checked : Bool) (t : Target doc line checked) (c : ℕ)
    → with_state t c
      ≡ (t.at.0 ++ front t.shape) ++ (b'[' ∷ c ∷ b']' ∷ (t.shape.behind ++ behind_line t.at.1))
with_state-append doc line checked t c =
    ap (λ l. t.at.0 ++ l) (append_assoc (front t.shape) _ (behind_line t.at.1))
    ∙ sym (append_assoc t.at.0 (front t.shape) _)

newlines-front :
    (doc : Text) (line : ℕ) (checked : Bool) (t : Target doc line checked)
    → suc (newlines (t.at.0 ++ front t.shape)) ≡ line
newlines-front doc line checked t =
    let start = walk-IsLineStart (line - 1) doc t.at t.found in
    let lacks = ap (λ l. contains_byte l b'\n') (line-restate (next_line t.at.1) t.match t.shape) in
    let clear =
      contains_byte-append (front t.shape) (b'[' ∷ t.match.state ∷ b']' ∷ t.shape.behind) b'\n' in
    omega (
      arith,
      newlines-append t.at.0 (front t.shape),
      newlines_of_lacks (front t.shape)
          (or_false _ _ (sym clear ∙ sym lacks ∙ next_line-lacks t.at.1)),
      start.newlines_before,
      t.counted,
    )
  where
    or_false : (a b : Bool) → (a || b) ≡ false → a ≡ false
    or_false true b k = cc
    or_false false b k = refl

state_byte_lem : (b : Bool) → (is_state (state_byte b) ≡ true) × (is_checked (state_byte b) ≡ b)
unfolding state_byte
state_byte_lem true = (refl, refl)
state_byte_lem false = (refl, refl)

unchecked_is_blank : (c : ℕ) → is_state c ≡ true → is_checked c ≡ false → state_byte false ≡ c
unfolding state_byte
unchecked_is_blank c h e = ground arith

-- A document in which a task was checked becomes the old document, byte for byte, when the task on
-- the same line is unchecked.
pub uncheck-check :
    (doc out : Text) (line : ℕ)
    → set_task_state_bytes doc line true ≡ ok out
    → set_task_state_bytes out line false ≡ ok doc
uncheck-check doc out line h =
    let t = set-eq_ok doc out line true h in
    let wrote = set-Target doc line true t in
    let lem = state_byte_lem true in
    subst (λ o. set_task_state_bytes o line false ≡ ok doc) (ok-injective _ _ (sym wrote ∙ h))
      (flip_back doc line true t (state_byte true) lem.0 lem.1
        (unchecked_is_blank t.match.state t.shape.state_is t.other_state))

-- What a successful call does, as an equation between the old document and the new one: behind the
-- opening bracket of a checkbox of the line one state byte stands for another, and all else stays.
pub set_flips_one_byte :
    (doc out : Text) (line : ℕ) (checked : Bool)
    → set_task_state_bytes doc line checked ≡ ok out
    → (a : Text) × (old : ℕ) × (b : Text) × (doc ≡ a ++ (b'[' ∷ old ∷ b']' ∷ b))
      × (out ≡ a ++ (b'[' ∷ state_byte checked ∷ b']' ∷ b))
      × (is_state old ≡ true)
      × (is_checked old ≡ not checked)
      × (suc (newlines a) ≡ line)
set_flips_one_byte doc out line checked h =
    let t = set-eq_ok doc out line checked h in
    let a = t.at.0 ++ front t.shape in
    let b = t.shape.behind ++ behind_line t.at.1 in
    (
      a,
      t.match.state,
      b,
      doc-with_state doc line checked t ∙ with_state-append doc line checked t t.match.state,
      ok-injective _ _ (sym h ∙ set-Target doc line checked t)
          ∙ with_state-append doc line checked t (state_byte checked),
      t.shape.state_is,
      t.other_state,
      newlines-front doc line checked t,
    )
