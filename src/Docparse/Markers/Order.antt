-- ===== src/Docparse/Markers/Order.antt =====
-- The lines of the markers: each within the document, and each after the one before it.
use docz.Prelude.{
  ℕ, suc, ◌+◌, ◌≤◌, ◌<◌, Bool, true, false, ◌≡◌, inl, inr, refl, subst, Option, none, some, List,
  [], ◌∷◌, arith, Bool-cases, length, All, All-weaken,
}
use docz.Prelude.Pairs.{AllPairs}
use docz.Text.{Text}
use docz.Text.Trim.{trim_space}
use docz.Text.Lines.{lines_of}
use docz.Docparse.Blocks.{is_fence_toggle}
use docz.Docparse.Markers.{Marker, markers, markers_from, parse_marker, parse_trimmed, add}

parse_trimmed-line : (t : Text) (num : ℕ) (m : Marker) → parse_trimmed t num ≡ some m → m.line ≡ num
unfolding parse_trimmed
parse_trimmed-line t num m h = ground arith

pub parse_marker-line :
    (l : Text) (num : ℕ) (m : Marker) → parse_marker l num ≡ some m → m.line ≡ num
unfolding parse_marker
parse_marker-line l num m h = ground (arith, parse_trimmed-line (trim_space l) num m)

-- The line of a marker lies in `lo ≤ line < hi`.
abbrev pub Between : ℕ → ℕ → Marker → Type 0
Between lo hi m = (lo ≤ m.line) × (m.line < hi)

abbrev pub Before : Marker → Marker → Type 0
Before a b = a.line < b.line

abbrev Increasing : ℕ → ℕ → List Marker → Type 0
Increasing lo hi ms = All (Between lo hi) ms × AllPairs Before ms

Between-suc : (lo hi : ℕ) (ms : List Marker) → All (Between (suc lo) hi) ms → All (Between lo hi) ms
Between-suc lo hi =
    All-weaken (Between (suc lo) hi) (Between lo hi) λ m h. (omega arith, omega arith)

Increasing-add :
    (num hi : ℕ) (found : Option Marker) (ms : List Marker)
    → ((m : Marker) → found ≡ some m → m.line ≡ num)
    → num < hi
    → Increasing (suc num) hi ms
    → Increasing num hi (add found ms)
Increasing-add num hi none ms at lt h = (Between-suc num hi ms h.0, h.1)
Increasing-add num hi (some m) ms at lt h =
    let e = at m refl in
    (
      ((omega arith, omega arith), Between-suc num hi ms h.0),
      (All-weaken (Between (suc num) hi) (Before m) (λ b bt. omega (arith, bt.0, e)) ms h.0, h.1),
    )

Increasing-suc :
    (num n : ℕ) (ms : List Marker)
    → Increasing (suc num) (suc num + n) ms
    → Increasing (suc num) (num + suc n) ms
Increasing-suc num n ms h = subst (λ hi. Increasing (suc num) hi ms) (omega arith) h

markers_from-Increasing :
    (ls : List Text) (in_code : Bool) (num : ℕ)
    → Increasing num (num + length ls) (markers_from in_code num ls)
unfolding markers_from
markers_from-Increasing [] in_code num = (tt, tt)
markers_from-Increasing (l ∷ ls) true num =
    let toggled = Increasing-suc num (length ls) _ (markers_from-Increasing ls false (suc num)) in
    let same = Increasing-suc num (length ls) _ (markers_from-Increasing ls true (suc num)) in
    elim (Bool-cases (is_fence_toggle l)) [
      | inl e ↦ rw e (Between-suc num _ _ toggled.0, toggled.1)
      | inr e ↦ rw e (Between-suc num _ _ same.0, same.1)
    ]
markers_from-Increasing (l ∷ ls) false num =
    let toggled = Increasing-suc num (length ls) _ (markers_from-Increasing ls true (suc num)) in
    let same = Increasing-suc num (length ls) _ (markers_from-Increasing ls false (suc num)) in
    elim (Bool-cases (is_fence_toggle l)) [
      | inl e ↦ rw e (Between-suc num _ _ toggled.0, toggled.1)
      | inr e ↦
          rw e (
            Increasing-add num _ (parse_marker l num) _ (parse_marker-line l num) (omega arith)
              same)
    ]

-- The lines of the markers increase and are lines of the document.
pub markers-Increasing :
    (content : Text)
    → All (Between 1 (suc (length (lines_of content)))) (markers content)
      × AllPairs Before (markers content)
unfolding markers
markers-Increasing content =
    subst (λ hi. Increasing 1 hi (markers content)) (omega arith)
      (markers_from-Increasing (lines_of content) false 1)
