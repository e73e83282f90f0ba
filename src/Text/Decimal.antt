-- ===== src/Text/Decimal.antt =====
-- strconv.Itoa on a number that is not negative.
use docz.Prelude.{
  ℕ, zero, suc, ◌+◌, ◌-◌, ◌*◌, ◌/◌, ◌%◌, ◌<◌, ◌≡◌, inl, inr, ap, ◌∙◌, [], ◌∷◌, arith, ◌==◌,
  if◌then◌else◌, Bool-cases,
}
use docz.Text.{Text}

-- The digits of `n` in front of `out`; each round takes the last one off, so `n + 1` rounds suffice.
unfoldable pub digits : ℕ → ℕ → Text → Text
digits zero n out = out
digits (suc fuel) n out =
    let d = b'0' + n % 10 in
    let more = digits fuel (n / 10) (d ∷ out) in if n / 10 == 0 then d ∷ out else more

unfoldable pub itoa : ℕ → Text
itoa n = digits (suc n) n []

-- the number that digits spell behind `v`
unfoldable pub value : ℕ → Text → ℕ
value v [] = v
value v (c ∷ s) = value (v * 10 + (c - b'0')) s

value-digits : (fuel n : ℕ) (out : Text) → n < fuel → value 0 (digits fuel n out) ≡ value n out
unfolding digits value
value-digits zero n out h = absurd (omega arith)
value-digits (suc fuel) n out h = elim (Bool-cases (n / 10 == 0)) [
  | inl e ↦ rw e (ap (λ v. value v out) (ground arith))
  | inr e ↦ rw e (
      value-digits fuel (n / 10) ((b'0' + n % 10) ∷ out) (ground arith)
      ∙ ap (λ v. value v out) (omega arith))
]

-- The digits of a number spell it, so two numbers have different digits.
pub value-itoa : (n : ℕ) → value 0 (itoa n) ≡ n
unfolding itoa value
value-itoa n = value-digits (suc n) n [] (omega arith)
