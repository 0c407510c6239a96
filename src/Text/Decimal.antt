-- ===== src/Text/Decimal.antt =====
-- The decimal digits of a number, and what they read back as.
use llmops_rag_api.Text.{Text, ℕ, decimal_on, decimal}
use llmops_rag_api.Prelude.{
  zero, suc, ◌+◌, ◌-◌, ◌*◌, ◌/◌, ◌%◌, ◌≤◌, ◌<◌, ◌≡◌, refl, inl, inr, [], ◌∷◌, ◌++◌, arith, All,
  Bool-cases, ltb, All-append,
}

-- `int(s)` of a text of digits.
abbrev pub read_decimal : ℕ → Text → ℕ
read_decimal acc [] = acc
read_decimal acc (c ∷ s) = read_decimal (acc * 10 + (c - b'0')) s

abbrev pub IsDigit : ℕ → Type 0
IsDigit c = (b'0' ≤ c) × (c ≤ b'9')

read_decimal-append :
    (acc : ℕ) (s : Text) (c : ℕ)
    → read_decimal acc (s ++ (c ∷ [])) ≡ read_decimal acc s * 10 + (c - b'0')
read_decimal-append acc [] c = refl
read_decimal-append acc (d ∷ s) c = read_decimal-append (acc * 10 + (d - b'0')) s c

decimal_on-IsDigit : (fuel n : ℕ) → All IsDigit (decimal_on fuel n)
unfolding decimal_on
decimal_on-IsDigit zero n = tt
decimal_on-IsDigit (suc fuel) n = elim (Bool-cases (ltb n 10)) [
  | inl e ↦ rw e (ground arith, tt)
  | inr e ↦ rw e (
      All-append IsDigit (decimal_on fuel (n / 10)) _ (decimal_on-IsDigit fuel (n / 10))
        (omega arith, tt))
]

pub decimal-IsDigit : (n : ℕ) → All IsDigit (decimal n)
unfolding decimal
decimal-IsDigit n = decimal_on-IsDigit (suc n) n

read-decimal_on : (fuel n : ℕ) → n < fuel → read_decimal 0 (decimal_on fuel n) ≡ n
unfolding decimal_on
read-decimal_on zero n h = absurd (omega arith)
read-decimal_on (suc fuel) n h = elim (Bool-cases (ltb n 10)) [
  | inl e ↦ rw e (omega arith)
  | inr e ↦
      let more : 10 ≤ n = ground arith in
      rw e (
        rw (read_decimal-append 0 (decimal_on fuel (n / 10)) (b'0' + n % 10))
          (omega (arith, read-decimal_on fuel (n / 10) (omega arith))))
]

pub read_decimal-decimal : (n : ℕ) → read_decimal 0 (decimal n) ≡ n
unfolding decimal
read_decimal-decimal n = read-decimal_on (suc n) n (omega arith)
