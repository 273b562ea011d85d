-- ===== src/Text/Decimal.antt =====
-- The format "%d" of a number that is not negative.
use mpcium.Base.{
  ℕ, zero, suc, ◌+◌, ◌-◌, ◌*◌, ◌/◌, ◌%◌, ◌≤◌, ◌≡◌, refl, sym, ap, ◌∙◌, [], ◌∷◌, ◌++◌, ◌==◌,
  if◌then◌else◌, arith, Str, All, All-append, Bool-cases, inl, inr,
}

unfoldable pub digits_fuel : ℕ → ℕ → Str
digits_fuel zero n = []
digits_fuel (suc f) n =
    let rest = digits_fuel f (n / 10) ++ (48 + n % 10) ∷ [] in if n == 0 then [] else rest

unfoldable pub print_decimal : ℕ → Str
unfolding digits_fuel
print_decimal n = if n == 0 then 48 ∷ [] else digits_fuel n n

-- The number that a row of digits spells.
read_decimal_from : ℕ → Str → ℕ
read_decimal_from acc [] = acc
read_decimal_from acc (c ∷ s) = read_decimal_from (acc * 10 + (c - 48)) s

read_decimal_from-append :
    (acc : ℕ) (s t : Str)
    → read_decimal_from acc (s ++ t) ≡ read_decimal_from (read_decimal_from acc s) t
unfolding read_decimal_from
read_decimal_from-append acc [] t = refl
read_decimal_from-append acc (c ∷ s) t = read_decimal_from-append (acc * 10 + (c - 48)) s t

read-digits_fuel : (f n : ℕ) → n ≤ f → read_decimal_from 0 (digits_fuel f n) ≡ n
unfolding digits_fuel read_decimal_from
read-digits_fuel zero n h = omega arith
read-digits_fuel (suc f) n h = elim (Bool-cases (n == 0)) [
  | inl e ↦ rw e (ground arith)
  | inr e ↦
      rw
        (
          e,
          read_decimal_from-append 0 (digits_fuel f (n / 10)) ((48 + n % 10) ∷ []),
          read-digits_fuel f (n / 10) (ground arith),
        )
        (ground arith)
]

read-print_decimal : (n : ℕ) → read_decimal_from 0 (print_decimal n) ≡ n
unfolding print_decimal read_decimal_from
read-print_decimal n = elim (Bool-cases (n == 0)) [
  | inl e ↦ rw e (ground arith)
  | inr e ↦ rw e (read-digits_fuel n n (omega arith))
]

-- Two numbers with one text are equal.
pub print_decimal-injective : (m n : ℕ) → print_decimal m ≡ print_decimal n → m ≡ n
print_decimal-injective m n e =
    sym (read-print_decimal m) ∙ ap (read_decimal_from 0) e ∙ read-print_decimal n

-- A decimal digit.
abbrev pub IsDigit : ℕ → Type 0
IsDigit c = (48 ≤ c) × (c ≤ 57)

digits_fuel-IsDigit : (f n : ℕ) → All IsDigit (digits_fuel f n)
unfolding digits_fuel
digits_fuel-IsDigit zero n = tt
digits_fuel-IsDigit (suc f) n = elim (Bool-cases (n == 0)) [
  | inl e ↦ rw e tt
  | inr e ↦ rw e (
      All-append IsDigit (digits_fuel f (n / 10)) ((48 + n % 10) ∷ [])
        (digits_fuel-IsDigit f (n / 10)) (omega arith))
]

pub print_decimal-IsDigit : (n : ℕ) → All IsDigit (print_decimal n)
unfolding print_decimal
print_decimal-IsDigit n = elim (Bool-cases (n == 0)) [
  | inl e ↦ rw e (omega arith)
  | inr e ↦ rw e (digits_fuel-IsDigit n n)
]
