-- ===== src/Controller/Decimal.antt =====
-- Decimal digits: `parseInt` reads what `toString` writes.
use analisis_de_protocolo_de.Prelude.{
  ℕ, zero, suc, ◌+◌, ◌-◌, ◌*◌, ◌/◌, ◌%◌, ◌≤◌, ◌<◌, ◌≡◌, refl, ◌∙◌, true, false, [], ◌∷◌, ◌++◌, ◌==◌,
  ltb, arith, Bool-cases, inl, inr, is_empty,
}
use analisis_de_protocolo_de.Prelude.Text.{Text, is_space}
use analisis_de_protocolo_de.Prelude.Number.{
  int, is_digit, digits_value, unsigned, parse_int, decimal_digits, decimal,
}
use analisis_de_protocolo_de.Prelude.Int.{pos}
use analisis_de_protocolo_de.Navigation.{all_digits}

all_digits-append :
    (s : Text) (d : ℕ) → all_digits s ≡ true → is_digit d ≡ true → all_digits (s ++ d ∷ []) ≡ true
unfolding all_digits
all_digits-append [] d a h = rw h refl
all_digits-append (c ∷ s) d a h = elim (Bool-cases (is_digit c)) [
  | inl u ↦ rw u (all_digits-append s d (rw u at a) h)
  | inr u ↦ absurd (cc (rw u at a))
]

digits_value-append :
    (v : ℕ) (s : Text) (d : ℕ)
    → all_digits s ≡ true
    → is_digit d ≡ true
    → digits_value v (s ++ d ∷ []) ≡ digits_value v s * 10 + (d - b'0')
unfolding all_digits digits_value
digits_value-append v [] d a h = rw h refl
digits_value-append v (c ∷ s) d a h = elim (Bool-cases (is_digit c)) [
  | inl u ↦ rw u (digits_value-append (v * 10 + (c - b'0')) s d (rw u at a) h)
  | inr u ↦ absurd (cc (rw u at a))
]

digit-is_digit : (m : ℕ) → m < 10 → is_digit (b'0' + m) ≡ true
digit-is_digit m h = ground arith

pub record IsDecimal (n : ℕ) (s : Text) : Type 0 where
  pub digits : all_digits s ≡ true
  pub filled : is_empty s ≡ false
  pub value : digits_value 0 s ≡ n

append-filled : (s : Text) (d : ℕ) → is_empty (s ++ d ∷ []) ≡ false
append-filled [] d = refl
append-filled (c ∷ s) d = refl

decimal_digits-IsDecimal : (fuel n : ℕ) → n < fuel → IsDecimal n (decimal_digits fuel n)
unfolding decimal_digits
decimal_digits-IsDecimal zero n h = absurd (omega arith)
decimal_digits-IsDecimal (suc fuel) n h = elim (Bool-cases (ltb n 10)) [
  | inl u ↦
      let small : n < 10 = ground (arith, u) in
      rw u (record {
        digits =
            all_digits-append [] (b'0' + n) (unfold all_digits in refl) (digit-is_digit n small);
        filled = refl;
        value =
            digits_value-append 0 [] (b'0' + n) (unfold all_digits in refl) (digit-is_digit n small)
            ∙ (unfold digits_value in omega arith);
      })
  | inr u ↦
      let large : 10 ≤ n = ground (arith, u) in
      let ih = decimal_digits-IsDecimal fuel (n / 10) (omega arith) in
      let d = digit-is_digit (n % 10) (omega arith) in
      rw u (record {
        digits = all_digits-append (decimal_digits fuel (n / 10)) (b'0' + n % 10) ih.digits d;
        filled = append-filled (decimal_digits fuel (n / 10)) (b'0' + n % 10);
        value =
            digits_value-append 0 (decimal_digits fuel (n / 10)) (b'0' + n % 10) ih.digits d
            ∙ omega (arith, ih.value);
      })
]

pub decimal-IsDecimal : (n : ℕ) → IsDecimal n (decimal n)
unfolding decimal
decimal-IsDecimal n = decimal_digits-IsDecimal (suc n) n (omega arith)

-- `parseInt` of digits
pub parse_int-digits : (n : ℕ) (s : Text) → IsDecimal n s → parse_int s ≡ int (pos n)
unfolding parse_int unsigned all_digits digits_value
parse_int-digits n [] h = absurd (cc (h.filled))
parse_int-digits n (c ∷ s) h =
    let u : is_digit c ≡ true = first_digit h.digits in
    let space : is_space c ≡ false = no_space c u in
    let minus : (c == b'-') ≡ false = ground (arith, u) in
    let plus : (c == b'+') ≡ false = ground (arith, u) in
    let value = h.value in
    let rest : digits_value (0 * 10 + (c - b'0')) s ≡ n = rw u at value in
    rw (space, minus, plus, u, rest) refl
  where
    first_digit : all_digits (c ∷ s) ≡ true → is_digit c ≡ true
    first_digit a = elim (Bool-cases (is_digit c)) [ inl v ↦ v | inr v ↦ absurd (cc (rw v at a)) ]

    no_space : (c : ℕ) → is_digit c ≡ true → is_space c ≡ false
    no_space c u = ground (arith, u)
