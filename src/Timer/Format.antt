-- ===== src/Timer/Format.antt =====
-- `defaultFormatter`, with `idiv` and `padStart`.
use analisis_de_protocolo_de.Prelude.{
  ap, ◌∙◌, false, ℕ, zero, suc, ◌+◌, ◌*◌, ◌/◌, ◌%◌, ◌<◌, ◌≤◌, ◌≡◌, refl, Bool, true, [], ◌∷◌, ◌++◌,
  ltb, map, if◌then◌else◌, length, arith, Bool-cases, inl, inr, length-append,
}
use analisis_de_protocolo_de.Prelude.Text.{Text, codes, join, text_eq, text_eq_iff}
use analisis_de_protocolo_de.Prelude.Number.{decimal}

-- Math.floor(n / d)
unfoldable pub idiv : ℕ → ℕ → ℕ
idiv n d = n / d

-- The loop of `padStart`: a round makes the text longer by `pad`, which is not empty.
unfoldable pub pad_loop : ℕ → Text → ℕ → Text → Text
pad_loop zero s size pad = s
pad_loop (suc fuel) s size pad =
    let rest = pad_loop fuel (pad ++ s) size pad in if ltb (length s) size then rest else s

unfoldable pub pad_start : Text → ℕ → Text → Text
unfolding pad_loop
pad_start s size pad = pad_loop size s size pad

unfoldable pub default_formatter : ℕ → Text
unfolding idiv pad_start decimal join
default_formatter elapsed_time =
    let left = idiv elapsed_time 1000 in
    let seconds = left % 60 in
    let left' = idiv left 60 in
    let minutes = left' % 60 in
    let hours = idiv left' 60 in
    decimal hours
    ++ (codes ":"
        ++ join (codes ":")
            (map (λ s. pad_start s 2 (codes "0")) (map decimal (minutes ∷ seconds ∷ []))))

-- Two digits.
unfoldable pub two_digits : ℕ → Text
two_digits n = (b'0' + n / 10) ∷ ((b'0' + n % 10) ∷ [])

-- The loop of `padStart` ends when the text is long enough.
pub length-pad_loop :
    (fuel : ℕ) (s : Text) (size : ℕ) (pad : Text)
    → size ≤ fuel + length s
    → 1 ≤ length pad
    → size ≤ length (pad_loop fuel s size pad)
unfolding pad_loop
length-pad_loop zero s size pad h p = omega arith
length-pad_loop (suc fuel) s size pad h p = elim (Bool-cases (ltb (length s) size)) [
  | inl u ↦ rw u (length-pad_loop fuel (pad ++ s) size pad (omega (arith, length-append pad s)) p)
  | inr u ↦ rw u (ground (arith, u))
]

-- A test of `size` numbers, of the first and those after it.
holds_from : (ℕ → Bool) → ℕ → ℕ → Bool
holds_from test first zero = true
holds_from test first (suc size) = if test first then holds_from test (first + 1) size else false

holds_from-at :
    (test : ℕ → Bool) (first size k : ℕ)
    → holds_from test first size ≡ true
    → k < size
    → test (first + k) ≡ true
unfolding holds_from
holds_from-at test first zero k h l = absurd (omega arith)
holds_from-at test first (suc size) zero h l = elim (Bool-cases (test first)) [
  | inl u ↦ ap test (omega arith) ∙ u
  | inr u ↦ absurd (cc (rw u at h))
]
holds_from-at test first (suc size) (suc k) h l = elim (Bool-cases (test first)) [
  | inl u ↦
      let n : first + suc k ≡ (first + 1) + k = omega arith in
      ap test n ∙ holds_from-at test (first + 1) size k (rw u at h) (omega arith)
  | inr u ↦ absurd (cc (rw u at h))
]

is_padded : ℕ → Bool
is_padded n = text_eq (pad_start (decimal n) 2 (codes "0")) (two_digits n)

-- Every number of minutes or seconds is padded to its two digits.
sixty_padded : holds_from is_padded 0 60 ≡ true
unfolding holds_from is_padded pad_start decimal two_digits text_eq
sixty_padded = refl

pad_start-two : (n : ℕ) → n < 60 → pad_start (decimal n) 2 (codes "0") ≡ two_digits n
unfolding is_padded
pad_start-two n l =
    (text_eq_iff (pad_start (decimal n) 2 (codes "0")) (two_digits n)).0
      (ap is_padded (omega arith) ∙ holds_from-at is_padded 0 60 n sixty_padded l)

-- The text is of the form h:mm:ss, with two digits each for minutes and seconds that are below 60,
-- and hours, minutes and seconds make up the elapsed time, in whole seconds.
pub default_formatter-parts :
    (elapsed_time : ℕ)
    → (hours minutes seconds : ℕ) × (default_formatter elapsed_time
        ≡ decimal hours ++ (codes ":" ++ (two_digits minutes ++ (codes ":" ++ two_digits seconds))))
      × (hours * 3600 + minutes * 60 + seconds ≡ elapsed_time / 1000)
      × (minutes < 60)
      × (seconds < 60)
unfolding default_formatter idiv join
default_formatter-parts t =
    let s = t / 1000 in
    (
      s / 60 / 60,
      s / 60 % 60,
      s % 60,
      rw (pad_start-two (s / 60 % 60) (omega arith), pad_start-two (s % 60) (omega arith)) refl,
      omega arith,
      omega arith,
      omega arith,
    )
