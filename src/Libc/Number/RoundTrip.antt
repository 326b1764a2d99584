-- ===== src/Libc/Number/RoundTrip.antt =====
-- What `strtol` reads from digits, and that it reads what `%u` prints.
use native.Mathlib.Nat.{pow-suc}
use iteso_codigos.Common.{
  false, ℕ, zero, suc, ◌+◌, ◌-◌, ◌*◌, ◌/◌, ◌%◌, ◌^◌, ◌≤◌, ◌<◌, ◌≡◌, ◌≢◌, refl, ap, ◌∙◌, min, [],
  ◌∷◌, ◌++◌, ltb, arith, All, All-append, Bool-cases, inl, inr, ltb→lt, length, length-append,
}
use iteso_codigos.Common.Text.{Bytes}
use iteso_codigos.Libc.Number.{
  IsDigit, is_digit, digits_value, signed_value, strtol, decimal, print_u,
}

pub digits_value-append :
    (x y : Bytes) (n : ℕ)
    → All IsDigit x
    → digits_value n (x ++ y) ≡ digits_value (digits_value n x) y
unfolding digits_value
digits_value-append [] y n _ = refl
digits_value-append (c ∷ x) y n (p, h) =
    ground (arith, digits_value-append x y (n * 10 + (c - b'0')) h)

digits_value_last : (m d : ℕ) → d < 10 → digits_value m ((b'0' + d) ∷ []) ≡ m * 10 + d
unfolding digits_value
digits_value_last m d h = ground arith

pub decimal-All : (k n : ℕ) → All IsDigit (decimal k n)
unfolding decimal
decimal-All zero n = tt
decimal-All (suc k) n = elim (Bool-cases (ltb n 10)) [
  | inl small ↦ rw small ((omega arith, omega (arith, ltb→lt n 10 small)), tt)
  | inr large ↦ rw large (
      All-append IsDigit (decimal k (n / 10)) _ (decimal-All k (n / 10))
        ((omega arith, omega arith), tt))
]

pub decimal-ne-nil : (k n : ℕ) → decimal (suc k) n ≢ []
unfolding decimal
decimal-ne-nil k n = elim (Bool-cases (ltb n 10)) [
  | inl small ↦ rw small (cc)
  | inr large ↦ rw large λ e.
      absurd (omega (arith, ap length e, length-append (decimal k (n / 10)) ((b'0' + n % 10) ∷ [])))
]

pub decimal-value : (k n : ℕ) → n < 10 ^ k → digits_value 0 (decimal k n) ≡ n
unfolding decimal
decimal-value zero n h = unfold digits_value in omega arith
decimal-value (suc k) n h = elim (Bool-cases (ltb n 10)) [
  | inl small ↦ rw small (digits_value_last 0 n (ltb→lt n 10 small) ∙ omega arith)
  | inr large ↦
      rw
        (
          large,
          digits_value-append (decimal k (n / 10)) _ 0 (decimal-All k (n / 10)),
          decimal-value k (n / 10) (omega (arith, pow-suc 10 k)),
        )
        (digits_value_last (n / 10) (n % 10) (omega arith) ∙ omega arith)
]

strtol-digits :
    (s : Bytes) → s ≢ [] → All IsDigit s → strtol s ≡ min (digits_value 0 s) (2 ^ 63 - 1)
unfolding strtol signed_value
strtol-digits [] ne _ = absurd (ne refl)
strtol-digits (c ∷ s) ne (p, h) = ground arith

digits_then :
    (s rest : Bytes)
    → All IsDigit s
    → ((m : ℕ) → digits_value m rest ≡ m)
    → digits_value 0 (s ++ rest) ≡ digits_value 0 s
digits_then s rest h stop = digits_value-append s rest 0 h ∙ stop (digits_value 0 s)

strtol-digits_then :
    (s rest : Bytes)
    → s ≢ []
    → All IsDigit s
    → ((m : ℕ) → digits_value m rest ≡ m)
    → strtol (s ++ rest) ≡ min (digits_value 0 s) (2 ^ 63 - 1)
unfolding strtol signed_value
strtol-digits_then [] rest some_byte _ stop = absurd (some_byte refl)
strtol-digits_then (c ∷ s) rest some_byte (p, h) stop =
    ground (arith, digits_then (c ∷ s) rest (p, h) stop)

-- A `u_int` is read back from its decimal print.
pub strtol-print_u : (n : ℕ) → strtol (print_u n) ≡ n % 2 ^ 32
unfolding print_u
strtol-print_u n =
    strtol-digits (decimal 10 (n % 2 ^ 32)) (decimal-ne-nil 9 (n % 2 ^ 32))
      (decimal-All 10 (n % 2 ^ 32))
    ∙ rw (decimal-value 10 (n % 2 ^ 32) (omega arith)) (omega arith)

pub length-decimal : (k n : ℕ) → length (decimal k n) ≤ k
unfolding decimal
length-decimal zero n = omega arith
length-decimal (suc k) n = elim (Bool-cases (ltb n 10)) [
  | inl small ↦ rw small (omega arith)
  | inr large ↦ rw large (
      omega (
        arith,
        length-append (decimal k (n / 10)) ((b'0' + n % 10) ∷ []),
        length-decimal k (n / 10),
      ))
]

pub length-print_u : (n : ℕ) → length (print_u n) ≤ 10
unfolding print_u
length-print_u n = length-decimal 10 (n % 2 ^ 32)

pub print_u-All : (n : ℕ) → All IsDigit (print_u n)
unfolding print_u
print_u-All n = decimal-All 10 (n % 2 ^ 32)

digits_value_stop : (m c : ℕ) (rest : Bytes) → is_digit c ≡ false → digits_value m (c ∷ rest) ≡ m
unfolding digits_value
digits_value_stop m c rest stop = rw stop refl

-- What stands behind the digits does not count.
pub strtol-print_u_then :
    (n c : ℕ) (rest : Bytes) → is_digit c ≡ false → strtol (print_u n ++ c ∷ rest) ≡ n % 2 ^ 32
unfolding print_u
strtol-print_u_then n c rest stop =
    strtol-digits_then (decimal 10 (n % 2 ^ 32)) (c ∷ rest) (decimal-ne-nil 9 (n % 2 ^ 32))
      (decimal-All 10 (n % 2 ^ 32)) (λ m. digits_value_stop m c rest stop)
    ∙ rw (decimal-value 10 (n % 2 ^ 32) (omega arith)) (omega arith)
