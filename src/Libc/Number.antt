-- ===== src/Libc/Number.antt =====
-- `strtol` and `strtoimax` in base 10, `atoi`, and `%u` and `%i` of `sprintf`.
pub mod RoundTrip
use iteso_codigos.Common.{
  ℕ, zero, suc, ◌+◌, ◌-◌, ◌*◌, ◌/◌, ◌%◌, ◌^◌, ◌≤◌, ◌<◌, ◌≡◌, refl, ap, ◌∙◌, min, Bool, true, false,
  ◌&&◌, ◌||◌, List, [], ◌∷◌, ◌++◌, if◌then◌else◌, ◌==◌, ltb, leb, arith, All, append-nil, length,
  length-append,
}
use iteso_codigos.Common.Text.{Bytes}

abbrev pub IsDigit : ℕ → Type 0
IsDigit c = (b'0' ≤ c) × (c ≤ b'9')

abbrev pub is_digit : ℕ → Bool
is_digit c = leb b'0' c && leb c b'9'

abbrev pub is_space : ℕ → Bool
is_space c = c == b' ' || (leb 9 c && leb c 13)

-- The value of the digits in front of `s`, behind digits worth `n`.
unfoldable pub digits_value : ℕ → Bytes → ℕ
digits_value n [] = n
digits_value n (c ∷ s) =
    let more = digits_value (n * 10 + (c - b'0')) s in if is_digit c then more else n

-- A number beyond `long` is cut to its range. The result is the bit pattern of the 64-bit value.
unfoldable pub signed_value : Bytes → ℕ
unfolding digits_value
signed_value [] = 0
signed_value (c ∷ s) =
    if c == b'-'
    then (2 ^ 64 - min (digits_value 0 s) (2 ^ 63)) % 2 ^ 64
    else if c == b'+'
    then min (digits_value 0 s) (2 ^ 63 - 1)
    else min (digits_value 0 (c ∷ s)) (2 ^ 63 - 1)

-- strtol(s, NULL, 10), and strtoimax, which has the same range.
unfoldable pub strtol : Bytes → ℕ
unfolding signed_value
strtol [] = 0
strtol (c ∷ s) = if is_space c then strtol s else signed_value (c ∷ s)

-- `%u`: the decimal digits of a number. Ten rounds print every `u_int`.
unfoldable pub decimal : ℕ → ℕ → Bytes
decimal zero n = []
decimal (suc k) n =
    let more = decimal k (n / 10) ++ (b'0' + n % 10) ∷ [] in
    if ltb n 10 then (b'0' + n) ∷ [] else more

unfoldable pub print_u : ℕ → Bytes
unfolding decimal
print_u n = decimal 10 (n % 2 ^ 32)
