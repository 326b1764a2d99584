-- ===== src/Packet/Checksum/Laws.antt =====
-- What `csum` computes, and that a block which carries its checksum has the checksum zero.
use iteso_codigos.Common.{
  ℕ, suc, ◌+◌, ◌-◌, ◌*◌, ◌%◌, ◌^◌, ◌≤◌, ◌<◌, ◌≡◌, refl, sym, ap, ◌∙◌, Option, none, some, [], ◌∷◌,
  ◌++◌, length, length-append, lt→ltb, All, All-append, arith,
}
use iteso_codigos.Common.Text.{Bytes}
use iteso_codigos.Packet.Word.{word, store16}
use iteso_codigos.Packet.Checksum.{add_words, fold_sum, csum}

abbrev pub IsByte : ℕ → Type 0
IsByte c = c < 256

-- The sum of the words of a block, with no bound. An odd last byte is a low byte.
unfoldable pub sum_words : Bytes → ℕ
sum_words [] = 0
sum_words (a ∷ []) = a
sum_words (a ∷ b ∷ buf) = word a b + sum_words buf

sum_words-le : (buf : Bytes) → All IsByte buf → sum_words buf ≤ 65535 * length buf
unfolding sum_words
sum_words-le [] _ = omega arith
sum_words-le (a ∷ []) (h, _) = omega arith
sum_words-le (a ∷ b ∷ buf) (h, (k, hs)) = omega (arith, sum_words-le buf hs)

add_words_round :
    (sum n a b : ℕ) (buf : Bytes)
    → add_words sum (suc (suc n)) (a ∷ b ∷ buf) ≡ add_words ((sum + word a b) % 2 ^ 64) n buf
unfolding add_words
add_words_round sum n a b buf =
    rw (lt→ltb 1 (suc (suc n)) (omega arith))
      (ap (λ (m : ℕ). add_words ((sum + word a b) % 2 ^ 64) m buf) (omega arith))

-- The loop adds the words of the block to the sum, without wrapping.
add_words-sum_words :
    (buf : Bytes) (sum : ℕ)
    → All IsByte buf
    → sum + 65535 * length buf < 2 ^ 64
    → add_words sum (length buf) buf ≡ some (sum + sum_words buf)
unfolding add_words sum_words
add_words-sum_words [] sum _ h = ground arith
add_words-sum_words (a ∷ []) sum (p, _) h = ground arith
add_words-sum_words (a ∷ b ∷ buf) sum (p, (q, hs)) h =
    add_words_round sum (length buf) a b buf
    ∙ ap (λ (t : ℕ). add_words t (length buf) buf) (omega arith)
    ∙ add_words-sum_words buf (sum + word a b) hs (omega arith)
    ∙ ap some (omega arith)

pub csum-sum_words :
    (buf : Bytes)
    → All IsByte buf
    → length buf < 2 ^ 31
    → csum buf (length buf) ≡ some (fold_sum (sum_words buf))
unfolding csum
csum-sum_words buf h small =
    rw (add_words-sum_words buf 0 h (omega arith), csum)
      (ap (λ (n : ℕ). some (fold_sum n)) (omega arith))

add_words_within :
    (x more : Bytes) (sum n : ℕ)
    → length x ≡ 2 * n
    → add_words sum (length x) (x ++ more) ≡ add_words sum (length x) x
unfolding add_words
add_words_within [] [] sum n e = refl
add_words_within [] (a ∷ []) sum n e = refl
add_words_within [] (a ∷ b ∷ more) sum n e = refl
add_words_within (a ∷ []) more sum n e = absurd (omega arith)
add_words_within (a ∷ b ∷ x) more sum n e =
    add_words_round sum (length x) a b (x ++ more)
    ∙ add_words_within x more ((sum + word a b) % 2 ^ 64) (n - 1) (omega arith)
    ∙ sym (add_words_round sum (length x) a b x)

-- The sum over an even number of bytes reads nothing behind them.
pub csum_within :
    (x more : Bytes) (n : ℕ) → length x ≡ 2 * n → csum (x ++ more) (length x) ≡ csum x (length x)
unfolding csum
csum_within x more n e =
    ap (λ (t : Option ℕ). elim t [ none ↦ none | some sum ↦ some (fold_sum sum) ])
      (add_words_within x more 0 n e)

option_eq : (a b : ℕ) → some a ≡ some b → a ≡ b
option_eq a b h = cc

-- Folding keeps the sum modulo 65535.
fold_sum_mod :
    (s : ℕ)
    → s < 2 ^ 32
    → (fold_sum s ≤ 65535) × ((fold_sum s + s) % 65535 ≡ 0) × (0 < fold_sum s + s)
unfolding fold_sum
fold_sum_mod s h = omega arith

fold_sum-eq-zero : (s : ℕ) → s < 2 ^ 32 → 0 < s → s % 65535 ≡ 0 → fold_sum s ≡ 0
unfolding fold_sum
fold_sum-eq-zero s h pos m = omega arith

sum_words-append :
    (x y : Bytes) (n : ℕ) → length x ≡ 2 * n → sum_words (x ++ y) ≡ sum_words x + sum_words y
unfolding sum_words
sum_words-append [] y n e = omega arith
sum_words-append (a ∷ []) y n e = absurd (omega arith)
sum_words-append (a ∷ b ∷ x) y n e = omega (arith, sum_words-append x y (n - 1) (omega arith))

sum_words-store16 : (w : ℕ) (y : Bytes) → w < 65536 → sum_words (store16 w ++ y) ≡ w + sum_words y
unfolding sum_words store16
sum_words-store16 w y h = omega arith

-- A block with its checksum field at an even place.
abbrev pub with_field : Bytes → Bytes → Bytes → Bytes
with_field x field y = x ++ (field ++ y)

sum_words-with_field :
    (x y : Bytes) (n w : ℕ)
    → length x ≡ 2 * n
    → w < 65536
    → sum_words (with_field x (store16 w) y) ≡ w + (sum_words x + sum_words y)
sum_words-with_field x y n w e h =
    omega (arith, sum_words-append x (store16 w ++ y) n e, sum_words-store16 w y h)

store16-All : (w : ℕ) → All IsByte (store16 w)
unfolding store16
store16-All w = omega arith

length-with_field :
    (x y : Bytes) (w : ℕ) → length (with_field x (store16 w) y) ≡ length x + (2 + length y)
unfolding store16
length-with_field x y w = omega (arith, length-append x (store16 w ++ y))

module _ (x y : Bytes) (n : ℕ) (even : length x ≡ 2 * n) (hx : All IsByte x) (hy : All IsByte y)
    (small : length x + length y + 4 ≤ 65536) where
  pub csum-with_field :
      (w : ℕ)
      → w < 65536
      → csum (with_field x (store16 w) y) (length (with_field x (store16 w) y))
        ≡ some (fold_sum (w + (sum_words x + sum_words y)))
  csum-with_field w h =
      csum-sum_words (with_field x (store16 w) y)
        (All-append IsByte x _ hx (All-append IsByte (store16 w) y (store16-All w) hy))
        (omega (arith, length-with_field x y w))
      ∙ ap (λ (t : ℕ). some (fold_sum t)) (sum_words-with_field x y n w even h)

  -- A block of at most 65536 bytes whose checksum field, at an even place, was zero when the checksum
  -- was computed, and then holds it, has the checksum 0: the test that every receiver makes.
  pub csum_verifies :
      (w : ℕ)
      → csum (with_field x (store16 0) y) (length (with_field x (store16 0) y)) ≡ some w
      → (w < 65536)
        × (csum (with_field x (store16 w) y) (length (with_field x (store16 w) y)) ≡ some 0)
  csum_verifies w computed =
      let total = sum_words x + sum_words y in
      let zeros = csum-with_field 0 (omega arith) in
      let e : w ≡ fold_sum (0 + total) = option_eq w _ (sym computed ∙ zeros) in
      let bounded : total + 65536 < 2 ^ 32 = omega (arith, sum_words-le x hx, sum_words-le y hy) in
      let folded = fold_sum_mod (0 + total) (omega arith) in
      (
        omega (arith, e, folded),
        csum-with_field w (omega (arith, e, folded))
            ∙ ap some (
                fold_sum-eq-zero (w + total) (omega (arith, e, folded)) (omega (arith, e, folded))
                  (omega (arith, e, folded))),
      )
