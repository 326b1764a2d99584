-- ===== src/Packet/Dump/Rows.antt =====
-- The dump is the rows of the buffer, sixteen bytes in a row.
use iteso_codigos.Common.{
  ℕ, suc, ◌+◌, ◌-◌, ◌*◌, ◌%◌, ◌<◌, ◌≡◌, ◌≢◌, refl, sym, ap, ap₂, ◌∙◌, true, false, ◌||◌, Bool-cases,
  inl, inr, some, [], ◌∷◌, ◌++◌, append_assoc, map, if◌then◌else◌, ◌==◌, ==_iff, length,
  length-append, get_elem?, get_elem?-append, arith,
}
use iteso_codigos.Common.Text.{Bytes, codes}
use iteso_codigos.Packet.Dump.{hex_text, shown, padding, chars_from, row_end, dump_from, dump}

-- The digits of every byte in a row.
pub hex_row : Bytes → Bytes
hex_row [] = []
hex_row (c ∷ p) = hex_text c ++ hex_row p

-- What a row ends with, padded to the width of sixteen bytes.
pub text_row : Bytes → Bytes
text_row p = padding (16 - length p) ++ (codes "| " ++ (map shown p ++ codes "\n"))

pub row : Bytes → Bytes
row p = hex_row p ++ text_row p

-- Rows of sixteen bytes: `p` are the bytes of the row that is being filled.
pub rows_from : Bytes → Bytes → Bytes
rows_from p [] = []
rows_from p (c ∷ rest) =
    let full = text_row (p ++ c ∷ []) ++ rows_from [] rest in
    let open_row = rows_from (p ++ c ∷ []) rest in
    hex_text c ++ (if length (p ++ c ∷ []) == 16 || length rest == 0 then full else open_row)

chars_from_round :
    (buf t : Bytes) (rounds j c : ℕ)
    → get_elem? buf j ≡ some c
    → chars_from buf rounds (j + 1) ≡ some t
    → chars_from buf (suc rounds) j ≡ some (shown c ∷ t)
unfolding chars_from
chars_from_round buf t rounds j c here later = ground (arith, here, later)

length-snoc : (x : Bytes) (c : ℕ) → length (x ++ c ∷ []) ≡ length x + 1
length-snoc x c = length-append x (c ∷ [])

chars_from-append :
    (x p rest : Bytes) → chars_from (x ++ (p ++ rest)) (length p) (length x) ≡ some (map shown p)
unfolding chars_from
chars_from-append x [] rest = refl
chars_from-append x (c ∷ p) rest =
    chars_from_round (x ++ (c ∷ (p ++ rest))) (map shown p) (length p) (length x) c
      (get_elem?-append x c (p ++ rest))
      (sym (
          ap₂ (λ (b : Bytes) (j : ℕ). chars_from b (length p) j)
            (append_assoc x (c ∷ []) (p ++ rest)) (length-snoc x c))
        ∙ chars_from-append (x ++ c ∷ []) p rest)

row_end_step :
    (buf t : Bytes) (i k j : ℕ)
    → i % 16 ≡ k
    → i - k ≡ j
    → chars_from buf (k + 1) j ≡ some t
    → row_end buf i ≡ some (padding (15 - k) ++ (codes "| " ++ (t ++ codes "\n")))
unfolding row_end
row_end_step buf t i k j e f chars = ground (arith, e, f, chars)

-- `x` are the rows before, `p` the bytes of this row before `c`.
row_end-append :
    (x p rest : Bytes) (c n : ℕ)
    → length x ≡ 16 * n
    → length p < 16
    → row_end (x ++ (p ++ c ∷ rest)) (length x + length p) ≡ some (text_row (p ++ c ∷ []))
unfolding text_row
row_end-append x p rest c n aligned short =
    let chars =
      sym (
        ap₂ (λ (b : Bytes) (k : ℕ). chars_from b k (length x))
          (ap (λ (t : Bytes). x ++ t) (append_assoc p (c ∷ []) rest)) (length-snoc p c))
      ∙ chars_from-append x (p ++ c ∷ []) rest in
    let room : 15 - length p ≡ 16 - length (p ++ c ∷ []) = omega (arith, length-snoc p c) in
    row_end_step (x ++ (p ++ c ∷ rest)) (map shown (p ++ c ∷ [])) (length x + length p) (length p)
      (length x) (omega arith) (omega arith) chars
    ∙ ap (λ (k : ℕ). some (padding k ++ (codes "| " ++ (map shown (p ++ c ∷ []) ++ codes "\n"))))
        room

dump_from_open :
    (buf t : Bytes) (rounds i c : ℕ)
    → get_elem? buf i ≡ some c
    → (i % 16 == 15 || rounds == 0) ≡ false
    → dump_from buf rounds (i + 1) ≡ some t
    → dump_from buf (suc rounds) i ≡ some (hex_text c ++ t)
unfolding dump_from
dump_from_open buf t rounds i c here test later = ground (arith, here, test, later)

dump_from_full :
    (buf r t : Bytes) (rounds i c : ℕ)
    → get_elem? buf i ≡ some c
    → (i % 16 == 15 || rounds == 0) ≡ true
    → row_end buf i ≡ some r
    → dump_from buf rounds (i + 1) ≡ some t
    → dump_from buf (suc rounds) i ≡ some (hex_text c ++ (r ++ t))
unfolding dump_from
dump_from_full buf r t rounds i c here test ends later = ground (arith, here, test, ends, later)

rows_from_open :
    (p rest : Bytes) (c : ℕ)
    → (length (p ++ c ∷ []) == 16 || length rest == 0) ≡ false
    → rows_from p (c ∷ rest) ≡ hex_text c ++ rows_from (p ++ c ∷ []) rest
unfolding rows_from
rows_from_open p rest c test = rw test

rows_from_full :
    (p rest : Bytes) (c : ℕ)
    → (length (p ++ c ∷ []) == 16 || length rest == 0) ≡ true
    → rows_from p (c ∷ rest) ≡ hex_text c ++ (text_row (p ++ c ∷ []) ++ rows_from [] rest)
unfolding rows_from
rows_from_full p rest c test = rw test

-- The test of the loop and that of the rows.
tests_agree :
    (i k m r : ℕ) → i % 16 ≡ k → m ≡ k + 1 → (i % 16 == 15 || r == 0) ≡ (m == 16 || r == 0)
tests_agree i k m r e f = ground arith

get_elem?-in_row :
    (x p rest : Bytes) (c : ℕ) → get_elem? (x ++ (p ++ c ∷ rest)) (length x + length p) ≡ some c
get_elem?-in_row x p rest c =
    sym
      (ap₂ (λ (b : Bytes) (i : ℕ). get_elem? b i) (append_assoc x p (c ∷ rest)) (length-append x p))
    ∙ get_elem?-append (x ++ p) c rest

dump_from_nothing :
    (buf rest : Bytes) (i : ℕ)
    → length rest ≡ 0
    → dump_from buf (length rest) i ≡ some (rows_from [] rest)
unfolding dump_from rows_from
dump_from_nothing buf [] i h = refl
dump_from_nothing buf (c ∷ rest) i h = absurd (omega arith)

not_sixteen : (m r : ℕ) → (m == 16 || r == 0) ≡ false → m ≢ 16
not_sixteen m r h = ground arith

last_round : (m r : ℕ) → (m == 16 || r == 0) ≡ true → (m == 16) ≡ false → r ≡ 0
last_round m r h k = ground arith

sixteen : (m r : ℕ) → m ≡ 16 → (m == 16 || r == 0) ≡ true
sixteen m r h = ground arith

regroup : (x p rest : Bytes) (c : ℕ) → (x ++ (p ++ c ∷ [])) ++ rest ≡ x ++ (p ++ c ∷ rest)
regroup x p rest c = simp append_assoc

dump_from-rows_from :
    (rest x p : Bytes) (n : ℕ)
    → length x ≡ 16 * n
    → length p < 16
    → dump_from (x ++ (p ++ rest)) (length rest) (length x + length p) ≡ some (rows_from p rest)
dump_from-rows_from [] x p n aligned short = unfold dump_from rows_from in refl
dump_from-rows_from (c ∷ rest) x p n aligned short =
    let i = length x + length p in
    let m = length (p ++ c ∷ []) in
    let agree = tests_agree i (length p) m (length rest) (omega arith) (length-snoc p c) in
    elim (Bool-cases (m == 16 || length rest == 0)) [
      | inr open_row ↦
          dump_from_open (x ++ (p ++ c ∷ rest)) (rows_from (p ++ c ∷ []) rest) (length rest) i c
            (get_elem?-in_row x p rest c) (agree ∙ open_row)
            (sym (
                ap₂ (λ (b : Bytes) (j : ℕ). dump_from b (length rest) j)
                  (ap (λ (t : Bytes). x ++ t) (append_assoc p (c ∷ []) rest))
                  (omega (arith, length-snoc p c)))
              ∙ dump_from-rows_from rest x (p ++ c ∷ []) n aligned
                  (omega (arith, length-snoc p c, not_sixteen m (length rest) open_row)))
          ∙ ap some (sym (rows_from_open p rest c open_row))
      | inl full ↦
          dump_from_full (x ++ (p ++ c ∷ rest)) (text_row (p ++ c ∷ [])) (rows_from [] rest)
            (length rest) i c (get_elem?-in_row x p rest c) (agree ∙ full)
            (row_end-append x p rest c n aligned short)
            (elim (Bool-cases (m == 16)) [
              | inr short_row ↦
                  dump_from_nothing _ rest (i + 1) (last_round m (length rest) full short_row)
              | inl whole ↦
                  sym (
                    ap₂ (λ (b : Bytes) (j : ℕ). dump_from b (length rest) j) (regroup x p rest c)
                      (omega (arith, length-snoc p c, length-append x (p ++ c ∷ []))))
                  ∙ dump_from-rows_from rest (x ++ (p ++ c ∷ [])) [] (n + 1)
                      (omega (arith, length-append x (p ++ c ∷ []), (==_iff m 16).0 whole))
                      (omega arith)
            ])
          ∙ ap some (sym (rows_from_full p rest c full))
    ]

-- The dump of a buffer is its rows: it reads no byte behind the buffer, and shows each byte once.
pub dump-rows_from : (buf : Bytes) → dump buf (length buf) ≡ some (rows_from [] buf)
unfolding dump
dump-rows_from buf = dump_from-rows_from buf [] [] 0 refl (omega arith)

rows_from_row :
    (q p rest : Bytes)
    → p ≢ []
    → length q + length p ≡ 16
    → rows_from q (p ++ rest) ≡ hex_row p ++ (text_row (q ++ p) ++ rows_from [] rest)
unfolding hex_row
rows_from_row q [] rest some_byte e = absurd (some_byte refl)
rows_from_row q (c ∷ []) rest some_byte e =
    rows_from_full q rest c
      (sixteen (length (q ++ c ∷ [])) (length rest) (omega (arith, length-snoc q c)))
rows_from_row q (c ∷ d ∷ p) rest some_byte e =
    rows_from_open q (d ∷ (p ++ rest)) c (ground (arith, length-snoc q c))
    ∙ ap (λ (t : Bytes). hex_text c ++ t)
        (rows_from_row (q ++ c ∷ []) (d ∷ p) rest (cc) (omega (arith, length-snoc q c))
          ∙ ap (λ (t : Bytes). hex_row (d ∷ p) ++ (text_row t ++ rows_from [] rest))
              (append_assoc q (c ∷ []) (d ∷ p)))

-- Sixteen bytes in front of a buffer are one row in front of the dump of the buffer.
pub dump-append :
    (p rest t : Bytes)
    → length p ≡ 16
    → dump rest (length rest) ≡ some t
    → dump (p ++ rest) (length (p ++ rest)) ≡ some (row p ++ t)
unfolding row
dump-append p rest t e h =
    let tail : rows_from [] rest ≡ t = cc (dump-rows_from rest, h) in
    dump-rows_from (p ++ rest)
    ∙ ap some (
        rows_from_row [] p rest (λ nothing. absurd (ground (arith, e, nothing))) (omega arith)
        ∙ ap (λ (u : Bytes). hex_row p ++ (text_row p ++ u)) tail
        ∙ sym (append_assoc (hex_row p) (text_row p) t))
