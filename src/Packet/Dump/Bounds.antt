-- ===== src/Packet/Dump/Bounds.antt =====
-- Which bytes of the buffer the dump reads.
use iteso_codigos.Common.{
  ℕ, zero, suc, ◌+◌, ◌-◌, ◌%◌, ◌≤◌, ◌<◌, ◌≡◌, refl, ap, ap₂, ◌∙◌, Bool, true, false, ◌||◌,
  Bool-cases, inl, inr, Option, none, some, Option-cases, [], ◌∷◌, ◌++◌, if◌then◌else◌, ◌==◌,
  length, get_elem?, arith,
}
use iteso_codigos.Common.Text.{Bytes, codes}
use iteso_codigos.Packet.Dump.{
  hex_text, shown, padding, attach, chars_from, row_end, join, dump_from, dump,
}
use iteso_codigos.Packet.Dump.Rows.{rows_from, dump-rows_from}

pub get_elem?_beyond : (b : Bytes) (i : ℕ) → length b ≤ i → get_elem? b i ≡ none
get_elem?_beyond [] i h = refl
get_elem?_beyond (x ∷ b) zero h = absurd (omega arith)
get_elem?_beyond (x ∷ b) (suc i) h = get_elem?_beyond b i (omega arith)

attach-none : (text : Bytes) (r : Option Bytes) → r ≡ none → attach text r ≡ none
attach-none text r h = rw h refl

join-none : (buf : Bytes) (r tail : Option Bytes) → tail ≡ none → join buf r tail ≡ none
join-none buf none tail h = refl
join-none buf (some text) tail h = attach-none text tail h

test-none : (b : Bool) (x y : Option Bytes) → x ≡ none → y ≡ none → (if b then x else y) ≡ none
test-none true x y h k = h
test-none false x y h k = k

dump_round :
    (buf : Bytes) (rounds i : ℕ)
    → dump_from buf rounds (i + 1) ≡ none
    → dump_from buf (suc rounds) i ≡ none
unfolding dump_from
dump_round buf rounds i h = elim (Option-cases (get_elem? buf i)) [
  | inl e ↦ rw (e, dump_from) refl
  | inr (c, e) ↦
      rw (e, dump_from)
        (attach-none (hex_text c) _
          (test-none (i % 16 == 15 || rounds == 0) _ _ (join-none buf (row_end buf i) _ h) h))
]

dump_nothing :
    (buf : Bytes) (rounds i : ℕ) → get_elem? buf i ≡ none → dump_from buf (suc rounds) i ≡ none
unfolding dump_from
dump_nothing buf rounds i h = rw (h, dump_from) refl

dump_from_beyond :
    (buf : Bytes) (rounds i : ℕ)
    → i ≤ length buf
    → length buf < i + rounds
    → dump_from buf rounds i ≡ none
dump_from_beyond buf zero i le lt = absurd (omega arith)
dump_from_beyond buf (suc rounds) i le lt = elim (Bool-cases (i == length buf)) [
  | inl e ↦ dump_nothing buf rounds i (get_elem?_beyond buf i (ground arith))
  | inr e ↦
      dump_round buf rounds i (dump_from_beyond buf rounds (i + 1) (ground arith) (omega arith))
]

-- With a length behind the end of the buffer, the dump reads behind the end.
pub dump_beyond : (buf : Bytes) (n : ℕ) → length buf < n → dump buf n ≡ none
unfolding dump
dump_beyond buf n h = dump_from_beyond buf n 0 (omega arith) (omega arith)

get_elem?_within : (b more : Bytes) (i : ℕ) → i < length b → get_elem? (b ++ more) i ≡ get_elem? b i
get_elem?_within [] more i h = absurd (omega arith)
get_elem?_within (x ∷ b) more zero h = refl
get_elem?_within (x ∷ b) more (suc i) h = get_elem?_within b more i (omega arith)

chars_from_within :
    (b more : Bytes) (rounds j : ℕ)
    → j + rounds ≤ length b
    → chars_from (b ++ more) rounds j ≡ chars_from b rounds j
unfolding chars_from
chars_from_within b more zero j h = refl
chars_from_within b more (suc rounds) j h =
    ap₂
      (λ (g : Option ℕ) (u : Option Bytes). elim g [
        | none ↦ none
        | some c ↦ attach (shown c ∷ []) u
      ])
      (get_elem?_within b more j (omega arith))
      (chars_from_within b more rounds (j + 1) (omega arith))

row_end_within : (b more : Bytes) (i : ℕ) → i < length b → row_end (b ++ more) i ≡ row_end b i
unfolding row_end
row_end_within b more i h =
    ap
      (λ (g : Option Bytes). elim g [
        | none ↦ none
        | some text ↦ some (padding (15 - i % 16) ++ (codes "| " ++ (text ++ codes "\n")))
      ])
      (chars_from_within b more (i % 16 + 1) (i - i % 16) (omega arith))

join_buffer : (b b' : Bytes) (r tail : Option Bytes) → join b r tail ≡ join b' r tail
join_buffer b b' none tail = refl
join_buffer b b' (some text) tail = refl

dump_from_within :
    (b more : Bytes) (rounds i : ℕ)
    → i + rounds ≤ length b
    → dump_from (b ++ more) rounds i ≡ dump_from b rounds i
unfolding dump_from
dump_from_within b more zero i h = refl
dump_from_within b more (suc rounds) i h =
    let later = dump_from_within b more rounds (i + 1) (omega arith) in
    let joined =
      join_buffer (b ++ more) b (row_end (b ++ more) i) (dump_from (b ++ more) rounds (i + 1))
      ∙ ap₂ (join b) (row_end_within b more i (omega arith)) later in
    let tail =
      ap₂ (λ (u v : Option Bytes). if i % 16 == 15 || rounds == 0 then u else v) joined later in
    ap₂
      (λ (g : Option ℕ) (u : Option Bytes). elim g [ none ↦ none | some c ↦ attach (hex_text c) u ])
      (get_elem?_within b more i (omega arith)) tail

-- What stands in memory behind the length is not shown.
pub dump_within : (buf more : Bytes) → dump (buf ++ more) (length buf) ≡ some (rows_from [] buf)
unfolding dump
dump_within buf more = dump_from_within buf more (length buf) 0 (omega arith) ∙ dump-rows_from buf
