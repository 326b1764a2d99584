-- ===== src/UdpFileTransfer/Pieces.antt =====
-- The pieces into which the UDP server cuts a file.
use mathlib.Core.Path.{subst}
use iteso_codigos.Common.{
  ℕ, ◌≤◌, ◌<◌, ◌≡◌, ◌≢◌, refl, sym, ap, ◌∙◌, some, List, [], ◌∷◌, ◌++◌, append-nil, length,
  length-append, length-take, take, take-append, take-eq_self, arith,
}
use iteso_codigos.Common.Text.{Bytes, concat}
use iteso_codigos.Device.{Device, IsLawful}

-- A file that was cut into pieces of p bytes, the last of which may be shorter.
abbrev pub Cut : ℕ → List Bytes → Type 0
Cut p [] = Unit
Cut p (b ∷ []) = (0 < length b) × (length b ≤ p)
Cut p (b ∷ c ∷ bs) = (length b ≡ p) × Cut p (c ∷ bs)

pub Cut-cons :
    (p : ℕ) (b : Bytes) (bs : List Bytes)
    → 0 < p
    → Cut p (b ∷ bs)
    → (0 < length b) × (length b ≤ p) × Cut p bs × (bs ≢ [] → length b ≡ p)
Cut-cons p b [] pos (some_byte, short) = (some_byte, short, tt, λ k. absurd (k refl))
Cut-cons p b (c ∷ bs) pos (full, rest) = (omega arith, omega arith, rest, λ k. full)

-- A piece in front of what is left.
pub cons-Cut :
    (b : Bytes) (bs : List Bytes) (left : Bytes)
    → 0 < length b
    → length b ≤ 10240
    → Cut 10240 bs
    → concat bs ≡ left
    → (0 < length left → length b ≡ 10240)
    → Cut 10240 (b ∷ bs)
cons-Cut b [] left some_byte short cut whole full = (some_byte, short)
cons-Cut b (c ∷ bs) left some_byte short cut whole full =
    let (piece, _, _, _) = Cut-cons 10240 c bs (omega arith) cut in
    (full (omega (arith, piece, ap length whole, length-append c (concat bs))), cut)

-- The reads of a file on disk: they are as long as they can be.
abbrev pub ReadsFull : (F : Device) → IsLawful F → Type 0
ReadsFull F LF = (f : F.State) → (F.read f 10240).0 ≡ some (take 10240 (LF.pending f))

pub full_piece :
    (b pending left : Bytes)
    → pending ≡ b ++ left
    → some b ≡ some (take 10240 pending)
    → 0 < length left
    → length b ≡ 10240
full_piece b pending left split full more =
    let e : b ≡ take 10240 pending = cc in
    omega (arith, ap length e, length-take 10240 pending, ap length split, length-append b left)

-- The first piece is what the file begins with.
pub first_piece :
    (p : ℕ) (b : Bytes) (bs : List Bytes) → Cut p (b ∷ bs) → b ≡ take p (concat (b ∷ bs))
first_piece p b [] (some_byte, short) = rw (append-nil b) (sym (take-eq_self p b short))
first_piece p b (c ∷ bs) (full, rest) =
    sym (take-append b (concat (c ∷ bs))) ∙ ap (λ (k : ℕ). take k (b ++ concat (c ∷ bs))) full

-- The pieces behind it are as long as it is.
pub later_pieces : (p : ℕ) (b : Bytes) (bs : List Bytes) → Cut p (b ∷ bs) → Cut (length b) bs
later_pieces p b [] cut = tt
later_pieces p b (c ∷ bs) (full, rest) = subst (λ (k : ℕ). Cut k (c ∷ bs)) (sym full) rest

pub count_pieces : (p : ℕ) (bs : List Bytes) → 0 < p → Cut p bs → length bs ≤ length (concat bs)
count_pieces p [] pos cut = omega arith
count_pieces p (b ∷ bs) pos cut =
    let (some_byte, _, rest, _) = Cut-cons p b bs pos cut in
    omega (arith, some_byte, count_pieces p bs pos rest, length-append b (concat bs))
