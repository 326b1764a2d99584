-- ===== src/FileTransfer/Receive/Loop.antt =====
-- The reading loop over a lawful descriptor.
use mathlib.Core.List.{cons-ne-nil}
use iteso_codigos.Common.{
  ℕ, suc, ◌+◌, ◌-◌, ◌≤◌, ◌≡◌, refl, sym, ap, ◌∙◌, ◌≢◌, false, none, some, [], ◌∷◌, ◌++◌,
  append_assoc, append-nil, length, length-append, arith,
}
use iteso_codigos.Common.Text.{Bytes}
use iteso_codigos.Common.Run.{Run, done}
use iteso_codigos.Device.{Device, IsLawful, IsReliable}
use iteso_codigos.FileTransfer.Receive.{
  cr, lf, blank_line, add_byte, byte_of, at_blank_line, read_until,
}
use iteso_codigos.FileTransfer.Receive.Pattern.{at_blank_line-append, cut_blank_line-append}

-- Reading `m` behind `cmd` meets no zero byte and no empty line.
abbrev pub Quiet : (Bytes → Bytes) → Bytes → Bytes → Type 0
Quiet front cmd [] = Unit
Quiet front cmd (c ∷ m) =
    (c ≢ 0) × (at_blank_line front (cmd ++ c ∷ []) ≡ false) × Quiet front (cmd ++ c ∷ []) m

pub Quiet-append :
    (front : Bytes → Bytes) (cmd x y : Bytes)
    → Quiet front cmd x
    → Quiet front (cmd ++ x) y
    → Quiet front cmd (x ++ y)
Quiet-append front cmd [] y _ h = rw append-nil at h
Quiet-append front cmd (c ∷ x) y (p, q, r) h =
    (p, q, Quiet-append front (cmd ++ c ∷ []) x y r (rw (← append_assoc cmd (c ∷ []) x) at h))

-- A run that returns the text `cmd`, leaves `rest` unread and sends nothing.
pub record Reads (D : Device) (L : IsLawful D) (s : D.State) (cmd rest : Bytes)
    (result : Run (Bytes × D.State)) : Type 0 where
  pub final : D.State
  pub returns : result ≡ done (cmd, final)
  pub leaves : L.pending final ≡ rest
  pub sends_nothing : L.sent final ≡ L.sent s

one_byte :
    (b p q : Bytes) (c : ℕ)
    → length b ≤ 1
    → c ∷ p ≡ b ++ q
    → (b ≡ [] → ⊥)
    → (byte_of (some b) ≡ some c) × (q ≡ p)
unfolding byte_of
one_byte [] p q c h e ne = absurd (ne refl)
one_byte (d ∷ []) p q c h e ne = (cc, cc)
one_byte (d ∷ d' ∷ b) p q c h e ne = absurd (omega arith)

no_byte : (b q : Bytes) → [] ≡ b ++ q → (byte_of (some b) ≡ none) × (q ≡ [])
unfolding byte_of
no_byte [] q e = (refl, sym e)
no_byte (c ∷ b) q e = cc

module _ (D : Device) (L : IsLawful D) (R : IsReliable D) where
  -- `read` of one byte takes the next one,
  pub read_byte :
      (s : D.State) (c : ℕ) (p : Bytes)
      → L.pending s ≡ c ∷ p
      → (byte_of (D.read s 1).0 ≡ some c) × (L.pending (D.read s 1).1 ≡ p)
  read_byte s c p h =
      let (b, got) = R.reads s 1 in
      let (fits, split) = L.read-some s 1 got in
      rw got (
        one_byte b p _ c fits (sym h ∙ split)
          λ e. absurd (cons-ne-nil c p (sym h ∙ L.read-eof s 0 (got ∙ ap some e))))

  -- and at the end of the input none.
  pub read_end :
      (s : D.State)
      → L.pending s ≡ []
      → (byte_of (D.read s 1).0 ≡ none) × (L.pending (D.read s 1).1 ≡ [])
  read_end s h =
      let (b, got) = R.reads s 1 in
      let (fits, split) = L.read-some s 1 got in rw got (no_byte b _ (sym h ∙ split))

  module _ (front : Bytes → Bytes) where
    -- One round of the loop, on a byte that ends no line.
    read_until_round :
        (cmd p : Bytes) (c fuel : ℕ) (s : D.State)
        → c ≢ 0
        → at_blank_line front (cmd ++ c ∷ []) ≡ false
        → L.pending s ≡ c ∷ p
        → read_until front D (suc fuel) cmd s
          ≡ read_until front D fuel (cmd ++ c ∷ []) (D.read s 1).1
    unfolding read_until add_byte
    read_until_round cmd p c fuel s some_byte inside h =
        ground (arith, (read_byte s c p h).0, inside)

    -- The loop takes over every byte of a quiet text.
    pub read_until-Quiet :
        (m : Bytes) (cmd rest : Bytes) (fuel : ℕ) (s : D.State)
        → Quiet front cmd m
        → L.pending s ≡ m ++ rest
        → (s' : D.State) × (read_until front D (length m + fuel) cmd s
            ≡ read_until front D fuel (cmd ++ m) s')
          × (L.pending s' ≡ rest)
          × (L.sent s' ≡ L.sent s)
    read_until-Quiet [] cmd rest fuel s _ h =
        let e : 0 + fuel ≡ fuel = omega arith in (s, rw (e, append-nil), h, refl)
    read_until-Quiet (c ∷ m) cmd rest fuel s (p, q, r) h =
        let e : suc (length m) + fuel ≡ suc (length m + fuel) = omega arith in
        let (s', run, left, told) =
          read_until-Quiet m (cmd ++ c ∷ []) rest fuel (D.read s 1).1 r
            (read_byte s c (m ++ rest) h).1 in
        (
          s',
          rw e (
              read_until_round cmd (m ++ rest) c (length m + fuel) s p q h
              ∙ run
              ∙ ap (λ (t : Bytes). read_until front D fuel t s') (append_assoc cmd (c ∷ []) m)),
          left,
          told ∙ L.read_keeps-sent s 1,
        )

    -- The last line feed ends it.
    read_until_last :
        (r p : Bytes) (fuel : ℕ) (s : D.State)
        → L.pending s ≡ lf ∷ p
        → read_until front D (suc fuel) (r ++ cr ∷ lf ∷ cr ∷ []) s ≡ done (r, (D.read s 1).1)
    unfolding read_until add_byte
    read_until_last r p fuel s h = ground (
      arith,
      (read_byte s lf p h).0,
      append_assoc r (cr ∷ lf ∷ cr ∷ []) (lf ∷ []),
      at_blank_line-append front r,
      cut_blank_line-append front r (D.read s 1).1,
    )

    -- A text behind which the first empty line comes is read whole, and nothing behind the line.
    pub read_until-Reads :
        (r rest : Bytes) (fuel : ℕ) (s : D.State)
        → Quiet front [] (r ++ cr ∷ lf ∷ cr ∷ [])
        → L.pending s ≡ r ++ (blank_line ++ rest)
        → length r + 4 ≤ fuel
        → Reads D L s r rest (read_until front D fuel [] s)
    read_until-Reads r rest fuel s quiet h enough =
        let head = r ++ cr ∷ lf ∷ cr ∷ [] in
        let len : fuel ≡ length head + suc (fuel - length r - 4) =
          omega (arith, length-append r (cr ∷ lf ∷ cr ∷ [])) in
        let split : L.pending s ≡ head ++ lf ∷ rest = h ∙ simp append_assoc in
        let (s', run, left, told) =
          read_until-Quiet head [] (lf ∷ rest) (suc (fuel - length r - 4)) s quiet split in
        record {
          final = (D.read s' 1).1;
          returns =
              ap (λ (n : ℕ). read_until front D n [] s) len
              ∙ run
              ∙ read_until_last r rest _ s' left;
          leaves = (read_byte s' lf rest left).1;
          sends_nothing = L.read_keeps-sent s' 1 ∙ told;
        }

    -- At the end of the input the loop returns what it has, complete or not.
    pub read_until_end :
        (cmd : Bytes) (fuel : ℕ) (s : D.State)
        → L.pending s ≡ []
        → Reads D L s cmd [] (read_until front D (suc fuel) cmd s)
    unfolding read_until
    read_until_end cmd fuel s h =
        let (nothing, left) = read_end s h in
        record {
          final = (D.read s 1).1;
          returns = ground (arith, nothing);
          leaves = left;
          sends_nothing = L.read_keeps-sent s 1;
        }
