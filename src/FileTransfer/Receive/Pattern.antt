-- ===== src/FileTransfer/Receive/Pattern.antt =====
-- When the string that has been read ends in an empty line.
use mathlib.Core.Bool.{false≢true}
use mathlib.Core.List.{append_cancel_right}
use iteso_codigos.Common.{
  ℕ, ◌+◌, ◌-◌, ◌<◌, ◌≡◌, refl, sym, ap, ◌∙◌, ◌≢◌, true, false, [], ◌∷◌, ◌++◌, append_assoc, ltb,
  ltb→lt, le→not_ltb, Bool-cases, inl, inr, length, take, drop, take-append-drop, take-append,
  drop-append, length-append, arith, All,
}
use iteso_codigos.Common.Text.{Bytes, same, same→eq, same_refl}
use iteso_codigos.Common.Run.{done}
use iteso_codigos.FileTransfer.Receive.{cr, lf, blank_line, at_blank_line, cut_blank_line}

-- The bytes in front of a short string do not complete it to an empty line.
pub record IsCalm (front : Bytes → Bytes) : Type 0 where
  pub no_match :
      (cmd : Bytes)
      → length cmd < 4
      → same (drop (length cmd) (front cmd) ++ cmd) blank_line ≡ false

-- Bytes that are neither the zero byte nor a line feed.
abbrev pub IsPlain : ℕ → Type 0
IsPlain c = (c ≢ 0) × (c ≢ lf)

unfoldable pub last_byte : Bytes → ℕ
last_byte [] = 0
last_byte (c ∷ []) = c
last_byte (c ∷ d ∷ s) = last_byte (d ∷ s)

pub last_byte-snoc : (s : Bytes) (c : ℕ) → last_byte (s ++ c ∷ []) ≡ c
unfolding last_byte
last_byte-snoc [] c = refl
last_byte-snoc (d ∷ []) c = refl
last_byte-snoc (d ∷ e ∷ s) c = last_byte-snoc (e ∷ s) c

pub last_byte-append : (s t : Bytes) → t ≢ [] → last_byte (s ++ t) ≡ last_byte t
unfolding last_byte
last_byte-append [] t h = refl
last_byte-append (d ∷ []) [] h = absurd (h refl)
last_byte-append (d ∷ []) (c ∷ t) h = refl
last_byte-append (d ∷ e ∷ s) t h = last_byte-append (e ∷ s) t h

pub last_byte-ne-lf : (s : Bytes) → All IsPlain s → last_byte s ≢ lf
unfolding last_byte
last_byte-ne-lf [] _ = omega arith
last_byte-ne-lf (c ∷ []) (p, _) = p.1
last_byte-ne-lf (c ∷ d ∷ s) (_, h) = last_byte-ne-lf (d ∷ s) h

snoc_inj : (s t : Bytes) (c d : ℕ) → s ++ c ∷ [] ≡ t ++ d ∷ [] → (s ≡ t) × (c ≡ d)
snoc_inj s t c d e =
    let same_last : c ≡ d = sym (last_byte-snoc s c) ∙ ap last_byte e ∙ last_byte-snoc t d in
    (append_cancel_right s t (d ∷ []) (rw same_last at e), same_last)

module _ (front : Bytes → Bytes) (calm : IsCalm front) where
  at_blank_line-split :
      (cmd : Bytes) → at_blank_line front cmd ≡ true → (r : Bytes) × (cmd ≡ r ++ blank_line)
  unfolding at_blank_line
  at_blank_line-split cmd h = elim (Bool-cases (ltb (length cmd) 4)) [
    | inl short ↦ absurd (false≢true (sym (calm.no_match cmd (ltb→lt _ _ short)) ∙ (rw short at h)))
    | inr long ↦ (
      take (length cmd - 4) cmd,
      sym (take-append-drop (length cmd - 4) cmd)
          ∙ ap (λ (t : Bytes). take (length cmd - 4) cmd ++ t) (same→eq _ _ (rw long at h)),
    )
  ]

  -- Only a line feed can complete an empty line,
  pub not_at_blank_line :
      (cmd : Bytes) (c : ℕ) → c ≢ lf → at_blank_line front (cmd ++ c ∷ []) ≡ false
  not_at_blank_line cmd c other = elim (Bool-cases (at_blank_line front (cmd ++ c ∷ []))) [
    | inr e ↦ e
    | inl e ↦
        let (r, split) = at_blank_line-split _ e in
        absurd (
          other ((snoc_inj cmd (r ++ cr ∷ lf ∷ cr ∷ []) c lf (split ∙ sym (append_assoc r _ _))).1))
  ]

  -- and the end of a line does so only behind another end of a line.
  pub not_at_blank_line_crlf :
      (r : Bytes) → last_byte r ≢ lf → at_blank_line front ((r ++ cr ∷ []) ++ lf ∷ []) ≡ false
  not_at_blank_line_crlf r other =
      elim (Bool-cases (at_blank_line front ((r ++ cr ∷ []) ++ lf ∷ []))) [
        | inr e ↦ e
        | inl e ↦
            let (q, split) = at_blank_line-split _ e in
            let inner =
              (snoc_inj (r ++ cr ∷ []) (q ++ cr ∷ lf ∷ cr ∷ []) lf lf
                (split ∙ sym (append_assoc q _ _))).0 in
            let core =
              (snoc_inj r (q ++ cr ∷ lf ∷ []) cr cr (inner ∙ sym (append_assoc q _ _))).0 in
            absurd (
              other (
                ap last_byte core
                ∙ ap last_byte (sym (append_assoc q (cr ∷ []) (lf ∷ [])))
                ∙ last_byte-snoc (q ++ cr ∷ []) lf))
      ]

module _ (front : Bytes → Bytes) where
  length-blank_line : (r : Bytes) → length (r ++ blank_line) ≡ length r + 4
  length-blank_line r = length-append r blank_line

  -- Behind an empty line the loop ends, and cuts the string in front of it.
  pub at_blank_line-append : (r : Bytes) → at_blank_line front (r ++ blank_line) ≡ true
  unfolding at_blank_line
  at_blank_line-append r =
      let len : length (r ++ blank_line) - 4 ≡ length r = omega (arith, length-blank_line r) in
      rw (le→not_ltb (length (r ++ blank_line)) 4 (omega (arith, length-blank_line r)))
        (rw (len, drop-append r blank_line) (same_refl blank_line))

  pub cut_blank_line-append :
      {S : Type 0} (r : Bytes) (s : S) → cut_blank_line front (r ++ blank_line) s ≡ done (r, s)
  unfolding cut_blank_line
  cut_blank_line-append r s =
      let len : length (r ++ blank_line) - 4 ≡ length r = omega (arith, length-blank_line r) in
      rw (le→not_ltb (length (r ++ blank_line)) 4 (omega (arith, length-blank_line r)))
        (rw (len, take-append r blank_line))
