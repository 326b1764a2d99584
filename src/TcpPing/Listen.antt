-- ===== src/TcpPing/Listen.antt =====
-- A message up to its zero byte comes back as it was sent.
use iteso_codigos.Common.{
  ℕ, zero, suc, ◌+◌, ◌-◌, ◌^◌, ◌<◌, ◌≡◌, ◌≢◌, refl, sym, append-eq-nil, ap, ap₂, ◌∙◌, true, false,
  ◌⊎◌, inl, inr, some, [], ◌∷◌, ◌++◌, append_assoc, if◌then◌else◌, ◌==◌, length, length-append,
  get_or, All, arith,
}
use iteso_codigos.Common.Text.{Bytes}
use iteso_codigos.Common.Run.{Run, done}
use iteso_codigos.Device.{Device, IsLawful, IsReliable}
use iteso_codigos.FileTransfer.Send.Laws.{write_while-Sends}
use iteso_codigos.TcpPing.{ends_in_zero, read_message, ping_listen}

-- The bytes of a message before the zero that ends it.
abbrev pub IsText : Bytes → Type 0
IsText = All (λ c. c ≢ 0)

cons_parts : (c d : ℕ) (b m : Bytes) → c ∷ b ≡ d ∷ m → (c ≡ d) × (b ≡ m)
cons_parts c d b m e = (cc, cc)

-- A block in front of a text and its zero either is all of it or stops within the text.
pub split-IsText :
    (b p m : Bytes)
    → b ++ p ≡ m ++ 0 ∷ []
    → IsText m
    → (b ≡ m ++ 0 ∷ []) × (p ≡ [])
      ⊎ ((m' : Bytes) × (p ≡ m' ++ 0 ∷ []) × (m ≡ b ++ m') × IsText b × IsText m')
split-IsText [] p m e h = inr (m, e, refl, tt, h)
split-IsText (c ∷ b) p [] e h =
    let (head, tail) = cons_parts c 0 (b ++ p) [] e in
    let (nothing, over) = append-eq-nil b p (sym tail) in
    inl (ap₂ (λ (x : ℕ) (y : Bytes). x ∷ y) head nothing, over)
split-IsText (c ∷ b) p (d ∷ m) e (k, h) =
    let (head, tail) = cons_parts c d (b ++ p) (m ++ 0 ∷ []) e in
    elim (split-IsText b p m tail h) [
      | inl (f, g) ↦ inl (ap₂ (λ (x : ℕ) (y : Bytes). x ∷ y) head f, g)
      | inr (m', f, g, hb, hm) ↦ inr (
        m',
        f,
        ap₂ (λ (x : ℕ) (y : Bytes). x ∷ y) (sym head) g,
        ((λ z. k (sym head ∙ z)), hb),
        hm,
      )
    ]

get_or_shift : (x y : Bytes) (i : ℕ) → get_or (x ++ y) (length x + i) 1 ≡ get_or y i 1
get_or_shift [] y i = ap (λ (k : ℕ). get_or y k 1) (omega arith)
get_or_shift (c ∷ x) y i =
    let e : suc (length x) + i ≡ suc (length x + i) = omega arith in
    ap (λ (k : ℕ). get_or (c ∷ (x ++ y)) k 1) e ∙ get_or_shift x y i

get_or-ne-zero : (b : Bytes) (i : ℕ) → IsText b → get_or b i 1 ≢ 0
get_or-ne-zero [] i h = omega arith
get_or-ne-zero (c ∷ b) zero (k, h) = k
get_or-ne-zero (c ∷ b) (suc i) (k, h) = get_or-ne-zero b i h

not_zero : (n : ℕ) → n ≢ 0 → (n == 0) ≡ false
not_zero n h = ground arith

zero_is : (n : ℕ) → n ≡ 0 → (n == 0) ≡ true
zero_is n h = ground arith

ends_in_zero_text : (got b : Bytes) → b ≢ [] → IsText b → ends_in_zero (got ++ b) ≡ false
unfolding ends_in_zero
ends_in_zero_text got [] some_byte h = absurd (some_byte refl)
ends_in_zero_text got (c ∷ b) some_byte h =
    let here = get_or_shift got (c ∷ b) (length b) in
    let place : length (got ++ c ∷ b) - 1 ≡ length got + length b =
      omega (arith, length-append got (c ∷ b)) in
    not_zero _ (λ z.
      get_or-ne-zero (c ∷ b) (length b) h
        (sym here ∙ ap (λ (k : ℕ). get_or (got ++ c ∷ b) k 1) (sym place) ∙ z))

ends_in_zero_end : (got m : Bytes) → ends_in_zero (got ++ (m ++ 0 ∷ [])) ≡ true
unfolding ends_in_zero
ends_in_zero_end got m =
    let here = get_or_shift (got ++ m) (0 ∷ []) 0 in
    let whole = append_assoc got m (0 ∷ []) in
    let place : length (got ++ m) + 0 ≡ length (got ++ (m ++ 0 ∷ [])) - 1 =
      omega (arith, ap length whole, length-append (got ++ m) (0 ∷ [])) in
    zero_is _ (sym (ap₂ (λ (b : Bytes) (k : ℕ). get_or b k 1) whole place) ∙ here)

regroup : (got b m' m : Bytes) → m ≡ b ++ m' → (got ++ b) ++ (m' ++ 0 ∷ []) ≡ got ++ (m ++ 0 ∷ [])
regroup got b m' m parts =
    append_assoc got b (m' ++ 0 ∷ [])
    ∙ ap (λ (t : Bytes). got ++ t)
        (sym (append_assoc b m' (0 ∷ [])) ∙ ap (λ (t : Bytes). t ++ 0 ∷ []) (sym parts))

module _ (D : Device) (L : IsLawful D) (R : IsReliable D) where
  read_block :
      (fuel c : ℕ) (got b : Bytes) (s : D.State)
      → (D.read s 1024).0 ≡ some (c ∷ b)
      → read_message D (suc fuel) got s ≡ (
          if ends_in_zero (got ++ c ∷ b)
          then done (got ++ c ∷ b, length (c ∷ b), (D.read s 1024).1)
          else read_message D fuel (got ++ c ∷ b) (D.read s 1024).1)
  unfolding read_message
  read_block fuel c got b s read = ground (arith, read)

  read_last :
      (fuel c : ℕ) (got b : Bytes) (s : D.State)
      → (D.read s 1024).0 ≡ some (c ∷ b)
      → ends_in_zero (got ++ c ∷ b) ≡ true
      → read_message D (suc fuel) got s ≡ done (got ++ c ∷ b, length (c ∷ b), (D.read s 1024).1)
  read_last fuel c got b s read ends = read_block fuel c got b s read ∙ rw ends refl

  read_more :
      (fuel c : ℕ) (got b : Bytes) (s : D.State)
      → (D.read s 1024).0 ≡ some (c ∷ b)
      → ends_in_zero (got ++ c ∷ b) ≡ false
      → read_message D (suc fuel) got s ≡ read_message D fuel (got ++ c ∷ b) (D.read s 1024).1
  read_more fuel c got b s read ends = read_block fuel c got b s read ∙ rw ends refl

  -- The message read from `s`, with nothing behind it.
  IsRead : Bytes → D.State → Run (Bytes × ℕ × D.State) → Type 0
  IsRead text s result =
      (n : ℕ) × (s' : D.State) × (result ≡ done (text, n, s'))
      × (0 < n)
      × (L.pending s' ≡ [])
      × (L.sent s' ≡ L.sent s)

  read_message-text :
      (fuel : ℕ) (got m : Bytes) (s : D.State)
      → IsText m
      → L.pending s ≡ m ++ 0 ∷ []
      → length m < fuel
      → IsRead (got ++ (m ++ 0 ∷ [])) s (read_message D fuel got s)
  unfolding IsRead
  read_message-text zero got m s h input enough = absurd (omega arith)
  read_message-text (suc fuel) got m s h input enough =
      let (b, read) = R.reads s 1024 in
      (elim b
          as (λ x.
            (D.read s 1024).0 ≡ some x
            → IsRead (got ++ (m ++ 0 ∷ [])) s (read_message D (suc fuel) got s)) [
              | [] ↦ λ e. absurd (
                  omega (
                    arith,
                    ap length (sym (L.read-eof s 1023 e) ∙ input),
                    length-append m (0 ∷ []),
                  ))
              | c ∷ b' ↦ λ e.
                  let (_, split) = L.read-some s 1024 e in
                  elim (split-IsText (c ∷ b') _ m (sym split ∙ input) h) [
                    | inl (all, over) ↦ (
                      length (c ∷ b'),
                      (D.read s 1024).1,
                      read_last fuel c got b' s e (
                            ap (λ (t : Bytes). ends_in_zero (got ++ t)) all
                            ∙ ends_in_zero_end got m)
                          ∙ ap (λ (t : Bytes). done (got ++ t, length (c ∷ b'), (D.read s 1024).1))
                              all,
                      omega arith,
                      over,
                      L.read_keeps-sent s 1024,
                    )
                    | inr (m', left, parts, hb, hm) ↦
                        let (n, s', run, pos, nothing, kept) =
                          read_message-text fuel (got ++ c ∷ b') m' (D.read s 1024).1 hm left
                            (omega (arith, ap length parts, length-append (c ∷ b') m')) in
                        (
                          n,
                          s',
                          read_more fuel c got b' s e (ends_in_zero_text got (c ∷ b') (cc) hb)
                              ∙ run
                              ∙ ap (λ (t : Bytes). done (t, n, s'))
                                  (regroup got (c ∷ b') m' m parts),
                          pos,
                          nothing,
                          kept ∙ L.read_keeps-sent s 1024,
                        )
                  ]
            ])
        read

  -- Over a reliable socket, a text that ends in its first zero byte, with fuel above its length, is
  -- sent back with that zero, however the reads and writes cut it up, and the result is positive.
  pub ping_listen-text :
      (fuel : ℕ) (m : Bytes) (s : D.State)
      → IsText m
      → L.pending s ≡ m ++ 0 ∷ []
      → length m + 1 < fuel
      → length m + 1 < 2 ^ 32
      → (n : ℕ) × (s' : D.State) × (ping_listen D fuel s ≡ done (n, s'))
        × (0 < n)
        × (L.pending s' ≡ [])
        × (L.sent s' ≡ L.sent s ++ (m ++ 0 ∷ []))
  unfolding ping_listen IsRead
  ping_listen-text fuel m s h input enough fits =
      let len = length-append m (0 ∷ []) in
      let (n, s1, read, pos, nothing, kept) = read_message-text fuel [] m s h input (omega arith) in
      let echo =
        write_while-Sends D L R (m ++ 0 ∷ []) (omega (arith, len)) fuel s1 (omega (arith, len)) in
      (
        n,
        echo.final,
        rw (read, echo.returns) refl,
        pos,
        echo.reads_nothing ∙ nothing,
        echo.delivers ∙ ap (λ (t : Bytes). t ++ (m ++ 0 ∷ [])) kept,
      )
