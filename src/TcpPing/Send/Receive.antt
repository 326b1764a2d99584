-- ===== src/TcpPing/Send/Receive.antt =====
-- The loop of `pingSend` that reads the answer into its buffer.
use iteso_codigos.Common.{
  ℕ, zero, suc, ◌+◌, ◌-◌, ◌%◌, ◌^◌, ◌≤◌, ◌<◌, ◌≡◌, ◌≢◌, refl, sym, ap, ap₂, ◌∙◌, inl, inr, none,
  some, [], ◌∷◌, ◌++◌, append_assoc, if◌then◌else◌, le→not_ltb, ◌==◌, ==_ne, length, length-append,
  get_elem?, get_elem?-append, drop, take-append, drop-append, drop-add, arith,
}
use iteso_codigos.Common.Text.{Bytes}
use iteso_codigos.Common.Run.{Run, done, fault}
use iteso_codigos.Device.{Device, IsLawful, IsReliable}
use iteso_codigos.Device.Blocks.{read-NextBlock, ended, block}
use iteso_codigos.TcpPing.Listen.{IsText, split-IsText}
use iteso_codigos.TcpPing.Send.{store, receive_message}

-- The last byte of a block within the text is not zero.
last_byte_text :
    (c : ℕ) (b x rest : Bytes)
    → IsText (c ∷ b)
    → (d : ℕ) × (get_elem? (x ++ ((c ∷ b) ++ rest)) (length x + length b) ≡ some d) × (d ≢ 0)
last_byte_text c [] x rest (k, _) =
    (c, ap (get_elem? (x ++ c ∷ rest)) (omega arith) ∙ get_elem?-append x c rest, k)
last_byte_text c (d ∷ b) x rest (k, h) =
    let (e, at, other) = last_byte_text d b (x ++ c ∷ []) rest h in
    (
      e,
      ap₂ (λ (t : Bytes) (i : ℕ). get_elem? t i) (sym (append_assoc x (c ∷ []) (d ∷ (b ++ rest))))
            (omega (arith, length-append x (c ∷ [])))
          ∙ at,
      other,
    )

store-append :
    (got b rest : Bytes) → store (length got) b (got ++ rest) ≡ got ++ (b ++ drop (length b) rest)
store-append got b rest =
    ap₂ (λ (x y : Bytes). x ++ (b ++ y)) (take-append got rest)
      (drop-add (length got) (length b) (got ++ rest) ∙ ap (drop (length b)) (drop-append got rest))

-- A block that ends in zero, in a buffer.
zero_last :
    (x b m rest : Bytes)
    → b ≡ m ++ 0 ∷ []
    → get_elem? (x ++ (b ++ rest)) (length x + length b - 1) ≡ some 0
zero_last x b m rest e =
    let moved : (x ++ m) ++ 0 ∷ rest ≡ x ++ (b ++ rest) = rw e (simp append_assoc) in
    let place : length (x ++ m) ≡ length x + length b - 1 =
      omega (arith, length-append x m, ap length e, length-append m (0 ∷ [])) in
    sym (ap₂ (λ (t : Bytes) (i : ℕ). get_elem? t i) moved place) ∙ get_elem?-append (x ++ m) 0 rest

same_rest :
    (got b m rest : Bytes)
    → b ≡ m ++ 0 ∷ []
    → got ++ (b ++ drop (length b) rest) ≡ got ++ ((m ++ 0 ∷ []) ++ drop (length m + 1) rest)
same_rest got b m rest e =
    ap₂ (λ (t : Bytes) (k : ℕ). got ++ (t ++ drop k rest)) e
      (omega (arith, ap length e, length-append m (0 ∷ [])))

regroup_rest :
    (got b m' m rest : Bytes)
    → m ≡ b ++ m'
    → (got ++ b) ++ ((m' ++ 0 ∷ []) ++ drop (length m' + 1) (drop (length b) rest))
      ≡ got ++ ((m ++ 0 ∷ []) ++ drop (length m + 1) rest)
regroup_rest got b m' m rest parts =
    let cut : drop (length m' + 1) (drop (length b) rest) ≡ drop (length m + 1) rest =
      sym (drop-add (length b) (length m' + 1) rest)
      ∙ ap (λ (k : ℕ). drop k rest) (omega (arith, ap length parts, length-append b m')) in
    ap (λ (t : Bytes). (got ++ b) ++ ((m' ++ 0 ∷ []) ++ t)) cut ∙ rw parts (simp append_assoc)

last_index : (total : ℕ) → 0 < total → total < 2 ^ 32 → (total + 2 ^ 32 - 1) % 2 ^ 32 ≡ total - 1
last_index total pos fits = omega arith

module _ (D : Device) where
  -- What follows a block that was read: the test of its last byte.
  checked : ℕ → ℕ → ℕ → Bytes → D.State → Run (Bytes × D.State)
  checked fuel size total buffer s = elim (get_elem? buffer ((total + 2 ^ 32 - 1) % 2 ^ 32)) [
    | none ↦ fault
    | some c ↦
        let more = receive_message D fuel size total buffer s in
        if c == 0 then done (buffer, s) else more
  ]

  receive_block :
      (fuel size total c : ℕ) (b buffer : Bytes) (s : D.State)
      → (D.read s size).0 ≡ some (c ∷ b)
      → total + length (c ∷ b) ≤ size + 1
      → receive_message D (suc fuel) size total buffer s
        ≡ checked fuel size (total + length (c ∷ b)) (store total (c ∷ b) buffer) (D.read s size).1
  unfolding receive_message checked
  receive_block fuel size total c b buffer s got fits =
      rw (got, receive_message) (rw (le→not_ltb (size + 1) (total + length (c ∷ b)) fits) refl)

  checked_end :
      (fuel size total : ℕ) (buffer : Bytes) (s : D.State)
      → 0 < total
      → total < 2 ^ 32
      → get_elem? buffer (total - 1) ≡ some 0
      → checked fuel size total buffer s ≡ done (buffer, s)
  unfolding checked
  checked_end fuel size total buffer s pos fits last =
      rw (last_index total pos fits, checked) (rw (last, checked) refl)

  checked_more :
      (fuel size total d : ℕ) (buffer : Bytes) (s : D.State)
      → 0 < total
      → total < 2 ^ 32
      → get_elem? buffer (total - 1) ≡ some d
      → d ≢ 0
      → checked fuel size total buffer s ≡ receive_message D fuel size total buffer s
  unfolding checked
  checked_more fuel size total d buffer s pos fits last other =
      rw (last_index total pos fits, checked) (rw (last, checked) (rw (==_ne d 0 other) refl))

module _ (D : Device) (L : IsLawful D) (R : IsReliable D) (r : ℕ) (small : suc r < 2 ^ 31) where
  -- `got` has come, and the text `m` and its zero are left to come; `rest` is what the buffer holds
  -- behind `got`.
  pub receive_text :
      (fuel : ℕ) (got rest m : Bytes) (s : D.State)
      → IsText m
      → L.pending s ≡ m ++ 0 ∷ []
      → length got + length m + 1 ≡ suc r
      → length m < fuel
      → (s' : D.State) × (receive_message D fuel (suc r) (length got) (got ++ rest) s
          ≡ done (got ++ ((m ++ 0 ∷ []) ++ drop (length m + 1) rest), s'))
        × (L.pending s' ≡ [])
        × (L.sent s' ≡ L.sent s)
  receive_text zero got rest m s h input room enough = absurd (omega arith)
  receive_text (suc fuel) got rest m s h input room enough = elim (read-NextBlock D L R s r) [
    | ended read nothing left ↦
        absurd (omega (arith, ap length (sym nothing ∙ input), length-append m (0 ∷ [])))
    | block c b read split fits len ↦
        let s' = (D.read s (suc r)).1 in
        let whole = ap length input ∙ length-append m (0 ∷ []) in
        let stored =
          receive_block D fuel (suc r) (length got) c b (got ++ rest) s read
            (omega (arith, whole, len))
          ∙ ap (λ (t : Bytes). checked D fuel (suc r) (length got + length (c ∷ b)) t s')
              (store-append got (c ∷ b) rest) in
        elim (split-IsText (c ∷ b) (L.pending s') m (sym split ∙ input) h) [
          | inl (all, over) ↦ (
            s',
            stored
                ∙ checked_end D fuel (suc r) (length got + length (c ∷ b)) _ s' (omega arith)
                    (omega (arith, whole, len)) (zero_last got (c ∷ b) m _ all)
                ∙ ap (λ (t : Bytes). done (t, s')) (same_rest got (c ∷ b) m rest all),
            over,
            L.read_keeps-sent s (suc r),
          )
          | inr (m', left, parts, hb, hm) ↦
              let (d, last, other) = last_byte_text c b got (drop (length (c ∷ b)) rest) hb in
              let place : length got + length (c ∷ b) - 1 ≡ length got + length b = omega arith in
              let (s'', run, nothing, kept) =
                receive_text fuel (got ++ c ∷ b) (drop (length (c ∷ b)) rest) m' s' hm left
                  (omega
                    (arith, length-append got (c ∷ b), ap length parts, length-append (c ∷ b) m'))
                  (omega (arith, ap length parts, length-append (c ∷ b) m')) in
              (
                s'',
                stored
                    ∙ checked_more D fuel (suc r) (length got + length (c ∷ b)) d _ s' (omega arith)
                        (omega (arith, whole, len))
                        (ap (get_elem? (got ++ ((c ∷ b) ++ drop (length (c ∷ b)) rest))) place
                          ∙ last)
                        other
                    ∙ ap₂ (λ (k : ℕ) (t : Bytes). receive_message D fuel (suc r) k t s')
                        (sym (length-append got (c ∷ b)))
                        (sym (append_assoc got (c ∷ b) (drop (length (c ∷ b)) rest)))
                    ∙ run
                    ∙ ap (λ (t : Bytes). done (t, s'')) (regroup_rest got (c ∷ b) m' m rest parts),
                nothing,
                kept ∙ L.read_keeps-sent s (suc r),
              )
        ]
  ]
