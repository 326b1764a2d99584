-- ===== src/TcpPing/Send/Laws.antt =====
-- A ping that is answered by its own message is a success.
use iteso_codigos.Common.{
  ℕ, zero, suc, ◌+◌, ◌-◌, ◌*◌, ◌^◌, ◌≤◌, ◌<◌, ◌≡◌, refl, sym, ap, ap₂, ◌∙◌, Bool, true, Bool-cases,
  inl, inr, [], ◌∷◌, ◌++◌, append_assoc, ltb, ltb→lt, not_ltb→le, ==_ne, length, length-append,
  take, drop, take-append, take-append-drop, replicate, arith,
}
use mathlib.Core.List.{append_cancel_right}
use iteso_codigos.Common.Text.{Bytes, same, same_refl}
use iteso_codigos.Common.Run.{Run, done}
use iteso_codigos.Device.{Device, IsLawful, IsReliable}
use iteso_codigos.FileTransfer.Send.Laws.{write_step-Advances}
use iteso_codigos.TcpPing.Listen.{IsText}
use iteso_codigos.TcpPing.Send.Receive.{receive_text}
use iteso_codigos.TcpPing.Send.{
  real_size, letters, message, send_message, receive_message, ping_send,
}

pub letters-IsText : (n i : ℕ) → IsText (letters i n)
unfolding letters
letters-IsText zero i = tt
letters-IsText (suc n) i = (omega arith, letters-IsText n (i + 1))

pub length-letters : (n i : ℕ) → length (letters i n) ≡ n
unfolding letters
length-letters zero i = refl
length-letters (suc n) i = ap suc (length-letters n (i + 1))

module _ (D : Device) (L : IsLawful D) (R : IsReliable D) (text : Bytes)
    (small : length text < 2 ^ 32) where
  -- The loop ends with all of the text sent but perhaps its last byte.
  send_message_from :
      (fuel pos : ℕ) (s : D.State)
      → pos ≤ length text
      → length text - pos < fuel
      → (k : ℕ) × (s' : D.State) × (send_message D fuel text (pos, s) ≡ done (k, s'))
        × (length text ≤ k + 1)
        × (k ≤ length text)
        × (L.sent s' ++ drop k text ≡ L.sent s ++ drop pos text)
        × (L.pending s' ≡ L.pending s)
  unfolding send_message
  send_message_from zero pos s fits enough = absurd (omega arith)
  send_message_from (suc fuel) pos s fits enough = elim (Bool-cases (ltb pos (length text - 1))) [
    | inl more ↦
        let adv = write_step-Advances D L R text small pos s (omega (arith, ltb→lt pos _ more)) in
        let (k, s', returns, low, high, delivers, kept) =
          send_message_from fuel adv.next adv.final adv.within (omega (arith, adv.forward)) in
        (
          k,
          s',
          rw (more, adv.stepped) returns,
          low,
          high,
          delivers ∙ adv.delivers,
          kept ∙ adv.reads_nothing,
        )
    | inr over ↦ (pos, s, rw over refl, omega (arith, not_ltb→le pos _ over), fits, refl, refl)
  ]

-- What the buffer holds is compared up to the size, and the message is that long.
compared :
    (m rest : Bytes) (size : ℕ)
    → length (m ++ 0 ∷ []) ≡ size
    → same (take size ((m ++ 0 ∷ []) ++ 0 ∷ [])) (take size ((m ++ 0 ∷ []) ++ rest)) ≡ true
compared m rest size e =
    ap₂ same
      (ap (λ (k : ℕ). take k ((m ++ 0 ∷ []) ++ 0 ∷ [])) (sym e)
        ∙ take-append (m ++ 0 ∷ []) (0 ∷ []))
      (ap (λ (k : ℕ). take k ((m ++ 0 ∷ []) ++ rest)) (sym e) ∙ take-append (m ++ 0 ∷ []) rest)
    ∙ same_refl (m ++ 0 ∷ [])

pub length-message : (size : ℕ) → 0 < size → length (message size) ≡ size
length-message size pos =
    omega (arith, length-append (letters 0 (size - 1)) (0 ∷ []), length-letters (size - 1) 0)

-- The buffer for the answer, before anything was read.
zeros_at : (D : Device) (fuel size : ℕ) (s : D.State) → Run (Bytes × D.State)
zeros_at D fuel size s = receive_message D fuel size 0 (replicate (size + 1) 0) s

ping_send_steps :
    (D : Device) (fuel msg_size size k : ℕ) (s s1 s2 : D.State) (buffer : Bytes) (b : Bool)
    → real_size msg_size ≡ size
    → 0 < size
    → send_message D fuel (message size) (0, s) ≡ done (k, s1)
    → zeros_at D fuel size s1 ≡ done (buffer, s2)
    → same (take size (message size ++ 0 ∷ [])) (take size buffer) ≡ b
    → ping_send D fuel msg_size s ≡ done (b, s2)
unfolding ping_send zeros_at
ping_send_steps D fuel msg_size size k s s1 s2 buffer b exact pos sent received e =
    rw exact (rw (==_ne size 0 (λ z. omega (arith, z, pos)), sent, received, e) refl)

-- A prefix was sent, and the rest is what is left of the message.
sent_prefix :
    (before after text : Bytes) (k : ℕ)
    → after ++ drop k text ≡ before ++ text
    → after ≡ before ++ take k text
sent_prefix before after text k e =
    append_cancel_right after (before ++ take k text) (drop k text) (
      e
      ∙ ap (λ (t : Bytes). before ++ t) (sym (take-append-drop k text))
      ∙ sym (append_assoc before (take k text) (drop k text)))

module _ (D : Device) (L : IsLawful D) (R : IsReliable D) where
  received_all :
      (fuel size : ℕ) (s : D.State)
      → 0 < size
      → size < 2 ^ 31
      → size < fuel
      → L.pending s ≡ message size
      → (s' : D.State) × (rest : Bytes) × (zeros_at D fuel size s ≡ done (message size ++ rest, s'))
        × (L.pending s' ≡ [])
        × (L.sent s' ≡ L.sent s)
  unfolding zeros_at
  received_all fuel zero s pos small enough input = absurd (omega arith)
  received_all fuel (suc r) s pos small enough input =
      let m = letters 0 (suc r - 1) in
      let len = length-letters (suc r - 1) 0 in
      let (s', run, nothing, kept) =
        receive_text D L R r small fuel [] (replicate (suc r + 1) 0) m s
          (letters-IsText (suc r - 1) 0) input (omega (arith, len)) (omega (arith, len)) in
      (s', drop (length m + 1) (replicate (suc r + 1) 0), run, nothing, kept)

  -- Over a reliable socket, with fuel above the number of bytes, the loop ends with all of the message
  -- sent but perhaps the zero at its end, and nothing read.
  pub send_message-message :
      (fuel size : ℕ) (s : D.State)
      → 0 < size
      → size < 2 ^ 31
      → size < fuel
      → (k : ℕ) × (s1 : D.State) × (send_message D fuel (message size) (0, s) ≡ done (k, s1))
        × (size ≤ k + 1)
        × (L.sent s1 ≡ L.sent s ++ take k (message size))
        × (L.pending s1 ≡ L.pending s)
  send_message-message fuel size s pos small enough =
      let len = length-message size pos in
      let (k, s1, sent, low, high, delivers, kept) =
        send_message_from D L R (message size) (omega (arith, len)) fuel 0 s (omega arith)
          (omega (arith, len)) in
      (
        k,
        s1,
        sent,
        omega (arith, low, len),
        sent_prefix (L.sent s) (L.sent s1) (message size) k delivers,
        kept,
      )

  -- Over a reliable socket, for a size from 1 to 2^21 - 1 (KB) and with fuel above its number of
  -- bytes: if exactly the message comes back, the ping ends and is a success, however the reads and
  -- writes cut it up, and it has sent what its first loop sends.
  pub ping_send-message :
      (fuel msg_size : ℕ) (s : D.State)
      → 0 < msg_size
      → msg_size < 2 ^ 21
      → msg_size * 1024 < fuel
      → L.pending s ≡ message (msg_size * 1024)
      → (s' : D.State) × (k : ℕ) × (s1 : D.State) × (ping_send D fuel msg_size s ≡ done (true, s'))
        × (send_message D fuel (message (msg_size * 1024)) (0, s) ≡ done (k, s1))
        × (L.sent s' ≡ L.sent s1)
        × (L.pending s' ≡ [])
  ping_send-message fuel msg_size s pos small enough input =
      let size = msg_size * 1024 in
      let exact : real_size msg_size ≡ size = unfold real_size in omega arith in
      let (k, s1, sent, low, delivers, kept) =
        send_message-message fuel size s (omega arith) (omega arith) enough in
      let (s2, rest, received, nothing, quiet) =
        received_all fuel size s1 (omega arith) (omega arith) enough (kept ∙ input) in
      (
        s2,
        k,
        s1,
        ping_send_steps D fuel msg_size size k s s1 s2 (message size ++ rest) true exact
            (omega arith) sent received
            (compared (letters 0 (size - 1)) rest size (length-message size (omega arith))),
        sent,
        quiet,
        nothing,
      )
