-- ===== src/SimpleSocket/EchoServer/Session.antt =====
-- A session of the echo server.
use iteso_codigos.Common.{
  ℕ, zero, suc, ◌≤◌, ◌<◌, ◌≡◌, ◌≢◌, refl, sym, ap, ◌∙◌, true, false, ◌⊎◌, inl, inr, none, some,
  List, [], ◌∷◌, ◌++◌, append_assoc, if◌then◌else◌, All, arith, length,
}
use iteso_codigos.Common.Text.{Bytes, codes, concat, same}
use iteso_codigos.Common.Run.{Run, done, unfinished}
use iteso_codigos.Device.{Device}
use iteso_codigos.Libc.Search.{string_of}
use iteso_codigos.SimpleSocket.EchoServer.{quit_text, echo_session}

-- A connection whose peer waits for an echo before it sends its next message: a read gives one
-- message, if that fits, and a write is taken whole.
pub record IsLockstep (D : Device) : Type 0 where
  pub messages : D.State → List Bytes
  pub sent : D.State → Bytes
  pub read-message :
      (s : D.State) (m : Bytes) (ms : List Bytes)
      → messages s ≡ m ∷ ms
      → length m ≤ 255
      → ((D.read s 255).0 ≡ some m) × (messages (D.read s 255).1 ≡ ms)
  pub read_keeps-sent : (s : D.State) → sent (D.read s 255).1 ≡ sent s
  pub write-whole : (s : D.State) (b : Bytes) → sent (D.write s b).1 ≡ sent s ++ b
  pub write_keeps-messages : (s : D.State) (b : Bytes) → messages (D.write s b).1 ≡ messages s

-- A message that the server echoes and that does not end the session.
abbrev pub IsOther : Bytes → Type 0
IsOther m = (m ≢ []) × (length m ≤ 255) × (same (string_of m) quit_text ≡ false)

quits : same (string_of quit_text) quit_text ≡ true
unfolding same string_of
quits = refl

regroup :
    (t s m rest : Bytes) → t ≡ s ++ m → t ++ (rest ++ quit_text) ≡ s ++ ((m ++ rest) ++ quit_text)
regroup t s m rest e =
    ap (λ (x : Bytes). x ++ (rest ++ quit_text)) e
    ∙ append_assoc s m (rest ++ quit_text)
    ∙ ap (λ (x : Bytes). s ++ x) (sym (append_assoc m rest quit_text))

module _ (D : Device) where
  echo_round :
      (fuel c : ℕ) (b : Bytes) (s : D.State)
      → (D.read s 255).0 ≡ some (c ∷ b)
      → echo_session D (suc fuel) s ≡ (
          if same (string_of (c ∷ b)) quit_text
          then done (D.write (D.read s 255).1 (c ∷ b)).1
          else echo_session D fuel (D.write (D.read s 255).1 (c ∷ b)).1)
  unfolding echo_session
  echo_round fuel c b s read = ground (arith, read)

  echo_silent :
      (fuel : ℕ) (s : D.State)
      → ((D.read s 255).0 ≡ none) ⊎ ((D.read s 255).0 ≡ some [])
      → echo_session D (suc fuel) s ≡ echo_session D fuel (D.read s 255).1
  unfolding echo_session
  echo_silent fuel s (inl e) = rw (e, echo_session) refl
  echo_silent fuel s (inr e) = rw (e, echo_session) refl

  -- Once no read gives a byte any more, as when the client has closed its connection, the session
  -- does not end, whatever the fuel.
  pub echo_session_closed :
      (fuel : ℕ) (Closed : D.State → Type 0) (s : D.State)
      → ((t : D.State)
          → Closed t
          → (((D.read t 255).0 ≡ none) ⊎ ((D.read t 255).0 ≡ some [])) × Closed (D.read t 255).1)
      → Closed s
      → echo_session D fuel s ≡ unfinished
  unfolding echo_session
  echo_session_closed zero Closed s stays closed = refl
  echo_session_closed (suc fuel) Closed s stays closed =
      let (silent, still) = stays s closed in
      echo_silent fuel s silent ∙ echo_session_closed fuel Closed (D.read s 255).1 stays still

  -- The session ended in the state `t`, with everything echoed up to QUIT.
  pub record Ends (L : IsLockstep D) (s : D.State) (ms rest : List Bytes) (result : Run D.State)
      : Type 0 where
    pub final : D.State
    pub returns : result ≡ done final
    pub echoes : L.sent final ≡ L.sent s ++ (concat ms ++ quit_text)
    pub leaves : L.messages final ≡ rest

  module _ (L : IsLockstep D) where
    echo_last :
        (fuel : ℕ) (s : D.State) (rest : List Bytes)
        → L.messages s ≡ quit_text ∷ rest
        → Ends L s [] rest (echo_session D (suc fuel) s)
    echo_last fuel s rest e =
        let (read, left) = L.read-message s quit_text rest e (omega arith) in
        record {
          final = (D.write (D.read s 255).1 quit_text).1;
          returns = echo_round fuel b'Q' (codes "UIT\r\n") s read ∙ rw quits refl;
          echoes =
              L.write-whole (D.read s 255).1 quit_text
              ∙ ap (λ (b : Bytes). b ++ quit_text) (L.read_keeps-sent s);
          leaves = L.write_keeps-messages (D.read s 255).1 quit_text ∙ left;
        }

    echo_more :
        (fuel c : ℕ) (b : Bytes) (s : D.State)
        → (D.read s 255).0 ≡ some (c ∷ b)
        → same (string_of (c ∷ b)) quit_text ≡ false
        → echo_session D (suc fuel) s ≡ echo_session D fuel (D.write (D.read s 255).1 (c ∷ b)).1
    echo_more fuel c b s read other = echo_round fuel c b s read ∙ rw other refl

    -- A session with a client that sends messages and then QUIT ends, with fuel above their number,
    -- has sent each of them back in order and QUIT too, and leaves what comes behind it.
    pub echo_session-Ends :
        (fuel : ℕ) (s : D.State) (ms rest : List Bytes)
        → L.messages s ≡ ms ++ quit_text ∷ rest
        → All IsOther ms
        → length ms < fuel
        → Ends L s ms rest (echo_session D fuel s)
    echo_session-Ends zero s ms rest e other enough = absurd (omega arith)
    echo_session-Ends (suc fuel) s [] rest e other enough = echo_last fuel s rest e
    echo_session-Ends (suc fuel) s ([] ∷ ms) rest e ((some_byte, _, _), _) enough =
        absurd (some_byte refl)
    echo_session-Ends (suc fuel) s ((c ∷ b) ∷ ms) rest e ((_, fits, goes_on), other) enough =
        let (read, left) = L.read-message s (c ∷ b) (ms ++ quit_text ∷ rest) e fits in
        let t = (D.write (D.read s 255).1 (c ∷ b)).1 in
        let later =
          echo_session-Ends fuel t ms rest (L.write_keeps-messages (D.read s 255).1 (c ∷ b) ∙ left)
            other (omega arith) in
        let wrote : L.sent t ≡ L.sent s ++ c ∷ b =
          L.write-whole (D.read s 255).1 (c ∷ b)
          ∙ ap (λ (x : Bytes). x ++ c ∷ b) (L.read_keeps-sent s) in
        record {
          final = later.final;
          returns = echo_more fuel c b s read goes_on ∙ later.returns;
          echoes = later.echoes ∙ regroup (L.sent t) (L.sent s) (c ∷ b) (concat ms) wrote;
          leaves = later.leaves;
        }
