-- ===== src/Bdcast/Heard.antt =====
-- What a listener prints of the datagrams that arrive.
use iteso_codigos.Common.{
  ℕ, suc, ◌<◌, ◌≡◌, ◌≢◌, refl, some, List, [], ◌∷◌, ◌++◌, length, All, arith,
}
use iteso_codigos.Common.Text.{Bytes}
use iteso_codigos.Common.Run.{done}
use iteso_codigos.Device.{Device}
use iteso_codigos.UdpFileTransfer.{receive_string}
use iteso_codigos.UdpFileTransfer.Copy.{IsUdp}
use iteso_codigos.UdpFileTransfer.Answer.{receive_string-datagram}
use iteso_codigos.Bdcast.{print_texts, listen}

-- A text that the buffer of the listener holds with a zero behind it.
abbrev pub IsShort : Bytes → Type 0
IsShort text = All (λ c. c ≢ 0) text × (length text < 255)

module _ (D : Device) (U : IsUdp D) where
  print_step :
      (rounds : ℕ) (text : Bytes) (s s' : D.State) (rest : List Bytes)
      → receive_string D s ≡ done (text, s')
      → print_texts D rounds s' ≡ done rest
      → print_texts D (suc rounds) s ≡ done (text ∷ rest)
  unfolding print_texts
  print_step rounds text s s' rest got more = rw got (rw more refl)

  print_texts-incoming :
      (texts : List Bytes) (s : D.State) (later : List Bytes)
      → All IsShort texts
      → U.incoming s ≡ texts ++ later
      → print_texts D (length texts) s ≡ done texts
  unfolding print_texts
  print_texts-incoming [] s later short e = refl
  print_texts-incoming (text ∷ texts) s later ((h, small), short) e =
      let (_, left) = U.read-datagram s 255 text (texts ++ later) e (omega arith) in
      print_step (length texts) text s (D.read s 255).1 texts
        (receive_string-datagram D U text (texts ++ later) s e h small)
        (print_texts-incoming texts (D.read s 255).1 later short left)

  -- Over a socket on which each read gives the next datagram whole (the law IsUdp): a listener at which
  -- texts arrive, each without a zero and of less than 255 bytes, prints in its first rounds exactly
  -- these texts, in their order, nothing of an earlier text behind a shorter one.
  pub listen-incoming :
      (texts later : List Bytes) (s : D.State)
      → All IsShort texts
      → U.incoming s ≡ texts ++ later
      → listen D (length texts) (some s) ≡ done (some texts)
  unfolding listen
  listen-incoming texts later s short e = rw (print_texts-incoming texts s later short e) refl
