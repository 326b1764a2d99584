-- ===== src/UdpFileTransfer/Answer.antt =====
-- The whole answer of the UDP server to its client.
use iteso_codigos.Common.{
  ℕ, ◌^◌, ◌≤◌, ◌<◌, ◌≡◌, ◌≢◌, refl, ap, ◌∙◌, Option, some, List, [], ◌∷◌, ◌++◌, append_assoc,
  length, ==_ne, All, arith,
}
use iteso_codigos.Common.Text.{Bytes, concat, same_refl}
use iteso_codigos.Common.Run.{Run, done}
use iteso_codigos.Device.{Device, IsLawful, IsReliable}
use iteso_codigos.Libc.Search.{string_of-text}
use iteso_codigos.UdpFileTransfer.{
  ready_text, ok_text, bye_text, Exit, sent_file, receive_string, copy_file, send_file, main,
}
use iteso_codigos.UdpFileTransfer.Copy.{IsUdp, copy_file-Copied}
use iteso_codigos.UdpFileTransfer.Pieces.{Cut, ReadsFull}

all_sent :
    (before during : List Bytes) (ready : Bytes) (blocks after : List Bytes)
    → during ≡ before ++ ready ∷ []
    → after ≡ (during ++ blocks) ++ bye_text ∷ []
    → after ≡ before ++ ready ∷ (blocks ++ bye_text ∷ [])
all_sent before during ready blocks after first last =
    last
    ∙ append_assoc during blocks (bye_text ∷ [])
    ∙ ap (λ (x : List Bytes). x ++ (blocks ++ bye_text ∷ [])) first
    ∙ append_assoc before (ready ∷ []) (blocks ++ bye_text ∷ [])

module _ (D : Device) (U : IsUdp D) where
  -- A datagram without a zero that fits the buffer is read as it is.
  pub receive_string-datagram :
      (m : Bytes) (ms : List Bytes) (s : D.State)
      → U.incoming s ≡ m ∷ ms
      → All (λ c. c ≢ 0) m
      → length m < 255
      → receive_string D s ≡ done (m, (D.read s 255).1)
  unfolding receive_string
  receive_string-datagram m ms s e text short =
      let (got, _) = U.read-datagram s 255 m ms e (omega arith) in
      rw (got, string_of-text m text, ==_ne (length m) 255 (λ z. omega (arith, z, short))) refl

module _ (F D : Device) (U : IsUdp D) (fuel : ℕ) where
  send_file_steps :
      (stale size : ℕ) (f f' : F.State) (s s1 s2 : D.State)
      → receive_string D (D.write s (ready_text size)).1 ≡ done (ok_text, s1)
      → copy_file F D fuel fuel size stale f s1 ≡ done (f', s2)
      → send_file F D fuel stale size f s ≡ done (sent_file (D.write s2 bye_text).1)
  unfolding send_file
  send_file_steps stale size f f' s s1 s2 asked copied =
      rw asked (rw (same_refl ok_text, copied) refl)

  main_steps :
      (stale size : ℕ) (name : Bytes) (open_file : Bytes → Option (F.State × ℕ)) (f : F.State)
      (s s1 : D.State) (r : Run (Exit D.State))
      → receive_string D s ≡ done (name, s1)
      → open_file name ≡ some (f, size)
      → send_file F D fuel stale size f s1 ≡ r
      → main F D fuel (some s) open_file stale ≡ r
  unfolding main
  main_steps stale size name open_file f s s1 r asked opened sends = rw asked (rw opened sends)

module _ (F : Device) (LF : IsLawful F) (RF : IsReliable F) (D : Device) (U : IsUdp D)
    (fuel : ℕ) where
  -- The server ended, with READY and the size, then the pieces of the file, then BYE on its way.
  pub record Answered (f : F.State) (s : D.State) (result : Run (Exit D.State)) : Type 0 where
    pub final : D.State
    pub blocks : List Bytes
    pub returns : result ≡ done (sent_file final)
    pub sends :
        U.outgoing final
        ≡ U.outgoing s ++ ready_text (length (LF.pending f)) ∷ (blocks ++ bye_text ∷ [])
    pub whole : concat blocks ≡ LF.pending f
    pub fits : All (λ b. length b ≤ 10240) blocks
    pub cut : ReadsFull F LF → Cut 10240 blocks

  pub main-Answered :
      (name : Bytes) (rest : List Bytes) (open_file : Bytes → Option (F.State × ℕ)) (f : F.State)
      (s : D.State)
      → U.incoming s ≡ name ∷ ok_text ∷ rest
      → All (λ c. c ≢ 0) name
      → length name < 255
      → open_file name ≡ some (f, length (LF.pending f))
      → length (LF.pending f) < 2 ^ 31
      → length (LF.pending f) < fuel
      → 1 < fuel
      → Answered f s (main F D fuel (some s) open_file (2 ^ 31))
  main-Answered name rest open_file f s e text short opened small enough two =
      let size = length (LF.pending f) in
      let (got, left) = U.read-datagram s 255 name (ok_text ∷ rest) e (omega arith) in
      let s1 = (D.read s 255).1 in
      let s2 = (D.write s1 (ready_text size)).1 in
      let (_, ready) = U.write-datagram s1 (ready_text size) (λ z. cc) in
      let asks : U.incoming s2 ≡ ok_text ∷ rest =
        U.write_keeps-incoming s1 (ready_text size) ∙ left in
      let s3 = (D.read s2 255).1 in
      let copied =
        copy_file-Copied F LF RF D U fuel size fuel (2 ^ 31) f s3 small (omega arith) enough two in
      let (_, bye) = U.write-datagram copied.socket bye_text (λ z. cc) in
      record {
        final = (D.write copied.socket bye_text).1;
        blocks = copied.blocks;
        returns =
            main_steps F D U fuel (2 ^ 31) size name open_file f s s1 _
              (receive_string-datagram D U name (ok_text ∷ rest) s e text short) opened
              (send_file_steps F D U fuel (2 ^ 31) size f copied.file s1 s3 copied.socket
                (receive_string-datagram D U ok_text rest s2 asks ((λ z. cc), ((λ z. cc), tt))
                  (omega arith))
                copied.returns);
        sends =
            all_sent (U.outgoing s) (U.outgoing s3) (ready_text size) copied.blocks _
              (U.read_keeps-outgoing s2 255
                ∙ ready
                ∙ ap (λ (x : List Bytes). x ++ ready_text size ∷ []) (U.read_keeps-outgoing s 255))
              (bye ∙ ap (λ (x : List Bytes). x ++ bye_text ∷ []) copied.sends);
        whole = copied.whole;
        fits = copied.fits;
        cut = copied.cut;
      }

  -- Over a socket that loses no datagram, when the memory of totalSendBytes holds 0: if the client
  -- sends the name of a file of less than 2^31 bytes, a name of less than 255 bytes without a zero, and
  -- then OK, the server, with fuel above the size, ends and has sent READY with the size, then
  -- datagrams of at most 10240 bytes that make up the file, then BYE.
  pub main-Copied :
      (name : Bytes) (rest : List Bytes) (open_file : Bytes → Option (F.State × ℕ)) (f : F.State)
      (s : D.State)
      → U.incoming s ≡ name ∷ ok_text ∷ rest
      → All (λ c. c ≢ 0) name
      → length name < 255
      → open_file name ≡ some (f, length (LF.pending f))
      → length (LF.pending f) < 2 ^ 31
      → length (LF.pending f) < fuel
      → 1 < fuel
      → (s' : D.State) × (blocks : List Bytes) × (main F D fuel (some s) open_file (2 ^ 31)
          ≡ done (sent_file s'))
        × (U.outgoing s'
            ≡ U.outgoing s ++ ready_text (length (LF.pending f)) ∷ (blocks ++ bye_text ∷ []))
        × (concat blocks ≡ LF.pending f)
        × All (λ b. length b ≤ 10240) blocks
  main-Copied name rest open_file f s e text short opened small enough two =
      let a = main-Answered name rest open_file f s e text short opened small enough two in
      (a.final, a.blocks, a.returns, a.sends, a.whole, a.fits)
