-- ===== src/UdpFileTransfer/Transfer.antt =====
-- The UDP server and the UDP client together: what each of them sends is what the other one reads.
use mathlib.Core.List.{append_cancel_left}
use iteso_codigos.Common.{
  ℕ, ◌+◌, ◌^◌, ◌<◌, ◌≡◌, ◌≢◌, sym, ap, ◌∙◌, Option, some, List, [], ◌∷◌, ◌++◌, append_assoc, length,
  length-append, take, All, arith,
}
use iteso_codigos.Common.Text.{Bytes, concat}
use iteso_codigos.Common.Run.{done}
use iteso_codigos.Device.{Device, IsLawful, IsReliable}
use iteso_codigos.UdpFileTransfer.{ready_text, ok_text, bye_text, Exit, sent_file}
use iteso_codigos.UdpFileTransfer.Copy.{IsUdp}
use iteso_codigos.UdpFileTransfer.Pieces.{
  Cut, Cut-cons, ReadsFull, first_piece, later_pieces, count_pieces,
}
use iteso_codigos.UdpFileTransfer.Answer.{Answered, main-Answered}
use iteso_codigos.UdpFileTransfer.Client.{int_zero}
use iteso_codigos.UdpFileTransfer.Client.Saves.{Fetched, main-Fetched}
use iteso_codigos.UdpFileTransfer as Server
use iteso_codigos.UdpFileTransfer.Client as Client

-- READY, the pieces, BYE, with what comes behind them.
answers_then :
    (ready : Bytes) (blocks answers later : List Bytes)
    → answers ≡ ready ∷ (blocks ++ bye_text ∷ [])
    → answers ++ later ≡ ready ∷ (blocks ++ bye_text ∷ later)
answers_then ready blocks answers later e =
    ap (λ (x : List Bytes). x ++ later) e
    ∙ ap (λ (x : List Bytes). ready ∷ x) (append_assoc blocks (bye_text ∷ []) later)

module _ (D : Device) (U : IsUdp D) (W : Device) (LW : IsLawful W) (RW : IsReliable W)
    (fuel : ℕ) where
  -- The client behind a server that sent a file that is not empty in pieces.
  fetch_pieces :
      (create : Bytes → Option W.State) (content name local : Bytes)
      (blocks args later : List Bytes) (s : D.State) (w : W.State)
      → U.incoming s ≡ ready_text (length content) ∷ (blocks ++ bye_text ∷ later)
      → name ≢ []
      → create local ≡ some w
      → concat blocks ≡ content
      → Cut 10240 blocks
      → 0 < length content
      → length content + 10240 < 2 ^ 31
      → length content + 1 < fuel
      → Fetched D U W LW RW fuel s w name
          (take 10240 content)
          later
          (Client.main D W fuel create int_zero (name ∷ local ∷ args) (some s))
  fetch_pieces create content name local [] args later s w comes named opened whole cut some_byte
        small enough =
      absurd (omega (arith, ap length whole))
  fetch_pieces create content name local (b ∷ bs) args later s w comes named opened whole cut
        some_byte small enough =
      let (pos, short, _, _) = Cut-cons 10240 b bs (omega arith) cut in
      let first : b ≡ take 10240 content =
        first_piece 10240 b bs cut ∙ ap (λ (x : Bytes). take 10240 x) whole in
      let total = ap length whole in
      let joined = length-append b (concat bs) in
      let (_, _, rest, _) = Cut-cons 10240 b bs (omega arith) cut in
      let count = count_pieces 10240 bs (omega arith) rest in
      let fetched =
        main-Fetched D U W LW RW fuel create (length content) name local b bs args later s w comes
          named opened pos short (later_pieces 10240 b bs cut) (sym total) (omega (arith, short))
          (omega (arith, count, pos, total, joined)) (omega (arith, total, joined)) in
      rw (sym first) fetched

module _ (F : Device) (LF : IsLawful F) (RF : IsReliable F) (D : Device) (U : IsUdp D) (E : Device)
    (V : IsUdp E) (W : Device) (LW : IsLawful W) (RW : IsReliable W) (fuel : ℕ) where
  -- Over sockets that lose no datagram, with the server's memory of totalSendBytes and the client's of
  -- writeBytes at 0: if the client's name, not empty, of less than 255 bytes without a zero, and OK
  -- reach the server, the file has at least one byte, its size plus 10240 is below 2^31, reads give as
  -- many of its bytes as they may, what the server sent reaches the client, and fuel is above the size
  -- plus one, then the client ends, has sent the name and OK, has left what comes behind the server's
  -- datagrams, and has saved the first 10240 bytes of the file only.
  pub transfer-Fetched :
      (name local : Bytes) (rest args later answers : List Bytes)
      (open_file : Bytes → Option (F.State × ℕ)) (create : Bytes → Option W.State) (f : F.State)
      (w : W.State) (s s' : D.State) (t : E.State)
      → U.incoming s ≡ name ∷ ok_text ∷ rest
      → Server.main F D fuel (some s) open_file (2 ^ 31) ≡ done (sent_file s')
      → U.outgoing s' ≡ U.outgoing s ++ answers
      → V.incoming t ≡ answers ++ later
      → All (λ c. c ≢ 0) name
      → name ≢ []
      → length name < 255
      → open_file name ≡ some (f, length (LF.pending f))
      → create local ≡ some w
      → ReadsFull F LF
      → 0 < length (LF.pending f)
      → length (LF.pending f) + 10240 < 2 ^ 31
      → length (LF.pending f) + 1 < fuel
      → Fetched E V W LW RW fuel t w name
          (take 10240 (LF.pending f))
          later
          (Client.main E W fuel create int_zero (name ∷ local ∷ args) (some t))
  transfer-Fetched name local rest args later answers open_file create f w s s' t asks serves sends
        comes text named short opened created full some_byte small enough =
      let a : Answered F LF RF D U fuel f s (Server.main F D fuel (some s) open_file (2 ^ 31)) =
        main-Answered F LF RF D U fuel name rest open_file f s asks text short opened (omega arith)
          (omega arith) (omega arith) in
      let same_end : done (sent_file a.final) ≡ done (sent_file s') = sym a.returns ∙ serves in
      let end : a.final ≡ s' = cc in
      let sent = append_cancel_left _ _ _ (sym sends ∙ ap U.outgoing (sym end) ∙ a.sends) in
      fetch_pieces E V W LW RW fuel create (LF.pending f) name local a.blocks args later t w
        (comes ∙ answers_then _ a.blocks answers later sent) named created a.whole (a.cut full)
        some_byte small enough
