-- ===== src/FileStream/Copy/Receives.antt =====
-- What the loop of the receiver moves.
use iteso_codigos.Common.{
  ℕ, zero, suc, ◌+◌, ◌^◌, lt→ltb, ◌<◌, ◌≡◌, refl, sym, ◌∙◌, some, [], ◌∷◌, append_assoc, append-nil,
  length, arith,
}
use iteso_codigos.Common.Text.{Bytes}
use iteso_codigos.Common.Run.{done}
use iteso_codigos.Device.{Device, IsLawful, IsReliable}
use iteso_codigos.Device.Blocks.{read-NextBlock, ended, block}
use iteso_codigos.FileTransfer.Client.Receive.{Saves}
use iteso_codigos.FileStream.Copy.{buffer_size, write_block, receive_blocks}
use iteso_codigos.FileStream.Copy.Writes.{write_block-Answers}

module _ (D W : Device) (fuel : ℕ) where
  receive_end :
      (rounds total : ℕ) (s : D.State) (w : W.State)
      → (D.read s buffer_size).0 ≡ some []
      → receive_blocks D W fuel (suc rounds) total s w ≡ done ((D.read s buffer_size).1, w)
  unfolding receive_blocks
  receive_end rounds total s w got = ground (arith, got)

  receive_round :
      (rounds total c : ℕ) (b : Bytes) (s : D.State) (w w' : W.State)
      → (D.read s buffer_size).0 ≡ some (c ∷ b)
      → total + length (c ∷ b) < 2 ^ 31
      → write_block W fuel (c ∷ b) 0 w ≡ done w'
      → receive_blocks D W fuel (suc rounds) total s w
        ≡ receive_blocks D W fuel rounds (total + length (c ∷ b)) (D.read s buffer_size).1 w'
  unfolding receive_blocks
  receive_round rounds total c b s w w' got range wrote =
      rw (got, receive_blocks) (rw (wrote, lt→ltb (total + length (c ∷ b)) (2 ^ 31) range) refl)

  module _ (L : IsLawful D) (R : IsReliable D) (LW : IsLawful W) (RW : IsReliable W) where
    -- Over reliable devices and with fuel above the number of bytes, which the total has room for, the
    -- receiver ends and has written all that came up to the end of the input, in order.
    pub receive_blocks-Saves :
        (rounds total : ℕ) (s : D.State) (w : W.State)
        → total + length (L.pending s) < 2 ^ 31
        → length (L.pending s) < rounds
        → length (L.pending s) < fuel
        → Saves D W L LW s w (receive_blocks D W fuel rounds total s w)
    receive_blocks-Saves zero total s w range enough fits = absurd (omega arith)
    receive_blocks-Saves (suc rounds) total s w range enough fits =
        elim (read-NextBlock D L R s 102399) [
          | ended got nothing left ↦ record {
            socket = (D.read s buffer_size).1;
            file = w;
            returns = receive_end rounds total s w got;
            writes = rw nothing (sym (append-nil _));
            drains = left;
            sends_nothing = L.read_keeps-sent s buffer_size;
          }
          | block c b got split small len ↦
              let s' = (D.read s buffer_size).1 in
              let wrote =
                write_block-Answers W LW RW (c ∷ b) (omega (arith, small)) fuel w (omega arith) in
              let rest =
                receive_blocks-Saves rounds (total + length (c ∷ b)) s' wrote.final (omega arith)
                  (omega arith) (omega arith) in
              record {
                socket = rest.socket;
                file = rest.file;
                returns =
                    receive_round rounds total c b s w wrote.final got (omega arith) wrote.returns
                    ∙ rest.returns;
                writes =
                    rest.writes
                    ∙ rw (wrote.delivers, split) (append_assoc (LW.sent w) (c ∷ b) (L.pending s'));
                drains = rest.drains;
                sends_nothing = rest.sends_nothing ∙ L.read_keeps-sent s buffer_size;
              }
        ]
