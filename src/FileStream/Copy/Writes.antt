-- ===== src/FileStream/Copy/Writes.antt =====
-- What the inner write loop of the sender and of the receiver moves.
use iteso_codigos.Common.{
  ℕ, zero, suc, ◌+◌, ◌%◌, ◌^◌, ◌<◌, ◌≤◌, ◌≡◌, refl, sym, ap, ◌∙◌, Bool-cases, inl, inr, some,
  length, length-drop, drop, arith, ltb, ltb→lt, lt→ltb,
}
use iteso_codigos.Common.Text.{Bytes}
use iteso_codigos.Common.Run.{done, ◌>>=◌}
use iteso_codigos.Device.{Device, IsLawful, IsReliable}
use iteso_codigos.FileTransfer.Send.{write_step, write_while}
use iteso_codigos.FileTransfer.Send.Laws.{drop-ne-nil, write_while-Sends}
use iteso_codigos.FileTransfer.Server.Deliver.{Answers}
use iteso_codigos.FileStream.Copy.{write_block}

module _ (D : Device) (L : IsLawful D) (R : IsReliable D) (b : Bytes)
    (small : length b < 2 ^ 32) where
  pub write_block_step :
      (fuel pos k : ℕ) (s : D.State)
      → pos < length b
      → (D.write s (drop pos b)).0 ≡ some k
      → write_block D (suc fuel) b pos s ≡ write_block D fuel b (pos + k) (D.write s (drop pos b)).1
  unfolding write_block
  write_block_step fuel pos k s below wrote =
      rw (lt→ltb pos (length b) below) (ground (arith, wrote))

  write_while_step :
      (fuel pos k : ℕ) (s : D.State)
      → pos < length b
      → (D.write s (drop pos b)).0 ≡ some k
      → write_while D (suc fuel) b (pos, s)
        ≡ write_while D fuel b (pos + k, (D.write s (drop pos b)).1)
  unfolding write_while write_step
  write_while_step fuel pos k s below wrote =
      let (fits, _) = L.write-some s (drop pos b) wrote in
      let exact : (pos + k) % 2 ^ 32 ≡ pos + k = omega (arith, length-drop pos b) in
      rw (lt→ltb pos (length b) below, wrote)
        (ap (λ (p : ℕ). write_while D fuel b (p, (D.write s (drop pos b)).1)) exact)

  -- Where no write fails, the signed positions of this loop and the unsigned ones of the loop in
  -- FileTransfer_Proyecto are the same.
  write_block-write_while :
      (fuel pos : ℕ) (s : D.State)
      → pos ≤ length b
      → write_block D fuel b pos s ≡ (write_while D fuel b (pos, s) >>= λ r. done r.1)
  unfolding write_block write_while
  write_block-write_while zero pos s fits = refl
  write_block-write_while (suc fuel) pos s fits = elim (Bool-cases (ltb pos (length b))) [
    | inl more ↦
        let below = ltb→lt pos (length b) more in
        let (k, wrote) = R.writes s (drop pos b) (drop-ne-nil pos b below) in
        let (moved, _) = L.write-some s (drop pos b) wrote in
        write_block_step fuel pos (suc k) s below wrote
        ∙ write_block-write_while fuel (pos + suc k) _ (omega (arith, length-drop pos b))
        ∙ ap (λ r. r >>= λ q. done q.1) (sym (write_while_step fuel pos (suc k) s below wrote))
    | inr over ↦ rw over refl
  ]

  pub write_block-Answers :
      (fuel : ℕ) (s : D.State) → length b < fuel → Answers D L s b (write_block D fuel b 0 s)
  write_block-Answers fuel s enough =
      let sends = write_while-Sends D L R b small fuel s enough in
      record {
        final = sends.final;
        returns = write_block-write_while fuel 0 s (omega arith) ∙ rw sends.returns refl;
        delivers = sends.delivers;
        reads_nothing = sends.reads_nothing;
      }
