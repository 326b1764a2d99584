-- ===== src/UdpFileTransfer/Client/Rounds.antt =====
-- The rounds of the loops of the UDP client.
use iteso_codigos.Common.{
  ℕ, zero, suc, ◌+◌, ◌-◌, ◌^◌, ◌≤◌, ◌<◌, ◌≡◌, refl, sym, ap, ap₂, ◌∙◌, Bool-cases, true, false, inl,
  inr, some, ◌++◌, ltb, ltb→lt, lt→ltb, le→not_ltb, length, length-drop, drop, arith,
}
use iteso_codigos.Common.Text.{Bytes}
use iteso_codigos.Common.Run.{Run, done, ◌>>=◌}
use iteso_codigos.Device.{Device, IsLawful, IsReliable}
use iteso_codigos.FileStream.Copy.{write_block}
use iteso_codigos.FileTransfer.Send.Laws.{drop-ne-nil}
use iteso_codigos.FileStream.Copy.Writes.{write_block_step, write_block-Answers}
use iteso_codigos.UdpFileTransfer.Client.{int_zero, add_int, write_rest, receive_file}

module _ (W : Device) (LW : IsLawful W) (RW : IsReliable W) (b : Bytes)
    (small : length b < 2 ^ 31) where
  write_rest_move :
      (fuel limit pos k : ℕ) (w : W.State)
      → ltb pos limit ≡ true
      → ltb pos int_zero ≡ false
      → (W.write w (drop (pos - int_zero) b)).0 ≡ some k
      → write_rest W (suc fuel) limit b pos w
        ≡ write_rest W fuel limit b (pos + k) (W.write w (drop (pos - int_zero) b)).1
  unfolding write_rest
  write_rest_move fuel limit pos k w more inside wrote =
      rw more (rw inside (rw (wrote, write_rest) refl))

  write_rest_step :
      (fuel p k : ℕ) (w : W.State)
      → p < length b
      → (W.write w (drop p b)).0 ≡ some k
      → write_rest W (suc fuel) (int_zero + length b) b (int_zero + p) w
        ≡ write_rest W fuel (int_zero + length b) b (int_zero + (p + k)) (W.write w (drop p b)).1
  write_rest_step fuel p k w below wrote =
      let place : int_zero + p - int_zero ≡ p = omega arith in
      write_rest_move fuel (int_zero + length b) (int_zero + p) k w
        (lt→ltb (int_zero + p) (int_zero + length b) (omega arith))
        (le→not_ltb (int_zero + p) int_zero (omega arith))
        (ap (λ (n : ℕ). (W.write w (drop n b)).0) place ∙ wrote)
      ∙ ap₂ (λ (n m : ℕ). write_rest W fuel (int_zero + length b) b n (W.write w (drop m b)).1)
          (omega arith) place

  -- At the end of the block, or behind it, nothing is written.
  pub write_rest_over :
      (fuel limit pos : ℕ) (w : W.State)
      → limit ≤ pos
      → 0 < fuel
      → write_rest W fuel limit b pos w ≡ done (pos, w)
  unfolding write_rest
  write_rest_over zero limit pos w over some_fuel = absurd (omega arith)
  write_rest_over (suc fuel) limit pos w over some_fuel = rw (le→not_ltb pos limit over) refl

  -- Where no write fails, the loop is that of the server with another result.
  write_rest-write_block :
      (fuel p : ℕ) (w : W.State)
      → p ≤ length b
      → write_rest W fuel (int_zero + length b) b (int_zero + p) w
        ≡ (write_block W fuel b p w >>= λ w'. done (int_zero + length b, w'))
  unfolding write_rest write_block
  write_rest-write_block zero p w fits = refl
  write_rest-write_block (suc fuel) p w fits = elim (Bool-cases (ltb p (length b))) [
    | inl more ↦
        let below = ltb→lt p (length b) more in
        let (k, wrote) = RW.writes w (drop p b) (drop-ne-nil p b below) in
        let (moved, _) = LW.write-some w (drop p b) wrote in
        write_rest_step fuel p (suc k) w below wrote
        ∙ write_rest-write_block fuel (p + suc k) _ (omega (arith, length-drop p b))
        ∙ ap (λ (r : Run W.State). r >>= λ w'. done (int_zero + length b, w'))
            (sym (write_block_step W LW RW b (omega arith) fuel p (suc k) w below wrote))
    | inr over ↦
        let e : p ≡ length b = ground (arith, over) in
        write_rest_over (suc fuel) (int_zero + length b) (int_zero + p) w (omega (arith, e))
          (omega arith)
        ∙ rw over (ap (λ (n : ℕ). done (int_zero + n, w)) e)
  ]

  pub write_rest-block :
      (fuel : ℕ) (w : W.State)
      → length b < fuel
      → (w' : W.State) × (write_rest W fuel (int_zero + length b) b int_zero w
          ≡ done (int_zero + length b, w'))
        × (LW.sent w' ≡ LW.sent w ++ b)
  write_rest-block fuel w enough =
      let wrote = write_block-Answers W LW RW b (omega arith) fuel w enough in
      (
        wrote.final,
        write_rest-write_block fuel 0 w (omega arith) ∙ rw wrote.returns refl,
        wrote.delivers,
      )

-- A sum of numbers that are not below 0, within the range of `int`.
pub add_int_range :
    (x y z : ℕ) → x + y ≡ int_zero + z → int_zero ≤ z → z < 2 ^ 32 → add_int x y ≡ some z
unfolding add_int
add_int_range x y z e low high =
    rw
      (
        le→not_ltb (x + y) int_zero (omega arith),
        le→not_ltb (2 ^ 32 - 1) (x + y - int_zero) (omega arith),
      )
      (ap (λ (n : ℕ). some n) (omega arith))

module _ (D W : Device) (fuel : ℕ) where
  pub receive_over :
      (rounds size total pos : ℕ) (s : D.State) (w : W.State)
      → ltb total size ≡ false
      → receive_file D W fuel (suc rounds) size total pos s w ≡ done (s, w)
  unfolding receive_file
  receive_over rounds size total pos s w over = rw over refl

  pub receive_round :
      (rounds size total pos pos' total' : ℕ) (b : Bytes) (s : D.State) (w w' : W.State)
      → ltb total size ≡ true
      → (D.read s 10240).0 ≡ some b
      → write_rest W fuel (int_zero + length b) b pos w ≡ done (pos', w')
      → add_int total pos' ≡ some total'
      → receive_file D W fuel (suc rounds) size total pos s w
        ≡ receive_file D W fuel rounds size total' pos' (D.read s 10240).1 w'
  unfolding receive_file
  receive_round rounds size total pos pos' total' b s w w' more got wrote sum =
      rw more (rw (got, receive_file) (rw wrote (rw sum refl)))
