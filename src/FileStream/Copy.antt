-- ===== src/FileStream/Copy.antt =====
-- The loops of `start_server` in file_transfer/server.c and of `start_client` in client.c.
pub mod Writes
pub mod Receives
pub mod Sends
use iteso_codigos.Common.{
  ℕ, zero, suc, ◌+◌, ◌-◌, ◌*◌, ◌%◌, ◌^◌, Bool, true, false, Option, none, some, List, [], ◌∷◌,
  if◌then◌else◌, ltb, ◌==◌, length, drop,
}
use iteso_codigos.Common.Text.{Bytes}
use iteso_codigos.Common.Run.{Run, done, fault, unfinished, ◌>>=◌}
use iteso_codigos.Device.{Device}

-- BUFFERSIZE
abbrev pub buffer_size : ℕ
buffer_size = 102400

module _ (D : Device) where
  -- while(totalWriteBytes < readBytes) …, with `int` positions: a write that fails takes the position
  -- one byte back. From 0 that is -1, and the next write starts in front of the buffer.
  unfoldable pub write_block : ℕ → Bytes → ℕ → D.State → Run D.State
  write_block zero b pos s = unfinished
  write_block (suc fuel) b pos s =
      let (answer, s') = D.write s (drop pos b) in
      let again : Run D.State = elim answer [
        | none ↦ if pos == 0 then fault else write_block fuel b (pos - 1) s'
        | some k ↦ write_block fuel b (pos + k) s'
      ] in
      if ltb pos (length b) then again else done s

-- The loop of the receiver, from the connection `D` into the file `W`. A failed read ends it like the
-- end of the input. `total` is totalReadBytes, an `int`: a sum above its range is a fault.
module _ (D W : Device) (fuel : ℕ) where
  unfoldable pub receive_blocks : ℕ → ℕ → D.State → W.State → Run (D.State × W.State)
  receive_blocks zero total s w = unfinished
  receive_blocks (suc rounds) total s w =
      let (answer, s') = D.read s buffer_size in
      elim answer [
        | none ↦ done (s', w)
        | some [] ↦ done (s', w)
        | some (c ∷ b) ↦ do
          w' ← write_block W fuel (c ∷ b) 0 w
          let rest = receive_blocks rounds (total + length (c ∷ b)) s' w'
          if ltb (total + length (c ∷ b)) (2 ^ 31) then rest else fault
      ]

-- What the n-th call of `gettimeofday` gives: seconds and microseconds.
abbrev pub Clock : Type 0
Clock = ℕ → ℕ × ℕ

-- The microseconds are added as they are. The result is an `unsigned long`.
unfoldable pub current_time_millis : Clock → ℕ → ℕ
current_time_millis clock n = ((clock n).0 * 1000 + (clock n).1) % 2 ^ 64

-- The loop of the sender, from the file `F` into the connection `D`. `n` calls of the clock were made,
-- the last of them for `start`. The speed that it prints is a division by `end-start`. `total` is
-- totalReadBytes plus 2^31, an `int` that is not initialised: a sum above its range is a fault.
module _ (F D : Device) (clock : Clock) (fuel : ℕ) where
  unfoldable pub send_blocks : ℕ → ℕ → ℕ → ℕ → F.State → D.State → Run (F.State × D.State)
  send_blocks zero total n start f s = unfinished
  send_blocks (suc rounds) total n start f s =
      let (answer, f') = F.read f buffer_size in
      elim answer [
        | none ↦ done (f', s)
        | some [] ↦ done (f', s)
        | some (c ∷ b) ↦ do
          s' ← write_block D fuel (c ∷ b) 0 s
          let total' = total + length (c ∷ b)
          let rest = send_blocks rounds total' (n + 2) (current_time_millis clock (n + 1)) f' s'
          let added = if ltb total' (2 ^ 32) then rest else fault
          if current_time_millis clock n == start then fault else added
      ]
