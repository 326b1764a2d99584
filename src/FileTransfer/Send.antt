-- ===== src/FileTransfer/Send.antt =====
-- `sendLine` and the inner write loop of `doGet` (FileTransfer_Proyecto/server.c and client.c).
pub mod Laws
use iteso_codigos.Common.{
  ℕ, zero, suc, ◌+◌, ◌-◌, ◌%◌, ◌^◌, Option, none, some, if◌then◌else◌, ltb, length, drop,
}
use iteso_codigos.Common.Text.{Bytes}
use iteso_codigos.Common.Run.{Run, done, unfinished}
use iteso_codigos.Device.{Device}

-- What a `u_int` gets from the result of `write`: -1 becomes the largest value.
unfoldable pub returned : Option ℕ → ℕ
returned none = 2 ^ 32 - 1
returned (some k) = k

module _ (D : Device) where
  -- writeBytes += write(fd, buffer+writeBytes, n-writeBytes), with `writeBytes` a `u_int`.
  unfoldable pub write_step : Bytes → ℕ × D.State → ℕ × D.State
  unfolding returned
  write_step block (pos, s) =
      let (answer, s') = D.write s (drop pos block) in ((pos + returned answer) % 2 ^ 32, s')

  -- while(writeBytes < n) …
  unfoldable pub write_while : ℕ → Bytes → ℕ × D.State → Run (ℕ × D.State)
  unfolding write_step
  write_while zero block (pos, s) = unfinished
  write_while (suc fuel) block (pos, s) =
      let rest = write_while fuel block (write_step block (pos, s)) in
      if ltb pos (length block) then rest else done (pos, s)

  -- do … while(writeBytes < strlen(writeBuffer)): the body once, and then the loop.
  unfoldable pub send_line : ℕ → Bytes → D.State → Run (ℕ × D.State)
  unfolding write_while
  send_line fuel line s = write_while fuel line (write_step line (0, s))
