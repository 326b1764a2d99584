-- ===== src/TcpPing.antt =====
-- `PingListen` of tcp_ping/ping.c, which sends a message back to where it came from.
pub mod Listen
pub mod Send
pub mod Arguments
pub mod Program
pub mod Start
mod Tests
use iteso_codigos.Common.{
  ℕ, zero, suc, ◌-◌, Bool, true, false, Option, none, some, [], ◌∷◌, ◌++◌, if◌then◌else◌, ◌==◌,
  length, get_or,
}
use iteso_codigos.Common.Text.{Bytes}
use iteso_codigos.Common.Run.{Run, done, fault, unfinished, ◌>>=◌}
use iteso_codigos.Device.{Device}
use iteso_codigos.FileTransfer.Send.{write_while}

-- readData[totalbytes-1]=='\0', for data that is not empty.
unfoldable pub ends_in_zero : Bytes → Bool
ends_in_zero got = get_or got (length got - 1) 1 == 0

module _ (D : Device) where
  -- The reading loop, with the result of the last `read`. A failed read is a length of 2^32 - 1 for
  -- `memcpy`.
  unfoldable pub read_message : ℕ → Bytes → D.State → Run (Bytes × ℕ × D.State)
  read_message zero got s = unfinished
  read_message (suc fuel) got s =
      let (answer, s') = D.read s 1024 in
      elim answer [
        | none ↦ fault
        | some [] ↦ done (got, 0, s')
        | some (c ∷ b) ↦
            let more = read_message fuel (got ++ c ∷ b) s' in
            if ends_in_zero (got ++ c ∷ b) then done (got ++ c ∷ b, length (c ∷ b), s') else more
      ]

  -- `PingListen`: what was read is written back, and the length of the last block is the result.
  unfoldable pub ping_listen : ℕ → D.State → Run (ℕ × D.State)
  ping_listen fuel s = do
    r ← read_message fuel [] s
    w ← write_while D fuel (r.0) (0, r.2)
    done (r.1, w.1)
