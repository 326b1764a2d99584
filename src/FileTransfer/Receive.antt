-- ===== src/FileTransfer/Receive.antt =====
-- The loop that reads up to an empty line, one byte in a call: the request in
-- FileTransfer_Proyecto/server.c, the answers in client.c. A string is kept without its zero.
pub mod Pattern
pub mod Loop
pub mod Lines
use iteso_codigos.Common.{
  ℕ, zero, suc, ◌-◌, Bool, true, false, Option, none, some, List, [], ◌∷◌, ◌++◌, if◌then◌else◌, ltb,
  ◌==◌, length, take, drop,
}
use iteso_codigos.Common.Text.{Bytes, same}
use iteso_codigos.Common.Run.{Run, done, fault, unfinished}
use iteso_codigos.Device.{Device}

abbrev pub cr : ℕ
cr = 13

abbrev pub lf : ℕ
lf = 10

abbrev pub crlf : Bytes
crlf = cr ∷ lf ∷ []

-- "\r\n\r\n"
abbrev pub blank_line : Bytes
blank_line = cr ∷ lf ∷ cr ∷ lf ∷ []

-- strncat(cmdString,readBuffer,1): a zero byte ends the source, so it adds nothing.
unfoldable pub add_byte : Bytes → ℕ → Bytes
add_byte cmd c = if c == 0 then cmd else cmd ++ c ∷ []

-- `readBytes > 0`, and then the byte in the buffer.
unfoldable pub byte_of : Option Bytes → Option ℕ
byte_of none = none
byte_of (some []) = none
byte_of (some (c ∷ _)) = some c

-- `front cmd` are the four bytes that stand in memory in front of the string, which the code reads
-- while the string is shorter than four bytes.
module _ (front : Bytes → Bytes) where
  -- strcmp(cmdString+(strlen(cmdString)-4),"\r\n\r\n")==0
  unfoldable pub at_blank_line : Bytes → Bool
  at_blank_line cmd =
      if ltb (length cmd) 4
      then same (drop (length cmd) (front cmd) ++ cmd) blank_line
      else same (drop (length cmd - 4) cmd) blank_line

  -- *ptr = '\0', outside the block if the string is shorter than four bytes.
  unfoldable pub cut_blank_line : {S : Type 0} → Bytes → S → Run (Bytes × S)
  cut_blank_line cmd s = if ltb (length cmd) 4 then fault else done (take (length cmd - 4) cmd, s)

  -- while((readBytes = read(clientSocket,readBuffer,1))>0) …
  unfoldable pub read_until : (D : Device) → ℕ → Bytes → D.State → Run (Bytes × D.State)
  read_until D zero cmd s = unfinished
  read_until D (suc fuel) cmd s =
      let (answer, s') = D.read s 1 in
      elim (byte_of answer) [
        | none ↦ done (cmd, s')
        | some c ↦
            let cmd' = add_byte cmd c in
            let more = read_until D fuel cmd' s' in
            if at_blank_line cmd' then cut_blank_line cmd' s' else more
      ]
