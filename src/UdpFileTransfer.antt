-- ===== src/UdpFileTransfer.antt =====
-- `main` of UDP_FileTransfer/server.c: it answers one client by one file, in datagrams. The socket is a
-- `Device` whose `read` is `recvfrom` and whose `write` is `sendto`.
pub mod Pieces
pub mod Copy
pub mod Answer
pub mod Memory
pub mod Client
pub mod Transfer
mod Tests
use iteso_codigos.Common.{
  ℕ, zero, suc, ◌+◌, ◌-◌, ◌%◌, ◌^◌, Bool, true, false, Option, none, some, List, [], ◌∷◌, ◌++◌,
  if◌then◌else◌, ltb, ◌==◌, length,
}
use iteso_codigos.Common.Text.{Bytes, codes, same}
use iteso_codigos.Common.Run.{Run, done, fault, unfinished, ◌>>=◌}
use iteso_codigos.Device.{Device}
use iteso_codigos.Libc.Number.{print_u}
use iteso_codigos.Libc.Search.{string_of}
use iteso_codigos.FileStream.Copy.{write_block}

-- What a failed call leaves of a block: nothing.
abbrev pub block_of : Option Bytes → Bytes
block_of none = []
block_of (some b) = b

-- `%i`, which takes the low 32 bits of the size.
unfoldable pub print_i : ℕ → Bytes
print_i n = if ltb (n % 2 ^ 32) (2 ^ 31) then print_u n else b'-' ∷ print_u (2 ^ 32 - n % 2 ^ 32)

abbrev pub ready_text : ℕ → Bytes
ready_text size = codes "READY " ++ (print_i size ++ codes "\r\n")

abbrev pub ok_text : Bytes
ok_text = codes "OK"

abbrev pub bye_text : Bytes
bye_text = codes "BYE"

-- How the program ends: it returns 1, -1, -1 or 0.
pub data Exit (S : Type 0) : Type 0 where
  no_socket no_file : Exit S
  not_ok sent_file : S → Exit S

module _ (D : Device) where
  -- The string that a datagram leaves in a buffer of 255 zeros. It is printed, which reads past the end
  -- of the buffer when there is no zero in it.
  unfoldable pub receive_string : D.State → Run (Bytes × D.State)
  receive_string s =
      let (answer, s') = D.read s 255 in
      let text = string_of (block_of answer) in
      if length text == 255 then fault else done (text, s')

module _ (F D : Device) (fuel : ℕ) where
  -- while(totalSendBytes < filestat.st_size) …, where `total` is totalSendBytes + 2^31: an `int` that is
  -- not initialised. A sum above the range of `int` is a fault.
  unfoldable pub copy_file : ℕ → ℕ → ℕ → F.State → D.State → Run (F.State × D.State)
  copy_file zero size total f s = unfinished
  copy_file (suc rounds) size total f s =
      let (answer, f') = F.read f 10240 in
      let block = block_of answer in
      let again : Run (F.State × D.State) = (do
        s' ← write_block D fuel block 0 s
        let rest = copy_file rounds size (total + length block) f' s'
        if ltb (total + length block) (2 ^ 32) then rest else fault) in
      if ltb total (size + 2 ^ 31) then again else done (f, s)

  -- What follows when the file is open.
  unfoldable pub send_file : ℕ → ℕ → F.State → D.State → Run (Exit D.State)
  send_file stale size f s = do
    r ← receive_string D (D.write s (ready_text size)).1
    let run : Run (Exit D.State) = (do
      c ← copy_file fuel size stale f (r.1)
      done (sent_file (D.write (c.1) bye_text).1))
    if same (r.0) ok_text then run else done (not_ok (r.1))

  -- `opened` is the socket behind `bind`, whose result is not used, `open_file` are `open` and `fstat`,
  -- and `stale` is what totalSendBytes holds, plus 2^31.
  unfoldable pub main : Option D.State → (Bytes → Option (F.State × ℕ)) → ℕ → Run (Exit D.State)
  main none open_file stale = done no_socket
  main (some s) open_file stale = do
    r ← receive_string D s
    elim (open_file (r.0)) [ none ↦ done no_file | some (f, size) ↦ send_file stale size f (r.1) ]
