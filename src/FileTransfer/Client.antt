-- ===== src/FileTransfer/Client.antt =====
-- The protocol of the client, FileTransfer_Proyecto/client.c: `start_protocol`, `doGet`, `get_list`.
pub mod Reading
pub mod Receive
pub mod Get
pub mod Names
use iteso_codigos.Common.{
  ℕ, zero, suc, ◌+◌, ◌%◌, ◌^◌, Bool, true, false, Option, none, some, List, [], ◌∷◌, ◌++◌,
  if◌then◌else◌, ltb, length, drop,
}
use iteso_codigos.Common.Text.{Bytes, codes, same}
use iteso_codigos.Common.Run.{Run, done, fault, unfinished, ◌>>=◌}
use iteso_codigos.Libc.Search.{strsep, strstr}
use iteso_codigos.Libc.Number.{strtol}
use iteso_codigos.Device.{Device}
use iteso_codigos.FileTransfer.Send.{write_while, send_line}
use iteso_codigos.FileTransfer.Receive.{cr, blank_line, read_until}

-- What the client takes an answer for. `bad_pointer` stands for a pointer that C may not follow.
pub data Answer : Type 0 where
  not_found unknown_answer bad_pointer : Answer
  file_size : ℕ → Answer

-- strtol(token+2,NULL,10), where `token` points at the colon.
unfoldable pub size_field : Option Bytes → Answer
size_field none = bad_pointer
size_field (some t) = if ltb (length t) 2 then bad_pointer else file_size (strtol (drop 2 t))

-- The text behind the first line, without its line feed: strstr(cmdString,":").
unfoldable pub ok_answer : Option Bytes → Answer
ok_answer none = bad_pointer
ok_answer (some []) = bad_pointer
ok_answer (some (_ ∷ s)) = size_field (strstr s (codes ":"))

unfoldable pub line_answer : Bytes × Option Bytes → Answer
line_answer (token, rest) =
    if same token (codes "NOT_FOUND")
    then not_found
    else if same token (codes "OK")
    then ok_answer rest
    else unknown_answer

unfoldable pub parse_answer : Bytes → Answer
parse_answer cmd = line_answer (strsep cr cmd)

abbrev pub get_text : Bytes → Bytes
get_text name = codes "GET " ++ name ++ blank_line

abbrev pub quit_text : Bytes
quit_text = codes "QUIT" ++ blank_line

abbrev pub list_text : Bytes
list_text = codes "LIST" ++ blank_line

abbrev pub block_size : ℕ
block_size = 102400

-- `D` is the socket, and `W` the file that is written.
module _ (D W : Device) (open_write : Bytes → Option W.State) (fuel : ℕ) where
  -- The loop of `doGet`. At the end of the input it goes round with nothing read.
  unfoldable pub receive : ℕ → ℕ → ℕ → D.State → W.State → Run (D.State × W.State)
  receive zero size total s w = unfinished
  receive (suc rounds) size total s w =
      let (answer, s') = D.read s block_size in
      let again : Run (D.State × W.State) = elim answer [
        | none ↦ fault
        | some [] ↦ receive rounds size total s' w
        | some (c ∷ b) ↦ do
          r ← write_while W fuel (c ∷ b) (0, w)
          receive rounds size ((total + length (c ∷ b)) % 2 ^ 64) s' r.1
      ] in
      if ltb total size then again else done (s, w)

  -- `doGet`. The file is `none` where it could not be created.
  unfoldable pub do_get : Bytes → ℕ → D.State → Run (D.State × Option W.State)
  do_get name size s = elim (open_write name) [
    | none ↦ done (s, none)
    | some w ↦ do r ← receive fuel size 0 s w; done (r.0, some r.1)
  ]

  unfoldable pub finish : Bytes → Answer → D.State → Run (D.State × Option W.State)
  finish local not_found s = done (s, none)
  finish local bad_pointer s = fault
  finish local unknown_answer s = do r ← send_line D fuel quit_text s; done (r.1, none)
  finish local (file_size n) s = do
    r ← do_get local n s
    q ← send_line D fuel quit_text r.0
    done (q.1, r.1)

  -- `stale` is what the block from `malloc` holds in front of its first zero byte.
  unfoldable pub start_protocol :
      (Bytes → Bytes) → Bytes → Bytes → Bytes → D.State → Run (D.State × Option W.State)
  start_protocol front stale remote local s =
      if ltb (length (get_text remote)) 1024
      then (do
        sent ← send_line D fuel (get_text remote) s
        r ← read_until front D fuel stale sent.1
        finish local (parse_answer r.0) r.1)
      else fault

-- `get_list`: the text that it prints.
module _ (D : Device) (fuel : ℕ) where
  unfoldable pub get_list : (Bytes → Bytes) → Bytes → D.State → Run (Bytes × D.State)
  get_list front stale s = do
    sent ← send_line D fuel list_text s
    read_until front D fuel stale sent.1
