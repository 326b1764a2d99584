-- ===== src/FileTransfer/Server.antt =====
-- The protocol of the server, FileTransfer_Proyecto/server.c: `start_protocol`, `doGet`, `doList`.
pub mod Spec
pub mod Deliver
pub mod Answer
pub mod Session
use iteso_codigos.Common.{
  ℕ, zero, suc, ◌+◌, ◌<◌, Bool, true, false, Option, none, some, List, [], ◌∷◌, ◌++◌, if◌then◌else◌,
  ltb, ◌||◌, length,
}
use iteso_codigos.Common.Text.{Bytes, codes, same}
use iteso_codigos.Common.Run.{Run, done, fault, unfinished, ◌>>=◌}
use iteso_codigos.Libc.Search.{strtok}
use iteso_codigos.Libc.Number.{print_u}
use iteso_codigos.Device.{Device}
use iteso_codigos.FileTransfer.Send.{write_while, send_line}
use iteso_codigos.FileTransfer.Receive.{crlf, blank_line, read_until}
use iteso_codigos.FileTransfer.Files.{FileSystem}

abbrev pub block_size : ℕ
block_size = 102400

-- What the tokens of a request ask for. `no_token` is the null pointer from `strtok`.
pub data Command : Type 0 where
  get_file : Bytes → Command
  missing_name list_files quit unknown no_token : Command

-- The chain of `strcmp` tests on the first token, with the second token of GET.
unfoldable pub get_command : Option (Bytes × Bytes) → Command
get_command none = missing_name
get_command (some (name, _)) = get_file name

unfoldable pub word_command : Bytes → Bytes → Command
word_command word rest =
    if same word (codes "GET")
    then get_command (strtok rest)
    else if same word (codes "LIST")
    then list_files
    else if same word (codes "QUIT")
    then quit
    else unknown

unfoldable pub parse_command : Bytes → Command
parse_command cmd = elim (strtok cmd) [
  | none ↦ no_token
  | some (word, rest) ↦ word_command word rest
]

-- sprintf into a buffer of `room` bytes: the text and its zero have to fit.
unfoldable pub print_into : ℕ → Bytes → Run Bytes
print_into room text = if ltb (length text) room then done text else fault

abbrev pub not_found_text : Bytes → Bytes
not_found_text name = codes "NOT_FOUND " ++ name ++ blank_line

abbrev pub size_text : ℕ → Bytes
size_text n = codes "Size: " ++ print_u n ++ crlf

abbrev pub missing_text : Bytes
missing_text = codes "ERROR ( Missing FileName )" ++ blank_line

abbrev pub unknown_text : Bytes
unknown_text = codes "UNKOWN METHOD" ++ blank_line

abbrev pub no_directory_text : Bytes
no_directory_text = codes "INTENRAL ERROR ( Can't open directory)" ++ blank_line

-- "." and "..", which the listing leaves out.
unfoldable pub is_hidden : Bytes → Bool
is_hidden name = same name (codes ".") || same name (codes "..")

module _ (FS : FileSystem) (D : Device) (fuel : ℕ) where
  unfoldable pub send : Bytes → D.State → Run D.State
  send line s = do r ← send_line D fuel line s; done (r.1)

  -- The loop of `doGet` that copies the file. A failed read becomes the largest `u_int`, and the
  -- write loop then runs past the end of the buffer.
  unfoldable pub copy_file : ℕ → FS.File.State → D.State → Run D.State
  copy_file zero f s = unfinished
  copy_file (suc rounds) f s =
      let (answer, f') = FS.File.read f block_size in
      elim answer [
        | none ↦ fault
        | some [] ↦ done s
        | some (c ∷ b) ↦ do r ← write_while D fuel (c ∷ b) (0, s); copy_file rounds f' r.1
      ]

  -- `doGet` once the file is open, and where it cannot be opened.
  unfoldable pub send_file : FS.File.State → D.State → Run D.State
  send_file f s = do
    s1 ← send (codes "OK" ++ crlf) s
    text ← print_into 256 (size_text (FS.size f))
    s2 ← send text s1
    s3 ← send crlf s2
    copy_file fuel f s3

  unfoldable pub send_not_found : Bytes → D.State → Run D.State
  send_not_found name s = do text ← print_into 256 (not_found_text name); send text s

  unfoldable pub do_get : Bytes → Bytes → D.State → Run D.State
  do_get base name s = elim (FS.open_read (base ++ name)) [
    | none ↦ send_not_found name s
    | some f ↦ send_file f s
  ]

  -- The loop over the entries of the directory.
  unfoldable pub send_names : List Bytes → D.State → Run D.State
  send_names [] s = done s
  send_names (name ∷ names) s =
      let shown : Run D.State = (do
        text ← print_into 1024 (name ++ crlf)
        s' ← send text s
        send_names names s') in
      let skipped = send_names names s in if is_hidden name then skipped else shown

  unfoldable pub do_list : Bytes → D.State → Run D.State
  do_list base s = elim (FS.entries base) [
    | none ↦ send no_directory_text s
    | some names ↦ do s' ← send_names names s; send crlf s'
  ]

  -- The answer to a request that neither ends the session nor crashes it.
  unfoldable pub answer : Bytes → Command → D.State → Run D.State
  answer base (get_file name) s = do_get base name s
  answer base missing_name s = send missing_text s
  answer base list_files s = do_list base s
  answer base unknown s = send unknown_text s
  answer base quit s = done s
  answer base no_token s = fault

  -- QUIT ends the session. Any other request is answered, and the session goes on.
  unfoldable pub serve : Bytes → Command → D.State → (D.State → Run D.State) → Run D.State
  serve base quit s next = done s
  serve base c s next = do s' ← answer base c s; next s'

  -- The loop of `start_protocol`.
  unfoldable pub start_protocol : (Bytes → Bytes) → Bytes → ℕ → D.State → Run D.State
  start_protocol front base zero s = unfinished
  start_protocol front base (suc rounds) s = do
    r ← read_until front D fuel [] s
    serve base (parse_command r.0) r.1 (start_protocol front base rounds)
