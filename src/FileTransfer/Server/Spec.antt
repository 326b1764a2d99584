-- ===== src/FileTransfer/Server/Spec.antt =====
-- What the server promises, with no word about calls and buffers: the text that answers a request.
use iteso_codigos.Common.{
  ℕ, ◌+◌, ◌<◌, Option, none, some, List, [], ◌∷◌, ◌++◌, if◌then◌else◌, length, All,
}
use iteso_codigos.Common.Text.{Bytes, codes}
use iteso_codigos.FileTransfer.Receive.{crlf, blank_line}
use iteso_codigos.FileTransfer.Receive.Lines.{IsLine}
use iteso_codigos.FileTransfer.Files.{FileSystem, IsFaithful}
use iteso_codigos.FileTransfer.Server.{
  Command, get_file, missing_name, list_files, quit, unknown, no_token, parse_command,
  not_found_text, size_text, missing_text, unknown_text, no_directory_text, is_hidden,
}

-- The shown names, a line for each.
unfoldable pub listing : List Bytes → Bytes
listing [] = []
listing (name ∷ names) =
    let rest = listing names in if is_hidden name then rest else (name ++ crlf) ++ rest

-- The status line, the size and an empty line.
abbrev pub header : ℕ → Bytes
header n = (codes "OK" ++ crlf) ++ (size_text n ++ crlf)

module _ (FS : FileSystem) (F : IsFaithful FS) (base : Bytes) where
  unfoldable pub get_reply : Bytes → Option FS.File.State → Bytes
  get_reply name none = not_found_text name
  get_reply name (some f) = header (FS.size f) ++ F.lawful.pending f

  unfoldable pub list_reply : Option (List Bytes) → Bytes
  unfolding listing
  list_reply none = no_directory_text
  list_reply (some names) = listing names ++ crlf

  unfoldable pub reply : Command → Bytes
  unfolding get_reply list_reply
  reply (get_file name) = get_reply name (FS.open_read (base ++ name))
  reply missing_name = missing_text
  reply list_files = list_reply (FS.entries base)
  reply unknown = unknown_text
  reply quit = []
  reply no_token = []

  -- The texts fit into the buffers of 256 and 1024 bytes that they are printed into.
  abbrev pub FitsGet : Bytes → Option FS.File.State → Type 0
  FitsGet name none = length (not_found_text name) < 256
  FitsGet name (some f) = Unit

  abbrev pub FitsList : Option (List Bytes) → Type 0
  FitsList none = Unit
  FitsList (some names) = All (λ name. length (name ++ crlf) < 1024) names

  -- Requests that are answered: none that ends the session or has no token.
  abbrev pub IsAnswered : Command → Type 0
  IsAnswered (get_file name) = FitsGet name (FS.open_read (base ++ name))
  IsAnswered list_files = FitsList (FS.entries base)
  IsAnswered missing_name = Unit
  IsAnswered unknown = Unit
  IsAnswered quit = ⊥
  IsAnswered no_token = ⊥

  -- The requests of a session as they come in, and the answers to them.
  unfoldable pub requests : List Bytes → Bytes
  requests [] = []
  requests (r ∷ rs) = (r ++ blank_line) ++ requests rs

  unfoldable pub replies : List Bytes → Bytes
  unfolding reply
  replies [] = []
  replies (r ∷ rs) = reply (parse_command r) ++ replies rs

  -- Each request is one line, is answered, and comes within the fuel with its answer.
  abbrev pub IsServed : ℕ → Bytes → Type 0
  IsServed fuel r =
      IsLine r
      × IsAnswered (parse_command r)
      × (length r + 4 < fuel)
      × (length (reply (parse_command r)) < fuel)
