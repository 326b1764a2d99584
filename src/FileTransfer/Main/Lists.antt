-- ===== src/FileTransfer/Main/Lists.antt =====
-- A listing by the client main_list.c, from its command line on, and what it does to the server.
use mathlib.Core.Path.{subst}
use iteso_codigos.Common.{
  ℕ, suc, ◌+◌, ◌≤◌, ◌<◌, ◌≡◌, refl, sym, ap, ◌∙◌, Bool-cases, inl, inr, Option, some, List, [], ◌∷◌,
  ◌++◌, append-nil, if◌then◌else◌, length, length-append, take-eq_self, All, arith,
}
use iteso_codigos.Common.Text.{Bytes, codes, same}
use iteso_codigos.Common.Run.{done, fault}
use iteso_codigos.Libc.Search.{strtok, span}
use iteso_codigos.Device.{Device, IsLawful, IsReliable}
use iteso_codigos.Netlib.{Network, new_client_socket}
use iteso_codigos.FileTransfer.Receive.{crlf}
use iteso_codigos.FileTransfer.Receive.Pattern.{IsCalm}
use iteso_codigos.FileTransfer.Receive.Lines.{IsLine, join_lines}
use iteso_codigos.FileTransfer.Files.{FileSystem, IsFaithful}
use iteso_codigos.FileTransfer.Arguments.{
  Settings, ready, defaults, list_arguments, finish_list, read_options,
}
use iteso_codigos.FileTransfer.Server.{
  list_files, is_hidden, parse_command, word_command, start_protocol,
}
use iteso_codigos.FileTransfer.Server.Spec.{replies, listing, list_reply, reply, requests, IsServed}
use iteso_codigos.FileTransfer.Server.Session.{start_protocol_closed}
use iteso_codigos.FileTransfer.Client
use iteso_codigos.FileTransfer.Client.{list_text}
use iteso_codigos.FileTransfer.Client.Names.{IsShown, get_list-Reads}
use iteso_codigos.FileTransfer.Program.{get_list}
use iteso_codigos.FileTransfer.Main.{ran, list_with, list_main}

-- The names that the listing shows.
abbrev pub shown : List Bytes → List Bytes
shown [] = []
shown (name ∷ names) = let rest = shown names in if is_hidden name then rest else name ∷ rest

listing-shown : (names : List Bytes) → listing names ≡ listing (shown names)
unfolding listing
listing-shown [] = refl
listing-shown (name ∷ names) = elim (Bool-cases (is_hidden name)) [
  | inl hidden ↦ rw hidden (listing-shown names)
  | inr plain ↦ rw plain (rw plain (ap (λ (b : Bytes). (name ++ crlf) ++ b) (listing-shown names)))
]

lines_shown : (names : List Bytes) → All IsLine (shown names) → All IsShown (shown names)
lines_shown [] = λ _. tt
lines_shown (name ∷ names) = elim (Bool-cases (is_hidden name)) [
  | inl hidden ↦ rw hidden (lines_shown names)
  | inr plain ↦ rw plain (λ (line, lines). ((line, plain), lines_shown names lines))
]

list_arguments_address :
    (ip : Bytes) → length ip ≤ 18 → list_arguments (ip ∷ []) ≡ ready (defaults, ip)
unfolding list_arguments finish_list read_options
list_arguments_address ip short = rw (take-eq_self 18 ip short) refl

parse_command_list : parse_command (codes "LIST") ≡ list_files
unfolding parse_command word_command strtok span same
parse_command_list = refl

module _ (N : Network) (C : Device) (connection : ℕ → C.State) (fuel : ℕ)
    (front : Bytes → Bytes) where
  get_list_steps :
      (port fd : ℕ) (ip : Bytes) (n : N.State) (r : Bytes × C.State)
      → (new_client_socket N ip port n).0 ≡ some fd
      → Client.get_list C fuel front [] (connection fd) ≡ done r
      → get_list N C connection fuel front [] port ip n ≡ done (some r)
  unfolding get_list
  get_list_steps port fd ip n r connected run = rw (connected, get_list) (rw run refl)

  list_main_steps :
      (argv : List Bytes) (s : Settings) (ip : Bytes) (n : N.State) (x : Option (Bytes × C.State))
      → list_arguments argv ≡ ready (s, ip)
      → get_list N C connection fuel front [] s.port ip n ≡ done x
      → list_main N C connection fuel front [] argv n ≡ done (ran x)
  unfolding list_main list_with
  list_main_steps argv s ip n x e run = rw e (rw run refl)

module _ (FS : FileSystem) (F : IsFaithful FS) (front : Bytes → Bytes) (calm : IsCalm front)
    (fuel : ℕ) (S : Device) (LS : IsLawful S) (RS : IsReliable S) (C : Device) (LC : IsLawful C)
    (RC : IsReliable C) (N : Network) (outgoing : ℕ → C.State) where
  reply-list_files :
      (base : Bytes) (names : List Bytes)
      → FS.entries base ≡ some names
      → reply FS F base list_files ≡ listing names ++ crlf
  unfolding reply list_reply
  reply-list_files base names found = rw found refl

  replies-list : (base : Bytes) → replies FS F base (codes "LIST" ∷ []) ≡ reply FS F base list_files
  unfolding replies
  replies-list base = rw parse_command_list (append-nil _)

  list_request-IsServed :
      (base : Bytes) (names : List Bytes)
      → FS.entries base ≡ some names
      → All (λ name. length (name ++ crlf) < 1024) names
      → 8 < fuel
      → length (listing names) + 2 < fuel
      → IsServed FS F base fuel (codes "LIST")
  list_request-IsServed base names found fits enough long = (
    (cc, omega arith),
    rw (parse_command_list) (rw found fits),
    enough,
    rw (parse_command_list, reply-list_files base names found)
        (omega (arith, long, length-append (listing names) crlf)),
  )

  -- Over reliable connections, with the memory in front of a short string free of ends of line and
  -- with fuel above what is moved: main_list with one address, in whose connection the listing of the
  -- directory comes in, which shows at least one name and names of one line only, prints these names
  -- and has asked for the list and nothing else. On that text alone the session of the server sends
  -- the listing, and then hands a null pointer to `strcmp`.
  pub list_main-Lists :
      (base ip name : Bytes) (entries names : List Bytes) (fd rounds : ℕ) (n : N.State)
      (t : S.State)
      → length ip ≤ 18
      → (new_client_socket N ip 5001 n).0 ≡ some fd
      → FS.entries base ≡ some entries
      → shown entries ≡ name ∷ names
      → All IsLine (name ∷ names)
      → All (λ entry. length (entry ++ crlf) < 1024) entries
      → 8 < fuel
      → length (listing entries) + 2 < fuel
      → 1 < rounds
      → LC.pending (outgoing fd) ≡ reply FS F base list_files
      → LS.pending t ≡ list_text
      → (s' : C.State) × (list_main N C outgoing fuel front [] (ip ∷ []) n
          ≡ done (ran (some (join_lines (name ∷ names), s'))))
        × (LC.sent s' ≡ LC.sent (outgoing fd) ++ list_text)
        × ((t1 : S.State) × ((m : ℕ)
              → start_protocol FS S fuel front base (suc m) t
                ≡ start_protocol FS S fuel front base m t1)
            × (LS.sent t1 ≡ LS.sent t ++ LC.pending (outgoing fd)))
        × (start_protocol FS S fuel front base rounds t ≡ fault)
  list_main-Lists base ip name entries names fd rounds n t short connected found visible lines fits
        enough long more told asked =
      let same_listing : listing entries ≡ listing (name ∷ names) =
        listing-shown entries ∙ ap (λ (x : List Bytes). listing x) visible in
      let is_shown : All IsShown (name ∷ names) =
        subst (λ (x : List Bytes). All IsLine x → All IsShown x) visible (lines_shown entries)
          lines in
      let served = list_request-IsServed base entries found fits enough long in
      let (p, crash) =
        start_protocol_closed FS F S LS RS fuel front calm base (codes "LIST" ∷ []) rounds t
          (served, tt) (omega arith) more (asked ∙ unfold requests in refl) in
      let (s', run, _, sent) =
        get_list-Reads C LC RC front calm fuel name names [] (outgoing fd) is_shown
          (told
            ∙ reply-list_files base entries found
            ∙ ap (λ (b : Bytes). b ++ crlf) same_listing
            ∙ sym (append-nil _))
          enough (omega (arith, ap length same_listing, long)) in
      (
        s',
        list_main_steps N C outgoing fuel front (ip ∷ []) defaults ip n _
            (list_arguments_address ip short)
            (get_list_steps N C outgoing fuel front 5001 fd ip n _ connected run),
        sent,
        (
          p.waiting,
          λ m. ap (λ (k : ℕ). start_protocol FS S fuel front base k t) (omega arith) ∙ p.goes_on m,
          p.delivers ∙ ap (λ (b : Bytes). LS.sent t ++ b) (replies-list base ∙ sym told),
        ),
        crash,
      )
