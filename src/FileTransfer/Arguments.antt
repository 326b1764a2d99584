-- ===== src/FileTransfer/Arguments.antt =====
-- `processArguments` of FileTransfer_Proyecto/main_server.c, main_client.c and main_list.c.
pub mod Laws
pub mod Starts
mod Tests
use iteso_codigos.Common.{
  ℕ, ◌+◌, ◌-◌, ◌%◌, ◌^◌, Bool, true, false, ◌&&◌, ◌||◌, Option, none, some, List, [], ◌∷◌, ◌++◌,
  if◌then◌else◌, ltb, leb, ◌==◌, length, take,
}
use iteso_codigos.Common.Text.{Bytes, codes, same}
use iteso_codigos.Libc.Search.{strstr}
use iteso_codigos.Libc.Number.{strtol}

-- The global variables that the options set. The clients have no directory.
pub record Settings : Type 0 where
  pub port : ℕ
  pub directory : Bytes
  pub verbosity : ℕ

-- CONFIG_DEFAULT_PORT, CONFIG_DEFAULT_BASEDIR and CONFIG_DEFAULT_VERBOSE.
abbrev pub defaults : Settings
defaults = record { port = 5001; directory = codes "./"; verbosity = 1 }

-- `helped` has printed the help and lets the program start; `refused` has printed the help and an
-- error and ends the program; `null_pointer` has followed the null pointer at the end of `argv`.
pub data Outcome (A : Type 0) : Type 0 where
  ready helped : A → Outcome A
  refused null_pointer : Outcome A

-- Which branch of the chain an argument takes. Only the server knows "-d".
pub data Kind : Type 0 where
  help port_next directory_next verbose other : Kind

unfoldable pub kind_of : Bool → Bytes → Kind
kind_of has_directory a =
    if same a (codes "-h")
    then help
    else if same a (codes "-p")
    then port_next
    else if has_directory && same a (codes "-d")
    then directory_next
    else elim (strstr a (codes "-v")) [ none ↦ other | some _ ↦ verbose ]

-- temp == 0 || temp < MINPORT || temp > MAXPORT, with `temp` a `u_int`.
unfoldable pub read_port : Bytes → Option ℕ
read_port value =
    let temp = strtol value % 2 ^ 32 in
    if temp == 0 || (ltb temp 1 || ltb 65000 temp) then none else some temp

-- The loop over `argv` up to the last `left` arguments, with the arguments that are not read yet.
module _ (has_directory : Bool) (left : ℕ) where
  unfoldable pub read_options : List Bytes → Settings → Outcome (Settings × List Bytes)
  read_options [] s = ready (s, [])
  read_options (a ∷ []) s =
      if ltb left 1
      then (elim (kind_of has_directory a) [
        | help ↦ helped (s, a ∷ [])
        | port_next ↦ null_pointer
        | directory_next ↦ null_pointer
        | verbose ↦
            ready (record { port = s.port; directory = s.directory; verbosity = length a - 1 }, [])
        | other ↦ refused
      ])
      else ready (s, a ∷ [])
  read_options (a ∷ b ∷ rest) s =
      let next : Kind → Outcome (Settings × List Bytes) = λ k. elim k [
        | help ↦ helped (s, a ∷ b ∷ rest)
        | port_next ↦ elim (read_port b) [
          | none ↦ refused
          | some p ↦
              read_options rest
                (record { port = p; directory = s.directory; verbosity = s.verbosity })
        ]
        | directory_next ↦
            read_options rest
              (record { port = s.port; directory = take 254 b; verbosity = s.verbosity })
        | verbose ↦
            read_options (b ∷ rest)
              (record { port = s.port; directory = s.directory; verbosity = length a - 1 })
        | other ↦ refused
      ] in
      if ltb left (length (a ∷ b ∷ rest))
      then next (kind_of has_directory a)
      else ready (s, a ∷ b ∷ rest)

-- main_server.c
unfoldable pub server_arguments : List Bytes → Outcome (Settings × List Bytes)
server_arguments argv = read_options true 0 argv defaults

-- What the client starts with.
pub record Request : Type 0 where
  pub settings : Settings
  pub ip : Bytes
  pub remote : Bytes
  pub local : Bytes

-- The three arguments behind the options. An option may have taken the first of them as its value.
unfoldable pub client_names : Settings → List Bytes → Outcome Request
client_names s (ip ∷ remote ∷ local ∷ _) =
    ready
      (record { settings = s; ip = take 18 ip; remote = take 254 remote; local = take 254 local })
client_names s (_ ∷ _ ∷ []) = null_pointer
client_names s (_ ∷ []) = null_pointer
client_names s [] = null_pointer

-- After "-h" the names keep their initial value, the empty string.
unfoldable pub finish_client : Outcome (Settings × List Bytes) → Outcome Request
finish_client (ready (s, rest)) = client_names s rest
finish_client (helped (s, _)) = helped (record { settings = s; ip = []; remote = []; local = [] })
finish_client refused = refused
finish_client null_pointer = null_pointer

-- main_client.c: argc counts the name of the program too.
unfoldable pub client_arguments : List Bytes → Outcome Request
client_arguments argv =
    if ltb (length argv + 1) 4 then refused else finish_client (read_options false 3 argv defaults)

unfoldable pub finish_list : Outcome (Settings × List Bytes) → Outcome (Settings × Bytes)
finish_list (ready (s, ip ∷ _)) = ready (s, take 18 ip)
finish_list (ready (s, [])) = null_pointer
finish_list (helped (s, _)) = helped (s, [])
finish_list refused = refused
finish_list null_pointer = null_pointer

-- main_list.c: the loop leaves three arguments, as in the other client, and takes the first of them.
unfoldable pub list_arguments : List Bytes → Outcome (Settings × Bytes)
list_arguments argv =
    if ltb (length argv + 1) 2 then refused else finish_list (read_options false 3 argv defaults)
