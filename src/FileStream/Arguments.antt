-- ===== src/FileStream/Arguments.antt =====
-- `processArguments` of file_transfer/file_transfer.c.
pub mod Bounds
use iteso_codigos.Common.{
  ℕ, ◌-◌, ◌%◌, ◌^◌, Bool, true, false, ◌||◌, Option, none, some, List, [], ◌∷◌, if◌then◌else◌, ltb,
  ◌==◌, length, take,
}
use iteso_codigos.Common.Text.{Bytes, codes, same}
use iteso_codigos.Libc.Search.{strstr}
use iteso_codigos.Libc.Number.{strtol}
use iteso_codigos.FileTransfer.Arguments.{Outcome, ready, helped, refused, null_pointer}

-- The global variables.
pub record Settings : Type 0 where
  pub port : ℕ
  pub verbosity : ℕ
  pub target : Bytes
  pub listen : Bytes
  pub filename : Bytes

abbrev pub defaults : Settings
defaults = record {
  port = 5001;
  verbosity = 1;
  target = [];
  listen = codes "0.0.0.0";
  filename = [];
}

pub data Mode : Type 0 where
  server client : Mode

-- The options that take a value.
pub data Field : Type 0 where
  port_field target_field listen_field : Field

-- Which branch of the chain an argument takes.
pub data Kind : Type 0 where
  help verbose other : Kind
  value_of : Field → Kind

-- "-v" anywhere in the argument is looked for before "-i".
unfoldable pub kind_of : Bytes → Kind
kind_of a =
    if same a (codes "-h")
    then help
    else if same a (codes "-p")
    then value_of port_field
    else if same a (codes "-d")
    then value_of target_field
    else elim (strstr a (codes "-v")) [
      | some _ ↦ verbose
      | none ↦ if same a (codes "-i") then value_of listen_field else other
    ]

-- temp = strtoimax(…) as a `u_int`, and its range.
unfoldable pub read_port : Bytes → Option ℕ
read_port value =
    let temp = strtol value % 2 ^ 32 in
    if temp == 0 || (ltb temp 1025 || ltb 65535 temp) then none else some temp

-- What is kept of an address is what its array of 18 bytes holds in front of the first zero; of 18
-- bytes there is none.
unfoldable pub read_field : Field → Bytes → Settings → Option Settings
read_field port_field value s = elim (read_port value) [
  | none ↦ none
  | some p ↦ some (record s { port = p })
]
read_field target_field value s = some (record s { target = take 18 value })
read_field listen_field value s = some (record s { listen = take 18 value })

abbrev pub with_verbosity : Bytes → Settings → Settings
with_verbosity a s = record s { verbosity = length a - 1 }

-- for(i=2; i<(argc-1); i++), and then stpncpy(filename,argv[i],254): the argument that is left is the
-- name. If an option took it as its value, `argv[i]` is the null pointer behind the arguments.
unfoldable pub read_options : List Bytes → Settings → Outcome Settings
read_options [] s = null_pointer
read_options (a ∷ []) s = ready (record s { filename = take 254 a })
read_options (a ∷ b ∷ rest) s = elim (kind_of a) [
  | help ↦ helped s
  | value_of f ↦ elim (read_field f b s) [ none ↦ refused | some s' ↦ read_options rest s' ]
  | verbose ↦ read_options (b ∷ rest) (with_verbosity a s)
  | other ↦ refused
]

-- argc counts the name of the program too. The mode comes first.
unfoldable pub process_arguments : List Bytes → Option Mode × Outcome Settings
process_arguments [] = (none, refused)
process_arguments (_ ∷ []) = (none, refused)
process_arguments (mode ∷ a ∷ options) =
    if same mode (codes "-r")
    then (some server, read_options (a ∷ options) defaults)
    else if same mode (codes "-t")
    then (some client, read_options (a ∷ options) defaults)
    else (none, refused)
