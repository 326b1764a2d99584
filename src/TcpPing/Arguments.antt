-- ===== src/TcpPing/Arguments.antt =====
-- `processArguments` of tcp_ping/tcp_ping.c.
pub mod Bounds
use iteso_codigos.Common.{
  ℕ, ◌-◌, ◌%◌, ◌^◌, Bool, true, false, ◌||◌, Option, none, some, List, [], ◌∷◌, if◌then◌else◌, ltb,
  leb, ◌==◌, length, take,
}
use iteso_codigos.Common.Text.{Bytes, codes, same}
use iteso_codigos.Libc.Search.{strstr}
use iteso_codigos.Libc.Number.{strtol}
use iteso_codigos.FileTransfer.Arguments.{Outcome, ready, helped, refused, null_pointer}

-- The global variables that the options set.
pub record Settings : Type 0 where
  pub port : ℕ
  pub verbosity : ℕ
  pub count : ℕ
  pub size : ℕ
  pub target : Bytes

-- The values in defaults.h.
abbrev pub defaults : Settings
defaults = record { port = 5001; verbosity = 1; count = 5; size = 64; target = [] }

pub data Mode : Type 0 where
  server client : Mode

-- The options that take a value.
pub data Field : Type 0 where
  port_field count_field size_field target_field : Field

-- Which branch of the chain an argument takes.
pub data Kind : Type 0 where
  help verbose other : Kind
  value_of : Field → Kind

unfoldable pub kind_of : Bytes → Kind
kind_of a =
    if same a (codes "-h")
    then help
    else if same a (codes "-p")
    then value_of port_field
    else if same a (codes "-n")
    then value_of count_field
    else if same a (codes "-s")
    then value_of size_field
    else if same a (codes "-d")
    then value_of target_field
    else elim (strstr a (codes "-v")) [ none ↦ other | some _ ↦ verbose ]

-- temp = strtoimax(…), with `temp` a `u_int`.
unfoldable pub number : Bytes → ℕ
number value = strtol value % 2 ^ 32

-- The branch of an option with its value; `none` refuses it. What is kept of an
-- address is what its array of 18 bytes holds in front of the first zero; of 18 bytes there is none.
unfoldable pub read_field : Field → Bytes → Settings → Option Settings
read_field port_field value s =
    if number value == 0 || (ltb (number value) 1025 || ltb 65535 (number value))
    then none
    else some (record {
      port = number value;
      verbosity = s.verbosity;
      count = s.count;
      size = s.size;
      target = s.target;
    })
read_field count_field value s =
    if leb (number value) 0
    then none
    else some (record {
      port = s.port;
      verbosity = s.verbosity;
      count = number value;
      size = s.size;
      target = s.target;
    })
read_field size_field value s =
    if number value == 0
    then none
    else some (record {
      port = s.port;
      verbosity = s.verbosity;
      count = s.count;
      size = number value;
      target = s.target;
    })
read_field target_field value s = some (record {
  port = s.port;
  verbosity = s.verbosity;
  count = s.count;
  size = s.size;
  target = take 18 value;
})

abbrev pub with_verbosity : Bytes → Settings → Settings
with_verbosity a s = record {
  port = s.port;
  verbosity = length a - 1;
  count = s.count;
  size = s.size;
  target = s.target;
}

-- for(i=2; i<argc; i++), with the arguments that are not read yet.
unfoldable pub read_options : List Bytes → Settings → Outcome Settings
read_options [] s = ready s
read_options (a ∷ []) s = elim (kind_of a) [
  | help ↦ helped s
  | value_of f ↦ null_pointer
  | verbose ↦ ready (with_verbosity a s)
  | other ↦ refused
]
read_options (a ∷ b ∷ rest) s = elim (kind_of a) [
  | help ↦ helped s
  | value_of f ↦ elim (read_field f b s) [ none ↦ refused | some s' ↦ read_options rest s' ]
  | verbose ↦ read_options (b ∷ rest) (with_verbosity a s)
  | other ↦ refused
]

-- The arguments behind the name of the program. The mode comes first.
unfoldable pub process_arguments : List Bytes → Option Mode × Outcome Settings
process_arguments [] = (none, refused)
process_arguments (mode ∷ options) =
    if same mode (codes "-s")
    then (some server, read_options options defaults)
    else if same mode (codes "-c")
    then (some client, read_options options defaults)
    else (none, refused)
