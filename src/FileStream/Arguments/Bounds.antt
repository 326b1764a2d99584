-- ===== src/FileStream/Arguments/Bounds.antt =====
-- The settings of file_transfer stay within the range of the port and the limits of what is copied.
use iteso_codigos.Common.{
  ℕ, ◌≤◌, ◌≡◌, Bool, true, false, Option, none, some, List, [], ◌∷◌, if◌then◌else◌, length,
  length-take, arith,
}
use iteso_codigos.Common.Text.{Bytes, codes, same}
use iteso_codigos.FileTransfer.Arguments.{Outcome, helped, refused}
use iteso_codigos.FileTransfer.Arguments.Starts.{Starts, Starts-option}
use iteso_codigos.FileStream.Arguments.{
  Settings, defaults, Mode, Field, port_field, target_field, listen_field, help, verbose, other,
  value_of, kind_of, read_port, read_field, with_verbosity, read_options, process_arguments,
}

-- The port is in the range, an address is of at most 18 bytes, and a name of at most 254. An address of
-- 18 bytes fills its array and has no zero behind it.
pub record Fits (s : Settings) : Type 0 where
  pub port_low : 1025 ≤ s.port
  pub port_high : s.port ≤ 65535
  pub target_fits : length (s.target) ≤ 18
  pub listen_fits : length (s.listen) ≤ 18
  pub filename_fits : length (s.filename) ≤ 254

read_port_range : (value : Bytes) (p : ℕ) → read_port value ≡ some p → (1025 ≤ p) × (p ≤ 65535)
unfolding read_port
read_port_range value p e = ground arith

read_field-Fits :
    (f : Field) (value : Bytes) (s s' : Settings)
    → Fits s
    → read_field f value s ≡ some s'
    → Fits s'
unfolding read_field
read_field-Fits port_field value s s' h e = grind (arith, read_port_range value)
read_field-Fits target_field value s s' h e = ground (arith, length-take 18 value)
read_field-Fits listen_field value s s' h e = ground (arith, length-take 18 value)

read_options-Starts :
    (argv : List Bytes) (s : Settings) → Fits s → Starts Fits (read_options argv s)
unfolding read_options Starts
read_options-Starts [] s h = tt
read_options-Starts (a ∷ []) s h = ground (arith, length-take 254 a)
read_options-Starts (a ∷ b ∷ rest) s h =
    elim (kind_of a)
      as (λ k. Starts Fits (elim k [
        | help ↦ helped s
        | value_of f ↦ elim (read_field f b s) [ none ↦ refused | some s' ↦ read_options rest s' ]
        | verbose ↦ read_options (b ∷ rest) (with_verbosity a s)
        | other ↦ refused
      ])) [
        | help ↦ h
        | value_of f ↦
            Starts-option Fits Fits (read_field f b s) (read_options rest)
              (λ s' e. read_field-Fits f b s s' h e) (λ s' h'. read_options-Starts rest s' h')
        | verbose ↦ read_options-Starts (b ∷ rest) (with_verbosity a s) (ground arith)
        | other ↦ tt
      ]

if_Starts :
    (b : Bool) (x y : Option Mode × Outcome Settings)
    → Starts Fits (x.1)
    → Starts Fits (y.1)
    → Starts Fits ((if◌then◌else◌ {A = Option Mode × Outcome Settings} b x y).1)
if_Starts true x y h k = h
if_Starts false x y h k = k

-- Whatever the arguments are, file_transfer starts, if it does, with a port from 1025 to 65535, with
-- addresses of at most 18 bytes and with a name of at most 254.
pub process_arguments-Fits : (argv : List Bytes) → Starts Fits ((process_arguments argv).1)
unfolding process_arguments Starts
process_arguments-Fits [] = tt
process_arguments-Fits (_ ∷ []) = tt
process_arguments-Fits (mode ∷ a ∷ options) =
    let started = read_options-Starts (a ∷ options) defaults (omega arith) in
    if_Starts (same mode (codes "-r")) _ _ started
      (if_Starts (same mode (codes "-t")) _ _ started tt)
