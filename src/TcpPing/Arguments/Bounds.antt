-- ===== src/TcpPing/Arguments/Bounds.antt =====
-- Whatever the command line is, the program starts with settings that are in range.
use iteso_codigos.Common.{
  ℕ, ◌^◌, ◌≤◌, ◌<◌, ◌≡◌, refl, Bool, true, false, ◌||◌, Option, none, some, List, [], ◌∷◌,
  if◌then◌else◌, ltb, leb, ◌==◌, length, length-take, arith,
}
use mathlib.Core.Path.{subst}
use iteso_codigos.Common.Text.{Bytes, codes, same}
use iteso_codigos.FileTransfer.Arguments.{Outcome, ready, helped, refused, null_pointer}
use iteso_codigos.FileTransfer.Arguments.Starts.{Starts, Starts-option}
use iteso_codigos.TcpPing.Arguments.{
  Settings, defaults, Mode, Field, port_field, count_field, size_field, target_field, help, verbose,
  other, value_of, kind_of, number, read_field, with_verbosity, read_options, process_arguments,
}

-- An address of 18 bytes fills its array and has no zero behind it.
pub record IsInRange (s : Settings) : Type 0 where
  pub port_low : 1025 ≤ s.port
  pub port_high : s.port ≤ 65535
  pub some_message : (0 < s.count) × (s.count < 2 ^ 32)
  pub some_byte : (0 < s.size) × (s.size < 2 ^ 32)
  pub address : length (s.target) ≤ 18

number_small : (value : Bytes) → number value < 2 ^ 32
unfolding number
number_small value = omega arith

unless_none :
    (b : Bool) (t s' : Settings) → (if b then none else some t) ≡ some s' → (b ≡ false) × (t ≡ s')
unless_none true t s' e = absurd (cc e)
unless_none false t s' e = (refl, cc)

some_inj : (t s' : Settings) → some t ≡ some s' → t ≡ s'
some_inj t s' e = cc

port_test : (n : ℕ) → (n == 0 || (ltb n 1025 || ltb 65535 n)) ≡ false → (1025 ≤ n) × (n ≤ 65535)
port_test n h = (ground arith, ground arith)

count_test : (n : ℕ) → leb n 0 ≡ false → 0 < n
count_test n h = ground arith

size_test : (n : ℕ) → (n == 0) ≡ false → 0 < n
size_test n h = ground arith

read_field-IsInRange :
    (f : Field) (value : Bytes) (s s' : Settings)
    → IsInRange s
    → read_field f value s ≡ some s'
    → IsInRange s'
unfolding read_field
read_field-IsInRange port_field value s s' h e =
    let (test, same_settings) = unless_none _ _ s' e in
    subst IsInRange same_settings (record {
      port_low = (port_test (number value) test).0;
      port_high = (port_test (number value) test).1;
      some_message = h.some_message;
      some_byte = h.some_byte;
      address = h.address;
    })
read_field-IsInRange count_field value s s' h e =
    let (test, same_settings) = unless_none _ _ s' e in
    subst IsInRange same_settings (record {
      port_low = h.port_low;
      port_high = h.port_high;
      some_message = (count_test (number value) test, number_small value);
      some_byte = h.some_byte;
      address = h.address;
    })
read_field-IsInRange size_field value s s' h e =
    let (test, same_settings) = unless_none _ _ s' e in
    subst IsInRange same_settings (record {
      port_low = h.port_low;
      port_high = h.port_high;
      some_message = h.some_message;
      some_byte = (size_test (number value) test, number_small value);
      address = h.address;
    })
read_field-IsInRange target_field value s s' h e = subst IsInRange (some_inj _ s' e) (record {
  port_low = h.port_low;
  port_high = h.port_high;
  some_message = h.some_message;
  some_byte = h.some_byte;
  address = (omega (arith, length-take 18 value));
})

with_verbosity-IsInRange : (a : Bytes) (s : Settings) → IsInRange s → IsInRange (with_verbosity a s)
with_verbosity-IsInRange a s h = record {
  port_low = h.port_low;
  port_high = h.port_high;
  some_message = h.some_message;
  some_byte = h.some_byte;
  address = h.address;
}

read_options-Starts :
    (argv : List Bytes) (s : Settings) → IsInRange s → Starts IsInRange (read_options argv s)
unfolding read_options Starts
read_options-Starts [] s h = h
read_options-Starts (a ∷ []) s h =
    elim (kind_of a)
      as (λ k. Starts IsInRange (elim k [
        | help ↦ helped s
        | value_of f ↦ null_pointer
        | verbose ↦ ready (with_verbosity a s)
        | other ↦ refused
      ])) [ help ↦ h | value_of f ↦ tt | verbose ↦ with_verbosity-IsInRange a s h | other ↦ tt ]
read_options-Starts (a ∷ b ∷ rest) s h =
    elim (kind_of a)
      as (λ k. Starts IsInRange (elim k [
        | help ↦ helped s
        | value_of f ↦ elim (read_field f b s) [ none ↦ refused | some s' ↦ read_options rest s' ]
        | verbose ↦ read_options (b ∷ rest) (with_verbosity a s)
        | other ↦ refused
      ])) [
        | help ↦ h
        | value_of f ↦
            Starts-option IsInRange IsInRange (read_field f b s) (read_options rest)
              (λ s' e. read_field-IsInRange f b s s' h e) (λ s' h'. read_options-Starts rest s' h')
        | verbose ↦
            read_options-Starts (b ∷ rest) (with_verbosity a s) (with_verbosity-IsInRange a s h)
        | other ↦ tt
      ]

defaults-IsInRange : IsInRange defaults
defaults-IsInRange = record {
  port_low = omega arith;
  port_high = omega arith;
  some_message = omega arith;
  some_byte = omega arith;
  address = omega arith;
}

if_IsInRange :
    (b : Bool) (x y : Option Mode × Outcome Settings)
    → Starts IsInRange (x.1)
    → Starts IsInRange (y.1)
    → Starts IsInRange ((if◌then◌else◌ {A = Option Mode × Outcome Settings} b x y).1)
if_IsInRange true x y h k = h
if_IsInRange false x y h k = k

-- Whatever the arguments are, the program starts, if it does, with a port from 1025 to 65535, with a
-- positive number of messages and a positive size, both below 2^32, and with an address of at most 18
-- bytes.
pub process_arguments-IsInRange :
    (argv : List Bytes) → Starts IsInRange ((process_arguments argv).1)
unfolding process_arguments Starts
process_arguments-IsInRange [] = tt
process_arguments-IsInRange (mode ∷ options) =
    let started = read_options-Starts options defaults defaults-IsInRange in
    if_IsInRange (same mode (codes "-s")) _ _ started
      (if_IsInRange (same mode (codes "-c")) _ _ started tt)
