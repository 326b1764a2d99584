-- ===== src/FileTransfer/Arguments/Laws.antt =====
-- The options that a user writes are the settings that the program starts with.
use iteso_codigos.Common.{
  ℕ, suc, ◌+◌, ◌-◌, ◌%◌, ◌^◌, ◌≤◌, ◌<◌, ◌≡◌, refl, sym, ap, ◌∙◌, Bool, true, false, some, List, [],
  ◌∷◌, ◌++◌, append-nil, lt→ltb, le→not_ltb, length, length-append, length-replicate, take-eq_self,
  replicate, All, arith,
}
use iteso_codigos.Common.Text.{Bytes, codes, same}
use iteso_codigos.Libc.Search.{strstr}
use iteso_codigos.Libc.Number.{print_u, strtol}
use iteso_codigos.Libc.Number.RoundTrip.{strtol-print_u}
use iteso_codigos.FileTransfer.Arguments.{
  Settings, Outcome, ready, null_pointer, directory_next, verbose, kind_of, read_port, read_options,
  defaults, server_arguments, client_names, finish_client, client_arguments, finish_list,
  list_arguments,
}

-- One option, as a user means it.
pub data Choice : Type 0 where
  use_port use_verbosity : ℕ → Choice
  use_directory : Bytes → Choice

abbrev pub v_option : ℕ → Bytes
v_option n = codes "-v" ++ replicate n b'v'

unfoldable pub arguments : List Choice → List Bytes
arguments [] = []
arguments (use_port p ∷ cs) = codes "-p" ∷ print_u p ∷ arguments cs
arguments (use_verbosity n ∷ cs) = v_option n ∷ arguments cs
arguments (use_directory d ∷ cs) = codes "-d" ∷ d ∷ arguments cs

unfoldable pub settings_of : List Choice → Settings → Settings
settings_of [] s = s
settings_of (use_port p ∷ cs) s =
    settings_of cs (record { port = p; directory = s.directory; verbosity = s.verbosity })
settings_of (use_verbosity n ∷ cs) s =
    settings_of cs (record { port = s.port; directory = s.directory; verbosity = n + 1 })
settings_of (use_directory d ∷ cs) s =
    settings_of cs (record { port = s.port; directory = d; verbosity = s.verbosity })

-- What the program accepts: a port in the range, and a directory that fits, for the server only.
unfoldable pub IsAccepted : Bool → Choice → Type 0
IsAccepted has_directory (use_port p) = (0 < p) × (p ≤ 65000)
IsAccepted has_directory (use_verbosity n) = n < 2 ^ 31
IsAccepted has_directory (use_directory d) = (has_directory ≡ true) × (length d ≤ 254)

pub read_port-print_u : (p : ℕ) → 0 < p → p ≤ 65000 → read_port (print_u p) ≡ some p
unfolding read_port
read_port-print_u p pos small =
    let e : strtol (print_u p) % 2 ^ 32 ≡ p = omega (arith, strtol-print_u p) in
    ground (arith, e, pos, small)

kind_of-v_option : (b : Bool) (n : ℕ) → kind_of b (v_option n) ≡ verbose
unfolding kind_of same strstr
kind_of-v_option true n = refl
kind_of-v_option false n = refl

kind_of-directory : (b : Bool) → b ≡ true → kind_of b (codes "-d") ≡ directory_next
unfolding kind_of same
kind_of-directory true has = refl
kind_of-directory false has = absurd (cc has)

length-v_option : (n : ℕ) → length (v_option n) - 1 ≡ n + 1
length-v_option n =
    let v : ℕ = b'v' in
    let e : length (replicate n v) ≡ n = length-replicate n v in omega (arith, e)

module _ (b : Bool) (left : ℕ) where
  port_step :
      (p : ℕ) (rest : List Bytes) (s : Settings)
      → 0 < p
      → p ≤ 65000
      → left < length rest + 2
      → read_options b left (codes "-p" ∷ print_u p ∷ rest) s
        ≡ read_options b left rest
            (record { port = p; directory = s.directory; verbosity = s.verbosity })
  unfolding read_options kind_of same
  port_step p rest s pos small more =
      rw (lt→ltb left (suc (suc (length rest))) (omega arith), read_port-print_u p pos small) refl

  verbosity_step :
      (n : ℕ) (rest : List Bytes) (s : Settings)
      → left < length rest + 1
      → read_options b left (v_option n ∷ rest) s
        ≡ read_options b left rest
            (record { port = s.port; directory = s.directory; verbosity = n + 1 })
  unfolding read_options
  verbosity_step n [] s more =
      rw (lt→ltb left 1 (omega arith), kind_of-v_option b n)
        (ap
          (λ (m : ℕ). ready (record { port = s.port; directory = s.directory; verbosity = m }, []))
          (length-v_option n))
  verbosity_step n (c ∷ rest) s more =
      rw (lt→ltb left (suc (suc (length rest))) (omega arith), kind_of-v_option b n)
        (ap
          (λ (m : ℕ).
            read_options b left (c ∷ rest)
              (record { port = s.port; directory = s.directory; verbosity = m }))
          (length-v_option n))

  directory_step :
      (d : Bytes) (rest : List Bytes) (s : Settings)
      → b ≡ true
      → length d ≤ 254
      → left < length rest + 2
      → read_options b left (codes "-d" ∷ d ∷ rest) s
        ≡ read_options b left rest
            (record { port = s.port; directory = d; verbosity = s.verbosity })
  unfolding read_options
  directory_step d rest s has fits more =
      rw
        (
          lt→ltb left (suc (suc (length rest))) (omega arith),
          kind_of-directory b has,
          take-eq_self 254 d fits,
        )
        refl

  read_options_left :
      (names : List Bytes) (s : Settings)
      → length names ≡ left
      → read_options b left names s ≡ ready (s, names)
  unfolding read_options
  read_options_left [] s e = refl
  read_options_left (a ∷ []) s e = rw (le→not_ltb left 1 (omega arith)) refl
  read_options_left (a ∷ c ∷ rest) s e =
      rw (le→not_ltb left (suc (suc (length rest))) (omega arith)) refl

  length-arguments :
      (cs : List Choice) (names : List Bytes) → length names ≤ length (arguments cs ++ names)
  length-arguments cs names = omega (arith, length-append (arguments cs) names)

  -- The loop over the options that a user writes in front of as many other arguments as it leaves:
  -- it ends with the settings that the options mean, and with exactly those arguments unread.
  pub read_options-arguments :
      (cs : List Choice) (names : List Bytes) (s : Settings)
      → All (IsAccepted b) cs
      → length names ≡ left
      → read_options b left (arguments cs ++ names) s ≡ ready (settings_of cs s, names)
  unfolding arguments settings_of IsAccepted
  read_options-arguments [] names s _ e = read_options_left names s e
  read_options-arguments (use_port p ∷ cs) names s ((pos, small), h) e =
      port_step p (arguments cs ++ names) s pos small (omega (arith, length-arguments cs names))
      ∙ read_options-arguments cs names _ h e
  read_options-arguments (use_verbosity n ∷ cs) names s (_, h) e =
      verbosity_step n (arguments cs ++ names) s (omega (arith, length-arguments cs names))
      ∙ read_options-arguments cs names _ h e
  read_options-arguments (use_directory d ∷ cs) names s ((has, fits), h) e =
      directory_step d (arguments cs ++ names) s has fits (omega (arith, length-arguments cs names))
      ∙ read_options-arguments cs names _ h e

pub server_arguments-arguments :
    (cs : List Choice)
    → All (IsAccepted true) cs
    → server_arguments (arguments cs) ≡ ready (settings_of cs defaults, [])
unfolding server_arguments
server_arguments-arguments cs h =
    ap (λ (a : List Bytes). read_options true 0 a defaults) (sym (append-nil (arguments cs)))
    ∙ read_options-arguments true 0 cs [] defaults h refl

client_arguments-read_options :
    (argv : List Bytes) (r : Outcome (Settings × List Bytes))
    → 3 ≤ length argv
    → read_options false 3 argv defaults ≡ r
    → client_arguments argv ≡ finish_client r
unfolding client_arguments
client_arguments-read_options argv r enough e =
    rw (le→not_ltb (length argv + 1) 4 (omega arith), e) refl

pub client_arguments-arguments :
    (cs : List Choice) (ip remote local : Bytes)
    → All (IsAccepted false) cs
    → length ip ≤ 18
    → length remote ≤ 254
    → length local ≤ 254
    → client_arguments (arguments cs ++ ip ∷ remote ∷ local ∷ [])
      ≡ ready
          (record { settings = settings_of cs defaults; ip = ip; remote = remote; local = local })
unfolding finish_client client_names
client_arguments-arguments cs ip remote local h i r l =
    client_arguments-read_options (arguments cs ++ ip ∷ remote ∷ local ∷ []) _
      (omega (arith, length-append (arguments cs) (ip ∷ remote ∷ local ∷ [])))
      (read_options-arguments false 3 cs (ip ∷ remote ∷ local ∷ []) defaults h refl)
    ∙ rw (take-eq_self 18 ip i, take-eq_self 254 remote r, take-eq_self 254 local l) refl

-- The client without an argument behind "-p" port and two names takes the third name from the end of
-- `argv`, which is a null pointer.
pub client_arguments_missing :
    (p : ℕ) (ip remote : Bytes)
    → 0 < p
    → p ≤ 65000
    → client_arguments (codes "-p" ∷ print_u p ∷ ip ∷ remote ∷ []) ≡ null_pointer
unfolding finish_client client_names
client_arguments_missing p ip remote pos small =
    client_arguments-read_options (codes "-p" ∷ print_u p ∷ ip ∷ remote ∷ [])
      (ready (
        record { port = p; directory = defaults.directory; verbosity = defaults.verbosity },
        ip ∷ remote ∷ [],
      ))
      (omega arith)
      (port_step false 3 p (ip ∷ remote ∷ []) defaults pos small (omega arith)
        ∙ unfold read_options in refl)

-- The list client takes its first argument for the address, unless more than three follow the name
-- of the program: "-p" itself in a call with a port and an address.
pub list_arguments_port :
    (value ip : Bytes)
    → list_arguments (codes "-p" ∷ value ∷ ip ∷ []) ≡ ready (defaults, codes "-p")
unfolding list_arguments finish_list read_options
list_arguments_port value ip = refl
