-- ===== src/FileTransfer/Arguments/Starts.antt =====
-- What holds of the settings with which a program starts, on every command line.
use iteso_codigos.Common.{◌≡◌, refl, Option, none, some}
use iteso_codigos.FileTransfer.Arguments.{Outcome, ready, helped, refused, null_pointer}

-- The program starts, if it does, with settings of this kind.
unfoldable pub Starts : {A : Type 0} → (A → Type 0) → Outcome A → Type 0
Starts P (ready s) = P s
Starts P (helped s) = P s
Starts P refused = Unit {0}
Starts P null_pointer = Unit {0}

-- An option with its value: it is refused, or the program goes on with the settings that it gives.
pub Starts-option :
    {A B : Type 0} (P : A → Type 0) (Q : B → Type 0) (o : Option A) (next : A → Outcome B)
    → ((a : A) → o ≡ some a → P a)
    → ((a : A) → P a → Starts Q (next a))
    → Starts Q (elim o [ none ↦ refused | some a ↦ next a ])
unfolding Starts
Starts-option P Q none next valid go = tt
Starts-option P Q (some a) next valid go = go a (valid a refl)
