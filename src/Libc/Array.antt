-- ===== src/Libc/Array.antt =====
-- Arrays of bytes that are read as strings.
use iteso_codigos.Common.{ℕ, ◌<◌, ◌≡◌, refl, if◌then◌else◌, ◌==◌, ==_ne, length, arith}
use iteso_codigos.Common.Text.{Bytes}
use iteso_codigos.Common.Run.{Run, done, fault}

-- The string in an array of `room` bytes that holds this text in front of its first zero. When the text
-- fills the array there is none, and reading the string leaves the array.
unfoldable pub array_string : ℕ → Bytes → Run Bytes
array_string room text = if length text == room then fault else done text

pub array_string-done :
    (room : ℕ) (text : Bytes) → length text < room → array_string room text ≡ done text
unfolding array_string
array_string-done room text short =
    rw (==_ne (length text) room (λ z. omega (arith, z, short))) refl
