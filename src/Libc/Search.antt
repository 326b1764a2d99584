-- ===== src/Libc/Search.antt =====
-- `strtok`, `strsep` and `strstr`, and the string in a buffer. A null pointer is `none`.
use iteso_codigos.Common.{
  ℕ, ◌≡◌, refl, ◌≢◌, Bool, true, false, ◌||◌, Option, none, some, [], ◌∷◌, ◌++◌, if◌then◌else◌,
  ◌==◌, arith, All,
}
use iteso_codigos.Common.Text.{Bytes}

-- " \t\b"
abbrev pub is_blank : ℕ → Bool
is_blank c = c == b' ' || c == 9 || c == 8

-- The text up to the first blank, and what stands behind that blank.
unfoldable pub span : Bytes → Bytes × Bytes
span [] = ([], [])
span (c ∷ s) = let (t, r) = span s in if is_blank c then ([], s) else (c ∷ t, r)

-- strtok(s, " \t\b"): the first token, and the place where the next call goes on.
unfoldable pub strtok : Bytes → Option (Bytes × Bytes)
unfolding span
strtok [] = none
strtok (c ∷ s) = if is_blank c then strtok s else some (span (c ∷ s))

-- strtok with one separator: the text up to the first one, and what stands behind it.
unfoldable pub span_at : ℕ → Bytes → Bytes × Bytes
span_at sep [] = ([], [])
span_at sep (c ∷ s) = let (t, r) = span_at sep s in if c == sep then ([], s) else (c ∷ t, r)

unfoldable pub strtok_at : ℕ → Bytes → Option (Bytes × Bytes)
unfolding span_at
strtok_at sep [] = none
strtok_at sep (c ∷ s) = if c == sep then strtok_at sep s else some (span_at sep (c ∷ s))

-- The string in a buffer that holds a block and zeros behind it.
unfoldable pub string_of : Bytes → Bytes
string_of [] = []
string_of (c ∷ b) = let rest = string_of b in if c == 0 then [] else c ∷ rest

-- strsep(&s, "\r"): the text up to the separator, and the rest of the string, if there is one.
unfoldable pub strsep : ℕ → Bytes → Bytes × Option Bytes
strsep sep [] = ([], none)
strsep sep (c ∷ s) = let (t, r) = strsep sep s in if c == sep then ([], some s) else (c ∷ t, r)

abbrev pub starts_with : Bytes → Bytes → Bool
starts_with s [] = true
starts_with [] (d ∷ t) = false
starts_with (c ∷ s) (d ∷ t) = if c == d then starts_with s t else false

-- strstr(s, needle): the rest of `s` from the first place where `needle` stands.
unfoldable pub strstr : Bytes → Bytes → Option Bytes
strstr [] needle = if starts_with [] needle then some [] else none
strstr (c ∷ s) needle = if starts_with (c ∷ s) needle then some (c ∷ s) else strstr s needle

abbrev pub IsToken : ℕ → Type 0
IsToken c = is_blank c ≡ false

span-append : (t r : Bytes) (b : ℕ) → All IsToken t → is_blank b ≡ true → span (t ++ b ∷ r) ≡ (t, r)
unfolding span
span-append [] r b _ h = ground (arith)
span-append (c ∷ t) r b (p, hs) h = ground (arith, span-append t r b hs h)

span-token : (t : Bytes) → All IsToken t → span t ≡ (t, [])
unfolding span
span-token [] _ = refl
span-token (c ∷ t) (p, hs) = ground (arith, span-token t hs)

-- A token in front of a blank is cut off there,
pub strtok-append :
    (t r : Bytes) (b : ℕ)
    → t ≢ []
    → All IsToken t
    → is_blank b ≡ true
    → strtok (t ++ b ∷ r) ≡ some (t, r)
unfolding strtok
strtok-append [] r b ne _ h = absurd (ne refl)
strtok-append (c ∷ t) r b ne (p, hs) h = ground (arith, span-append (c ∷ t) r b (p, hs) h)

-- and a last token is the rest of the text.
pub strtok-token : (t : Bytes) → t ≢ [] → All IsToken t → strtok t ≡ some (t, [])
unfolding strtok
strtok-token [] ne _ = absurd (ne refl)
strtok-token (c ∷ t) ne (p, hs) = ground (arith, span-token (c ∷ t) (p, hs))

pub strsep-append :
    (sep : ℕ) (t r : Bytes) → All (λ c. c ≢ sep) t → strsep sep (t ++ sep ∷ r) ≡ (t, some r)
unfolding strsep
strsep-append sep [] r _ = ground arith
strsep-append sep (c ∷ t) r (p, hs) = ground (arith, strsep-append sep t r hs)

pub strsep_whole : (sep : ℕ) (t : Bytes) → All (λ c. c ≢ sep) t → strsep sep t ≡ (t, none)
unfolding strsep
strsep_whole sep [] _ = refl
strsep_whole sep (c ∷ t) (p, hs) = ground (arith, strsep_whole sep t hs)

-- A text without a zero byte is its own string.
pub string_of-text : (b : Bytes) → All (λ c. c ≢ 0) b → string_of b ≡ b
unfolding string_of
string_of-text [] h = refl
string_of-text (c ∷ b) (k, h) = ground (arith, string_of-text b h)

span_at-append :
    (sep : ℕ) (t r : Bytes) → All (λ c. c ≢ sep) t → span_at sep (t ++ sep ∷ r) ≡ (t, r)
unfolding span_at
span_at-append sep [] r _ = ground (arith)
span_at-append sep (c ∷ t) r (p, hs) = ground (arith, span_at-append sep t r hs)

span_at-end : (sep : ℕ) (t : Bytes) → All (λ c. c ≢ sep) t → span_at sep t ≡ (t, [])
unfolding span_at
span_at-end sep [] _ = refl
span_at-end sep (c ∷ t) (p, hs) = ground (arith, span_at-end sep t hs)

-- A token in front of a separator is cut off there,
pub strtok_at-append :
    (sep : ℕ) (t r : Bytes)
    → t ≢ []
    → All (λ c. c ≢ sep) t
    → strtok_at sep (t ++ sep ∷ r) ≡ some (t, r)
unfolding strtok_at
strtok_at-append sep [] r some_byte _ = absurd (some_byte refl)
strtok_at-append sep (c ∷ t) r some_byte (p, hs) =
    ground (arith, span_at-append sep (c ∷ t) r (p, hs))

-- and a text without one is a token.
pub strtok_at-end :
    (sep : ℕ) (t : Bytes) → t ≢ [] → All (λ c. c ≢ sep) t → strtok_at sep t ≡ some (t, [])
unfolding strtok_at
strtok_at-end sep [] some_byte _ = absurd (some_byte refl)
strtok_at-end sep (c ∷ t) some_byte (p, hs) = ground (arith, span_at-end sep (c ∷ t) (p, hs))
