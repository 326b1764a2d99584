-- ===== src/FileTransfer/Client/Reading.antt =====
-- What the client takes the answers of the server for.
use iteso_codigos.Common.{
  ℕ, ◌%◌, ◌^◌, ◌≡◌, ◌≢◌, refl, sym, ap, ◌∙◌, false, Bool-cases, [], ◌∷◌, ◌++◌, append_assoc,
  length-append, length, arith, All, All-append, inl, inr,
}
use iteso_codigos.Common.Text.{Bytes, codes, same, same→eq}
use iteso_codigos.Libc.Search.{strsep, strsep-append, strsep_whole, strstr}
use iteso_codigos.Libc.Number.{print_u}
use iteso_codigos.Libc.Number.RoundTrip.{strtol-print_u}
use iteso_codigos.FileTransfer.Receive.{cr, lf, crlf}
use iteso_codigos.FileTransfer.Receive.Pattern.{last_byte, last_byte-append}
use iteso_codigos.FileTransfer.Client.{
  unknown_answer, file_size, size_field, ok_answer, line_answer, parse_answer,
}

-- The lines of the server's answer to GET, as the client has them without the empty line.
abbrev pub ok_lines : ℕ → Bytes
ok_lines n = codes "OK" ++ (crlf ++ (codes "Size: " ++ print_u n))

-- The client reads the size that the server printed, modulo 2^32.
pub parse_answer-ok_lines : (n : ℕ) → parse_answer (ok_lines n) ≡ file_size (n % 2 ^ 32)
unfolding parse_answer line_answer ok_answer size_field strsep strstr same
parse_answer-ok_lines n = rw (strtol-print_u n) (ground arith)

-- The answer for a missing file is taken for an unknown one, for any name without a carriage return.
pub parse_answer_not_found :
    (name : Bytes)
    → All (λ c. c ≢ cr) name
    → parse_answer (codes "NOT_FOUND " ++ name) ≡ unknown_answer
unfolding parse_answer line_answer same
parse_answer_not_found name h = rw (
    strsep_whole cr (codes "NOT_FOUND " ++ name)
      (All-append (λ c. c ≢ cr) (codes "NOT_FOUND ") name (omega arith) h))

not_same : (s t : Bytes) → s ≢ t → same s t ≡ false
not_same s t other = elim (Bool-cases (same s t)) [
  | inl e ↦ absurd (other (same→eq s t e))
  | inr e ↦ e
]

stale-ne-not_found : (stale : Bytes) → stale ++ codes "OK" ≢ codes "NOT_FOUND"
unfolding last_byte
stale-ne-not_found stale e =
    let ends : last_byte (codes "OK") ≡ last_byte (codes "NOT_FOUND") =
      sym (last_byte-append stale (codes "OK") (cc)) ∙ ap last_byte e in
    absurd (omega (arith, ends))

stale-ne-ok : (stale : Bytes) → stale ≢ [] → stale ++ codes "OK" ≢ codes "OK"
stale-ne-ok [] some_byte e = absurd (some_byte refl)
stale-ne-ok (c ∷ stale) some_byte e =
    absurd (omega (arith, ap length e, length-append (c ∷ stale) (codes "OK")))

-- Bytes that a block holds in front of the answer, if they have no carriage return, make the answer
-- with a file an unknown one.
pub parse_answer_stale :
    (stale : Bytes) (n : ℕ)
    → stale ≢ []
    → All (λ c. c ≢ cr) stale
    → parse_answer (stale ++ ok_lines n) ≡ unknown_answer
unfolding parse_answer line_answer
parse_answer_stale stale n some_byte h =
    let rest = lf ∷ (codes "Size: " ++ print_u n) in
    rw (
      ← append_assoc stale (codes "OK") (cr ∷ rest),
      strsep-append cr (stale ++ codes "OK") rest
          (All-append (λ c. c ≢ cr) stale (codes "OK") h (omega arith)),
      not_same _ _ (stale-ne-not_found stale),
      not_same _ _ (stale-ne-ok stale some_byte),
    )
