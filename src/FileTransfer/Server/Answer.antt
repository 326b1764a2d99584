-- ===== src/FileTransfer/Server/Answer.antt =====
-- The answer to one request is the text of the specification.
use iteso_codigos.Common.{
  ℕ, ◌≤◌, ◌<◌, ◌≡◌, refl, ap, Option, none, some, List, [], ◌∷◌, ◌++◌, append_assoc, length,
  length-append, arith, All, Bool-cases, inl, inr,
}
use iteso_codigos.Common.Text.{Bytes, codes}
use iteso_codigos.Libc.Number.{print_u}
use iteso_codigos.Libc.Number.RoundTrip.{length-print_u}
use iteso_codigos.Device.{Device, IsLawful, IsReliable}
use iteso_codigos.FileTransfer.Receive.{crlf}
use iteso_codigos.FileTransfer.Files.{FileSystem, IsFaithful}
use iteso_codigos.FileTransfer.Server.{
  Command, get_file, missing_name, list_files, quit, unknown, no_token, not_found_text, size_text,
  missing_text, unknown_text, no_directory_text, is_hidden, send_file, send_not_found, do_get,
  send_names, do_list, answer,
}
use iteso_codigos.FileTransfer.Server.Spec.{
  listing, header, get_reply, list_reply, reply, FitsGet, FitsList, IsAnswered,
}
use iteso_codigos.FileTransfer.Server.Deliver.{
  Answers, print_into_fits, Answers-done, Answers-bind, send-Answers, copy_file-Answers,
}

pub length-size_text : (n : ℕ) → (0 < length (size_text n)) × (length (size_text n) ≤ 18)
length-size_text n =
    omega (arith, length-append (codes "Size: " ++ print_u n) crlf, length-print_u n)

header_assoc :
    (n : ℕ) (p : Bytes) → header n ++ p ≡ (codes "OK" ++ crlf) ++ (size_text n ++ (crlf ++ p))
header_assoc n p = simp append_assoc

module _ (FS : FileSystem) (F : IsFaithful FS) (D : Device) (L : IsLawful D) (R : IsReliable D)
    (fuel : ℕ) where
  send_file-Answers :
      (f : FS.File.State) (s : D.State)
      → length (header (FS.size f) ++ F.lawful.pending f) < fuel
      → Answers D L s (header (FS.size f) ++ F.lawful.pending f) (send_file FS D fuel f s)
  unfolding send_file
  send_file-Answers f s enough =
      let size = FS.size f in
      let content = F.lawful.pending f in
      let len = length-size_text size in
      let all = ap length (header_assoc size content) in
      let parts = length-append (size_text size) (crlf ++ content) in
      rw (header_assoc size content, print_into_fits 256 (size_text size) (omega (arith, len)))
        (Answers-bind D L s (codes "OK" ++ crlf) (size_text size ++ (crlf ++ content)) _ _
          (send-Answers FS F D L R fuel (codes "OK" ++ crlf) s (omega arith) (omega arith)
            (omega (arith, all, parts)))
          λ s1.
            Answers-bind D L s1 (size_text size) (crlf ++ content) _ _
              (send-Answers FS F D L R fuel (size_text size) s1 (omega (arith, len))
                (omega (arith, len)) (omega (arith, all, parts)))
              λ s2.
                Answers-bind D L s2 crlf content _ _
                  (send-Answers FS F D L R fuel crlf s2 (omega arith) (omega arith)
                    (omega (arith, all, parts)))
                  λ s3.
                    copy_file-Answers FS F D L R fuel fuel f s3 (omega (arith, all, parts))
                      (omega (arith, all, parts)))

  send_not_found-Answers :
      (name : Bytes) (s : D.State)
      → length (not_found_text name) < 256
      → length (not_found_text name) < fuel
      → Answers D L s (not_found_text name) (send_not_found FS D fuel name s)
  unfolding send_not_found
  send_not_found-Answers name s fits enough =
      rw (print_into_fits 256 (not_found_text name) fits)
        (send-Answers FS F D L R fuel (not_found_text name) s (omega arith) (omega arith) enough)

  send_names-Answers :
      (names : List Bytes) (s : D.State)
      → All (λ name. length (name ++ crlf) < 1024) names
      → length (listing names) < fuel
      → Answers D L s (listing names) (send_names FS D fuel names s)
  unfolding send_names listing
  send_names-Answers [] s _ _ = Answers-done D L s
  send_names-Answers (name ∷ names) s (fits, h) enough = elim (Bool-cases (is_hidden name)) [
    | inl hidden ↦ rw hidden (send_names-Answers names s h (rw hidden at enough))
    | inr shown ↦
        let fewer : length ((name ++ crlf) ++ listing names) < fuel = rw shown at enough in
        let line = length-append name crlf in
        let parts = length-append (name ++ crlf) (listing names) in
        rw (shown, print_into_fits 1024 (name ++ crlf) fits)
          (Answers-bind D L s (name ++ crlf) (listing names) _ _
            (send-Answers FS F D L R fuel (name ++ crlf) s (omega (arith, line))
              (omega (arith, fits)) (omega (arith, parts)))
            λ s'. send_names-Answers names s' h (omega (arith, parts)))
  ]

  module _ (base : Bytes) where
    do_get-Answers :
        (name : Bytes) (opened : Option FS.File.State) (s : D.State)
        → FS.open_read (base ++ name) ≡ opened
        → FitsGet FS F base name opened
        → length (get_reply FS F base name opened) < fuel
        → Answers D L s (get_reply FS F base name opened) (do_get FS D fuel base name s)
    unfolding do_get get_reply
    do_get-Answers name none s e fits enough =
        rw (e, do_get) (send_not_found-Answers name s fits enough)
    do_get-Answers name (some f) s e fits enough = rw (e, do_get) (send_file-Answers f s enough)

    do_list-Answers :
        (names : Option (List Bytes)) (s : D.State)
        → FS.entries base ≡ names
        → FitsList FS F base names
        → length (list_reply FS F base names) < fuel
        → Answers D L s (list_reply FS F base names) (do_list FS D fuel base s)
    unfolding do_list list_reply
    do_list-Answers none s e fits enough =
        rw (e, do_list)
          (send-Answers FS F D L R fuel no_directory_text s (omega arith) (omega arith) enough)
    do_list-Answers (some names) s e fits enough =
        let parts = length-append (listing names) crlf in
        rw (e, do_list)
          (Answers-bind D L s (listing names) crlf _ _
            (send_names-Answers names s fits (omega (arith, parts)))
            λ s'.
              send-Answers FS F D L R fuel crlf s' (omega arith) (omega arith)
                (omega (arith, parts)))

    -- Over reliable devices, where the texts fit their buffers and the fuel: every request but QUIT
    -- and one without a token is answered by its reply, and by nothing else: a file whole behind its
    -- size, a missing file, a listing, a wrong request.
    pub answer-Answers :
        (c : Command) (s : D.State)
        → IsAnswered FS F base c
        → length (reply FS F base c) < fuel
        → Answers D L s (reply FS F base c) (answer FS D fuel base c s)
    unfolding answer reply
    answer-Answers (get_file name) s fits enough = do_get-Answers name _ s refl fits enough
    answer-Answers missing_name s _ enough =
        send-Answers FS F D L R fuel missing_text s (omega arith) (omega arith) enough
    answer-Answers list_files s fits enough = do_list-Answers _ s refl fits enough
    answer-Answers unknown s _ enough =
        send-Answers FS F D L R fuel unknown_text s (omega arith) (omega arith) enough
    answer-Answers quit s never enough = absurd never
    answer-Answers no_token s never enough = absurd never
