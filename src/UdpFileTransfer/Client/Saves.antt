-- ===== src/UdpFileTransfer/Client/Saves.antt =====
-- The whole run of the UDP client.
use iteso_codigos.Common.{
  ℕ, ◌+◌, ◌%◌, ◌^◌, ◌≤◌, ◌<◌, ◌≡◌, ◌≢◌, refl, ap, ◌∙◌, true, Option, some, List, [], ◌∷◌, ◌++◌,
  lt→ltb, append_assoc, length, length-append, All, All-append, arith,
}
use iteso_codigos.Common.Text.{Bytes, codes, concat, same, same_refl}
use iteso_codigos.Common.Run.{Run, done}
use iteso_codigos.Device.{Device, IsLawful, IsReliable}
use iteso_codigos.Libc.Number.{print_u, IsDigit}
use iteso_codigos.Libc.Number.RoundTrip.{strtol-print_u_then, print_u-All, length-print_u}
use iteso_codigos.Libc.Search.{strtok_at, strtok_at-append, strtok_at-end}
use iteso_codigos.UdpFileTransfer.{print_i, ready_text, ok_text, bye_text, receive_string}
use iteso_codigos.UdpFileTransfer.Pieces.{Cut}
use iteso_codigos.UdpFileTransfer.Copy.{IsUdp}
use iteso_codigos.UdpFileTransfer.Answer.{receive_string-datagram}
use iteso_codigos.UdpFileTransfer.Client.{
  int_zero, atoi, Exit, saved, receive_file, save_file, read_size, read_answer, main,
}
use iteso_codigos.UdpFileTransfer.Client.First.{receive_file-Keeps}

print_i_small : (n : ℕ) → n < 2 ^ 31 → print_i n ≡ print_u n
unfolding print_i
print_i_small n small = rw (lt→ltb (n % 2 ^ 32) (2 ^ 31) (omega arith)) refl

atoi-print_i : (n : ℕ) → n < 2 ^ 31 → atoi (print_i n ++ codes "\r\n") ≡ int_zero + n
unfolding atoi
atoi-print_i n small =
    rw (print_i_small n small, strtol-print_u_then n 13 (10 ∷ []) refl) (omega arith)

digits_are : (P : ℕ → Type 0) (b : Bytes) → ((c : ℕ) → IsDigit c → P c) → All IsDigit b → All P b
digits_are P [] h _ = tt
digits_are P (c ∷ b) h (d, ds) = (h c d, digits_are P b h ds)

-- No byte of the printed size and of its line end is this one.
size_text_without :
    (x n : ℕ)
    → ((c : ℕ) → IsDigit c → c ≢ x)
    → 13 ≢ x
    → 10 ≢ x
    → n < 2 ^ 31
    → All (λ c. c ≢ x) (print_i n ++ codes "\r\n")
size_text_without x n digit cr lf small = rw (print_i_small n small) (
    All-append (λ c. c ≢ x) (print_u n) _
      (digits_are (λ c. c ≢ x) (print_u n) digit (print_u-All n)) (cr, (lf, tt)))

size_text-ne-nil : (n : ℕ) → print_i n ++ codes "\r\n" ≢ []
size_text-ne-nil n e = omega (arith, ap length e, length-append (print_i n) (codes "\r\n"))

ready_text-IsText : (n : ℕ) → n < 2 ^ 31 → All (λ c. c ≢ 0) (ready_text n)
ready_text-IsText n small =
    All-append (λ c. c ≢ 0) (codes "READY ") _ (omega arith)
      (size_text_without 0 n (λ c d. omega arith) (omega arith) (omega arith) small)

length-ready_text : (n : ℕ) → n < 2 ^ 31 → length (ready_text n) < 255
length-ready_text n small =
    rw (print_i_small n small)
      (omega (arith, length-append (print_u n) (codes "\r\n"), length-print_u n))

module _ (D : Device) (U : IsUdp D) (W : Device) (fuel : ℕ) where
  read_size_token :
      (stale : ℕ) (text token rest : Bytes) (s : D.State) (w : W.State)
      → strtok_at b' ' text ≡ some (token, rest)
      → read_size D W fuel stale (some w) text s ≡ save_file D W fuel stale (atoi token) s w
  unfolding read_size
  read_size_token stale text token rest s w e = rw (e, read_size) refl

  read_answer_token :
      (stale : ℕ) (text token rest : Bytes) (s : D.State) (local : Option W.State)
      → strtok_at b' ' text ≡ some (token, rest)
      → same token (codes "READY") ≡ true
      → read_answer D W fuel stale local text s ≡ read_size D W fuel stale local rest s
  unfolding read_answer
  read_answer_token stale text token rest s local e ready = rw (e, read_answer) (rw ready refl)

  read_answer_steps :
      (stale n : ℕ) (s : D.State) (w : W.State)
      → n < 2 ^ 31
      → read_answer D W fuel stale (some w) (ready_text n) s
        ≡ save_file D W fuel stale (int_zero + n) s w
  read_answer_steps stale n s w small =
      let size = print_i n ++ codes "\r\n" in
      read_answer_token stale (ready_text n) (codes "READY") size s (some w)
        (strtok_at-append b' ' (codes "READY") size (λ z. cc) (omega arith))
        (same_refl (codes "READY"))
      ∙ read_size_token stale size size [] s w (
          strtok_at-end b' ' size (size_text-ne-nil n)
            (size_text_without b' ' n (λ c d. omega arith) (omega arith) (omega arith) small))
      ∙ ap (λ (k : ℕ). save_file D W fuel stale k s w) (atoi-print_i n small)

  save_file_steps :
      (stale size : ℕ) (text : Bytes) (s s1 s2 : D.State) (w w1 : W.State)
      → receive_file D W fuel fuel size int_zero stale (D.write s ok_text).1 w ≡ done (s1, w1)
      → receive_string D s1 ≡ done (text, s2)
      → save_file D W fuel stale size s w ≡ done (saved s2 w1)
  unfolding save_file
  save_file_steps stale size text s s1 s2 w w1 got bye = rw got (rw bye refl)

  main_steps :
      (create : Bytes → Option W.State) (stale n : ℕ) (name local : Bytes) (args : List Bytes)
      (s s1 : D.State) (w : W.State) (r : Run (Exit D.State W.State))
      → n < 2 ^ 31
      → receive_string D (D.write s name).1 ≡ done (ready_text n, s1)
      → create local ≡ some w
      → save_file D W fuel stale (int_zero + n) s1 w ≡ r
      → main D W fuel create stale (name ∷ local ∷ args) (some s) ≡ r
  unfolding main
  main_steps create stale n name local args s s1 w r small told opened saves =
      rw told (rw opened (read_answer_steps stale n s1 w small ∙ saves))

module _ (D : Device) (U : IsUdp D) (W : Device) (LW : IsLawful W) (RW : IsReliable W)
    (fuel : ℕ) where
  -- The client ended, with its name and OK sent and these bytes written to the file.
  pub record Fetched (s : D.State) (w : W.State) (name content : Bytes) (rest : List Bytes)
      (result : Run (Exit D.State W.State)) : Type 0 where
    pub socket : D.State
    pub file : W.State
    pub returns : result ≡ done (saved socket file)
    pub saves : LW.sent file ≡ LW.sent w ++ content
    pub asks : U.outgoing socket ≡ U.outgoing s ++ name ∷ ok_text ∷ []
    pub leaves : U.incoming socket ≡ rest

  -- Over a socket that loses no datagram and a reliable file, when writeBytes happens to be 0: if the
  -- server answers with READY and a size, the pieces of the file, and BYE, then the client ends and has
  -- asked for the name and sent OK, but has written the first piece only.
  pub main-Fetched :
      (create : Bytes → Option W.State) (n : ℕ) (name local b : Bytes) (bs args rest : List Bytes)
      (s : D.State) (w : W.State)
      → U.incoming s ≡ ready_text n ∷ b ∷ (bs ++ bye_text ∷ rest)
      → name ≢ []
      → create local ≡ some w
      → 0 < length b
      → length b ≤ 10240
      → Cut (length b) bs
      → n ≡ length (concat (b ∷ bs))
      → n + length b < 2 ^ 31
      → length bs + 1 < fuel
      → length b < fuel
      → Fetched s w name b rest (main D W fuel create int_zero (name ∷ local ∷ args) (some s))
  main-Fetched create n name local b bs args rest s w comes named opened some_byte fits cut whole
        range enough large =
      let s0 = (D.write s name).1 in
      let s1 = (D.read s0 255).1 in
      let s2 = (D.write s1 ok_text).1 in
      let (_, asked) = U.write-datagram s name named in
      let (_, agreed) = U.write-datagram s1 ok_text (λ z. cc) in
      let comes0 : U.incoming s0 ≡ ready_text n ∷ b ∷ (bs ++ bye_text ∷ rest) =
        U.write_keeps-incoming s name ∙ comes in
      let (_, left) =
        U.read-datagram s0 255 (ready_text n) (b ∷ (bs ++ bye_text ∷ rest)) comes0
          (omega (arith, length-ready_text n (omega arith))) in
      let kept =
        receive_file-Keeps D U W LW RW fuel b bs (bye_text ∷ rest) fuel n s2 w
          (U.write_keeps-incoming s1 ok_text ∙ left) some_byte fits cut whole range enough large in
      let (_, over) = U.read-datagram kept.socket 255 bye_text rest kept.leaves (omega arith) in
      record {
        socket = (D.read kept.socket 255).1;
        file = kept.file;
        returns =
            main_steps D U W fuel create int_zero n name local args s s1 w _ (omega arith)
              (receive_string-datagram D U (ready_text n) (b ∷ (bs ++ bye_text ∷ rest)) s0 comes0
                (ready_text-IsText n (omega arith)) (length-ready_text n (omega arith)))
              opened
              (save_file_steps D U W fuel int_zero (int_zero + n) bye_text s1 kept.socket
                (D.read kept.socket 255).1 w kept.file kept.returns
                (receive_string-datagram D U bye_text rest kept.socket kept.leaves (omega arith)
                  (omega arith)));
        saves = kept.saves;
        asks =
            U.read_keeps-outgoing kept.socket 255
            ∙ kept.sends_nothing
            ∙ agreed
            ∙ ap (λ (x : List Bytes). x ++ ok_text ∷ []) (U.read_keeps-outgoing s0 255 ∙ asked)
            ∙ append_assoc (U.outgoing s) (name ∷ []) (ok_text ∷ []);
        leaves = over;
      }
