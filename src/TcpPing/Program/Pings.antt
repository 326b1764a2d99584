-- ===== src/TcpPing/Program/Pings.antt =====
-- The client of tcp_ping, and both programs together.
use iteso_codigos.Common.{
  ℕ, zero, suc, ◌+◌, ◌-◌, ◌*◌, ◌^◌, ◌<◌, ◌≡◌, refl, sym, ap, ap₂, ◌∙◌, true, Option, some, List, [],
  ◌∷◌, ◌++◌, append-nil, length, take, take-append, arith,
}
use iteso_codigos.Common.Text.{Bytes}
use iteso_codigos.Common.Run.{done}
use iteso_codigos.Device.{Device, IsLawful, IsReliable}
use iteso_codigos.Netlib.{Network, new_server_socket, new_client_socket}
use iteso_codigos.FileStream.Copy.{Clock}
use iteso_codigos.TcpPing.{ping_listen}
use iteso_codigos.TcpPing.Listen.{ping_listen-text}
use iteso_codigos.TcpPing.Send.{letters, message, send_message, ping_send}
use iteso_codigos.TcpPing.Send.Laws.{
  letters-IsText, length-letters, length-message, send_message-message, ping_send-message,
}
use iteso_codigos.TcpPing.Program.{
  Report, pong, lines_of, elapsed, send_pings, start_client, start_server,
}
use iteso_codigos.TcpPing.Program.Echoes.{Echoes, Accepts, Offers, start_server-Echoes}

-- The lines for messages that all come back.
abbrev pub pongs : Clock → ℕ → ℕ → List Report
pongs clock zero i = []
pongs clock (suc count) i = pong i (elapsed clock i) ∷ pongs clock count (i + 1)

-- The system connects whenever it is asked to.
abbrev pub Connects : Network → Bytes → ℕ → Type 0
Connects N ip port = (n : N.State) → (fd : ℕ) × ((new_client_socket N ip port n).0 ≡ some fd)

-- The state at place i, and each behind it, is as it should be at its place.
abbrev pub Each : {S : Type 0} → (ℕ → S → Type 0) → ℕ → List (Report × S) → Type 0
Each Good i [] = Unit
Each Good i ((line, s) ∷ rest) = Good i s × Each Good (i + 1) rest

module _ (N : Network) (C : Device) (outgoing : ℕ → Option ℕ → C.State) (fuel : ℕ) (clock : Clock)
    (ip : Bytes) (port msg_size : ℕ) where
  ping_step :
      (count i fd : ℕ) (n : N.State) (s : C.State) (rest : List (Report × C.State))
      → (new_client_socket N ip port n).0 ≡ some fd
      → ping_send C fuel msg_size (outgoing i (some fd)) ≡ done (true, s)
      → send_pings N C outgoing fuel clock ip port msg_size count
          (i + 1)
          (new_client_socket N ip port n).1
        ≡ done rest
      → send_pings N C outgoing fuel clock ip port msg_size (suc count) i n
        ≡ done ((pong i (elapsed clock i), s) ∷ rest)
  unfolding send_pings
  ping_step count i fd n s rest connected correct more = rw connected (rw (correct, more) refl)

  -- If each ping is a success and leaves its connection as it should be, all of them do so.
  pub send_pings-pongs :
      (Good : ℕ → C.State → Type 0) (count i : ℕ) (n : N.State)
      → Connects N ip port
      → ((j fd : ℕ)
          → (s : C.State) × (ping_send C fuel msg_size (outgoing j (some fd)) ≡ done (true, s))
            × Good j s)
      → (rs : List (Report × C.State)) × (send_pings N C outgoing fuel clock ip port msg_size count
            i n
          ≡ done rs)
        × (lines_of rs ≡ pongs clock count i)
        × Each Good i rs
  unfolding send_pings
  send_pings-pongs Good zero i n connects correct = ([], refl, refl, tt)
  send_pings-pongs Good (suc count) i n connects correct =
      let (fd, connected) = connects n in
      let (s, back, good) = correct i fd in
      let (rs, run, lines, all) =
        send_pings-pongs Good count (i + 1) (new_client_socket N ip port n).1 connects correct in
      (
        (pong i (elapsed clock i), s) ∷ rs,
        ping_step count i fd n s rs connected back run,
        ap (λ (l : List Report). pong i (elapsed clock i) ∷ l) lines,
        (good, all),
      )

-- What two returns of one run hold.
done_pair : {A B : Type 0} (x y : A × B) → (done x ≡ done y) → (x.0 ≡ y.0) × (x.1 ≡ y.1)
done_pair x y e = (cc e, cc e)

take-length : (b : Bytes) → take (length b) b ≡ b
take-length b = ap (λ (t : Bytes). take (length b) t) (sym (append-nil b)) ∙ take-append b []

module _ (N M : Network) (C : Device) (LC : IsLawful C) (RC : IsReliable C) (S : Device)
    (LS : IsLawful S) (RS : IsReliable S) (outgoing : ℕ → Option ℕ → C.State)
    (incoming : ℕ → Option ℕ → S.State) (fuel : ℕ) (clock : Clock) where
  -- What comes back at the i-th connection of the client is what the server sent on it.
  comes_back :
      (size i fd : ℕ) (text : Bytes)
      → text ++ 0 ∷ [] ≡ message size
      → Offers M S LS RS incoming fuel text i
      → ((fd' m : ℕ) (t : S.State)
          → ping_listen S fuel (incoming i (some fd')) ≡ done (m, t)
          → LC.pending (outgoing i (some fd)) ≡ LS.sent t)
      → LC.pending (outgoing i (some fd)) ≡ message size
  comes_back size i fd text e o arrives =
      let (m, t, served, _, _, sent) =
        ping_listen-text S LS RS fuel text (incoming i (some fd)) o.has_text (o.comes fd) o.enough
          o.fits in
      arrives fd m t served ∙ sent ∙ ap (λ (b : Bytes). b ++ (text ++ 0 ∷ [])) (o.fresh fd) ∙ e

  -- What the loop has sent, when it has sent the zero too.
  all_sent :
      (size i fd k : ℕ) (s1 : C.State)
      → 0 < size
      → size < 2 ^ 31
      → size < fuel
      → k ≡ size
      → LC.sent (outgoing i (some fd)) ≡ []
      → send_message C fuel (message size) (0, outgoing i (some fd)) ≡ done (k, s1)
      → LC.sent s1 ≡ message size
  all_sent size i fd k s1 pos small enough whole fresh sent =
      let (k', s', run, _, delivers, _) =
        send_message-message C LC RC fuel size (outgoing i (some fd)) pos small enough in
      let (same_position, same_state) = done_pair (k', s') (k, s1) (sym run ∙ sent) in
      ap LC.sent (sym same_state)
      ∙ delivers
      ∙ ap₂ (λ (b : Bytes) (j : ℕ). b ++ take j (message size)) fresh
          (same_position ∙ whole ∙ sym (length-message size pos))
      ∙ take-length (message size)

  -- Both programs, for a size from 1 to 2^21 - 1 (KB), with fuel above its number of bytes, over reliable
  -- connections on which nothing was sent before, a system that connects and accepts whenever it is
  -- asked to, and a server that gets its socket. If the loop that sends a message ends with the zero
  -- behind its text sent too, for which it does not wait, and what this loop has sent on a connection
  -- is what comes in at the server, and what the server sends on it is what comes back to the client,
  -- then the client reports every one of its messages as a success, with the time that it took to
  -- connect, and each of its connections has sent the message, and the server has served as many
  -- connections, each of which has sent the message back.
  pub pings_echoed :
      (iface ip : Bytes) (port max_clients server_socket msg_count msg_size : ℕ) (n : N.State)
      (m : M.State)
      → 0 < msg_size
      → msg_size < 2 ^ 21
      → msg_size * 1024 < fuel
      → Connects N ip port
      → Accepts M
      → (new_server_socket M iface port max_clients m).0 ≡ some server_socket
      → ((i fd : ℕ) → LC.sent (outgoing i (some fd)) ≡ [])
      → ((i fd : ℕ) → LS.sent (incoming i (some fd)) ≡ [])
      → ((i fd fd' k : ℕ) (s : C.State)
          → send_message C fuel (message (msg_size * 1024)) (0, outgoing i (some fd)) ≡ done (k, s)
          → (k ≡ msg_size * 1024) × (LS.pending (incoming i (some fd')) ≡ LC.sent s))
      → ((i fd fd' k : ℕ) (t : S.State)
          → ping_listen S fuel (incoming i (some fd')) ≡ done (k, t)
          → LC.pending (outgoing i (some fd)) ≡ LS.sent t)
      → ((rs : List (Report × C.State)) × (start_client N C outgoing fuel clock ip port msg_count
              msg_size n
            ≡ done rs)
          × (lines_of rs ≡ pongs clock msg_count 0)
          × Each (λ i s. LC.sent s ≡ message (msg_size * 1024)) 0 rs)
        × ((ss : List S.State) × (start_server M S incoming fuel iface port max_clients msg_count m
              ≡ done (some ss))
            × (length ss ≡ msg_count)
            × Echoes S LS (λ i. letters 0 (msg_size * 1024 - 1)) 0 ss)
  pings_echoed iface ip port max_clients server_socket msg_count msg_size n m pos small enough
        connects accepts listens unsent fresh goes arrives =
      let size = msg_size * 1024 in
      let some_byte : 0 < size = omega arith in
      let below : size < 2 ^ 31 = omega arith in
      let len = length-letters (size - 1) 0 in
      let comes_in : (i fd : ℕ) → LS.pending (incoming i (some fd)) ≡ message size = λ i fd.
        let (k, s, sent, _, _, _) =
          send_message-message C LC RC fuel size (outgoing i (some fd)) some_byte below enough in
        let (whole, link) = goes i fd fd k s sent in
        link ∙ all_sent size i fd k s some_byte below enough whole (unsent i fd) sent in
      let offers : (i : ℕ) → Offers M S LS RS incoming fuel (letters 0 (size - 1)) i = λ i. record {
        has_text = letters-IsText (size - 1) 0;
        enough = omega (arith, len);
        fits = omega (arith, len);
        comes = comes_in i;
        fresh = fresh i;
      } in
      (
        send_pings-pongs N C outgoing fuel clock ip port msg_size (λ i s. LC.sent s ≡ message size)
            msg_count 0 n connects
            (λ i fd.
              let (s', k, s1, correct, sent, quiet, _) =
                ping_send-message C LC RC fuel msg_size (outgoing i (some fd)) pos small enough
                  (comes_back size i fd (letters 0 (size - 1)) refl (offers i) (arrives i fd)) in
              (
                s',
                correct,
                quiet
                    ∙ all_sent size i fd k s1 some_byte below enough ((goes i fd fd k s1 sent).0)
                        (unsent i fd) sent,
              )),
        start_server-Echoes M S LS RS incoming fuel (λ i. letters 0 (size - 1)) iface port
            max_clients server_socket msg_count m listens accepts offers,
      )
