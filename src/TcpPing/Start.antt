-- ===== src/TcpPing/Start.antt =====
-- `start` of tcp_ping/tcp_ping.c: the command line, and then the server or the client.
use iteso_codigos.Common.{
  ℕ, ◌*◌, ◌^◌, ◌<◌, ◌≡◌, refl, sym, ap, ◌∙◌, Option, none, some, List, length,
}
use iteso_codigos.Common.Text.{Bytes, codes}
use iteso_codigos.Common.Run.{Run, done, fault, ◌>>=◌}
use iteso_codigos.Device.{Device, IsLawful, IsReliable}
use iteso_codigos.Libc.Array.{array_string, array_string-done}
use iteso_codigos.Netlib.{Network}
use iteso_codigos.FileStream.Copy.{Clock}
use iteso_codigos.FileTransfer.Arguments.{Outcome, ready, helped, refused, null_pointer}
use iteso_codigos.FileTransfer.Arguments.Starts.{Starts}
use iteso_codigos.TcpPing.Send.{message}
use iteso_codigos.TcpPing.Send.Laws.{ping_send-message}
use iteso_codigos.TcpPing.Arguments.{Settings, Mode, server, client, process_arguments}
use iteso_codigos.TcpPing.Arguments.Bounds.{IsInRange, process_arguments-IsInRange}
use iteso_codigos.TcpPing.Program.{Report, lines_of, start_client, start_server}
use iteso_codigos.TcpPing.Program.Pings.{pongs, Connects, send_pings-pongs}

-- The return of -1, or what the server or the client did before the return of 0.
pub data Ending (S : Type 0) : Type 0 where
  not_started : Ending S
  served : Option (List S) → Ending S
  pinged : List Report → Ending S

carry :
    (x y : Option Mode × Outcome Settings) → x ≡ y → Starts IsInRange (x.1) → Starts IsInRange (y.1)
carry x y e h = rw (sym e) h

-- Settings with which the program starts are in range.
in_range :
    (argv : List Bytes) (s : Settings)
    → process_arguments argv ≡ (some client, ready s)
    → IsInRange s
unfolding Starts
in_range argv s e =
    carry (process_arguments argv) (some client, ready s) e (process_arguments-IsInRange argv)

module _ (N : Network) (D : Device) (connection : ℕ → Option ℕ → D.State) (fuel : ℕ) (clock : Clock)
    (rounds : ℕ) where
  -- The server listens on CONFIG_LISENT_IFACE with CONFIG_MAX_CLIENT.
  unfoldable pub run_mode : Option Mode → Settings → N.State → Run (Ending D.State)
  run_mode none s n = done not_started
  run_mode (some server) s n = do
    r ← start_server N D connection fuel (codes "0.0.0.0") s.port 5 rounds n
    done (served r)
  run_mode (some client) s n = do
    ip ← array_string 18 s.target
    r ← start_client N D connection fuel clock ip s.port s.count s.size n
    done (pinged (lines_of r))

  -- Also after -h, processArguments returns true.
  unfoldable pub started : Option Mode × Outcome Settings → N.State → Run (Ending D.State)
  started (mode, ready s) n = run_mode mode s n
  started (mode, helped s) n = run_mode mode s n
  started (mode, refused) n = done not_started
  started (mode, null_pointer) n = fault

  unfoldable pub start : List Bytes → N.State → Run (Ending D.State)
  start argv n = started (process_arguments argv) n

  start_steps :
      (argv : List Bytes) (s : Settings) (n : N.State) (r : List (Report × D.State))
      → process_arguments argv ≡ (some client, ready s)
      → length s.target < 18
      → start_client N D connection fuel clock s.target s.port s.count s.size n ≡ done r
      → start argv n ≡ done (pinged (lines_of r))
  unfolding start started run_mode
  start_steps argv s n r e short run = rw e (rw (array_string-done 18 s.target short) (rw run refl))

module _ (N : Network) (C : Device) (LC : IsLawful C) (RC : IsReliable C)
    (outgoing : ℕ → Option ℕ → C.State) (fuel : ℕ) (clock : Clock) (rounds : ℕ) where
  -- Arguments that tcp_ping takes for a client, with an address shorter than its array of 18 bytes,
  -- messages below 2^21 KB and fuel above their number of bytes, over reliable connections to a system that connects whenever it is asked to: if
  -- the message comes back on each connection, the program ends and has reported as many successes
  -- as were asked for, at least one.
  pub start-pongs :
      (argv : List Bytes) (s : Settings) (n : N.State)
      → process_arguments argv ≡ (some client, ready s)
      → length s.target < 18
      → s.size < 2 ^ 21
      → s.size * 1024 < fuel
      → Connects N s.target s.port
      → ((i fd : ℕ) → LC.pending (outgoing i (some fd)) ≡ message (s.size * 1024))
      → (start N C outgoing fuel clock rounds argv n ≡ done (pinged (pongs clock s.count 0)))
        × (0 < s.count)
  start-pongs argv s n e short small enough connects comes =
      let range = in_range argv s e in
      let (some_message, _) = range.some_message in
      let (some_byte, _) = range.some_byte in
      let (rs, run, lines, _) =
        send_pings-pongs N C outgoing fuel clock s.target s.port s.size (λ i c. Unit) s.count 0 n
          connects
          (λ i fd.
            let (c, _, _, correct, _, _, _) =
              ping_send-message C LC RC fuel s.size (outgoing i (some fd)) some_byte small enough
                (comes i fd) in
            (c, correct, tt)) in
      (
        start_steps N C outgoing fuel clock rounds argv s n rs e short run
            ∙ ap (λ (l : List Report). done (pinged l)) lines,
        some_message,
      )
