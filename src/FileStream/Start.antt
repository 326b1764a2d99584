-- ===== src/FileStream/Start.antt =====
-- `start` of file_transfer/file_transfer.c: the command line, and then the receiver or the sender.
pub mod Arrives
use iteso_codigos.Common.{ℕ, Bool, Option, none, some, List}
use iteso_codigos.Common.Text.{Bytes, codes}
use iteso_codigos.Common.Run.{Run, done, fault, ◌>>=◌}
use iteso_codigos.Device.{Device}
use iteso_codigos.Netlib.{Network}
use iteso_codigos.FileTransfer.Arguments.{Outcome, ready, helped, refused, null_pointer}
use iteso_codigos.FileStream.Copy.{Clock}
use iteso_codigos.FileStream.Arguments.{Settings, Mode, server, client, process_arguments}
use iteso_codigos.FileStream.Program.{start_server, start_client}

-- The return of -1, or what the receiver or the sender gave before the return of 0. Its result is not
-- used.
pub data Ending (F D W : Type 0) : Type 0 where
  not_started : Ending F D W
  received : Bool × Option (D × W) → Ending F D W
  transmitted : Bool × Option (F × D) → Ending F D W

module _ (N : Network) (F D W : Device) (connection : Option ℕ → D.State)
    (open_read : Bytes → Option F.State) (create : Bytes → Option W.State) (clock : Clock)
    (stale fuel : ℕ) where
  -- The receiver listens on CONFIG_LISENT_IFACE with CONFIG_MAX_CLIENT.
  unfoldable pub run_mode : Option Mode → Settings → N.State → Run (Ending F.State D.State W.State)
  run_mode none s n = done not_started
  run_mode (some server) s n = do
    r ← start_server N D W connection create fuel (codes "0.0.0.0") s.port 5 s.filename n
    done (received r)
  run_mode (some client) s n = do
    r ← start_client N F D connection open_read clock stale fuel s.target s.port s.filename n
    done (transmitted r)

  -- Also after -h, processArguments returns true.
  unfoldable pub started :
      Option Mode × Outcome Settings → N.State → Run (Ending F.State D.State W.State)
  started (mode, ready s) n = run_mode mode s n
  started (mode, helped s) n = run_mode mode s n
  started (mode, refused) n = done not_started
  started (mode, null_pointer) n = fault

  unfoldable pub start : List Bytes → N.State → Run (Ending F.State D.State W.State)
  start argv n = started (process_arguments argv) n
