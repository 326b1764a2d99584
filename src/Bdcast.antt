-- ===== src/Bdcast.antt =====
-- bdcast/listen.c, which prints the datagrams that come in. The socket is a device whose `read` is
-- `recvfrom`.
pub mod Heard
mod Tests
use iteso_codigos.Common.{ℕ, zero, suc, Option, none, some, List, [], ◌∷◌}
use iteso_codigos.Common.Text.{Bytes}
use iteso_codigos.Common.Run.{Run, done, ◌>>=◌}
use iteso_codigos.Device.{Device}
use iteso_codigos.UdpFileTransfer.{receive_string}

module _ (D : Device) where
  -- The texts that the first rounds of the loop print; the loop does not end.
  unfoldable pub print_texts : ℕ → D.State → Run (List Bytes)
  print_texts zero s = done []
  print_texts (suc rounds) s = do
    r ← receive_string D s
    rest ← print_texts rounds (r.1)
    done (r.0 ∷ rest)

  -- `opened` is the socket behind `bind`, whose result is not used. `none` is `return 1`.
  unfoldable pub listen : ℕ → Option D.State → Run (Option (List Bytes))
  listen rounds none = done none
  listen rounds (some s) = do texts ← print_texts rounds s; done (some texts)
