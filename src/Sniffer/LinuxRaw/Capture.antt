-- ===== src/Sniffer/LinuxRaw/Capture.antt =====
-- `main` of Sniffer/linux_raw/main.c: the loop that receives packets into one buffer. The socket is a
-- `Device` whose `read` is `recvfrom`.
pub mod Reports
use iteso_codigos.Common.{ℕ, zero, suc, Option, none, some, List, [], ◌∷◌, ◌++◌, length, drop}
use iteso_codigos.Common.Text.{Bytes}
use iteso_codigos.Common.Run.{Run, done, fault, unfinished, ◌>>=◌}
use iteso_codigos.Device.{Device}
use iteso_codigos.Sniffer.Headers.{Report}
use iteso_codigos.Sniffer.LinuxRaw.{process_packet}

-- BUFFER_SIZE
abbrev pub buffer_size : ℕ
buffer_size = 65536

module _ (D : Device) where
  -- A packet overwrites the start of the buffer, and what was there before stays behind it. A decoder or
  -- a dump that leaves the buffer is a fault.
  unfoldable pub receive_packets : ℕ → Bytes → D.State → Run (List Report)
  receive_packets zero buffer s = unfinished
  receive_packets (suc rounds) buffer s =
      let (answer, s') = D.read s buffer_size in
      elim answer [
        | none ↦ done []
        | some b ↦
            let buffer' = b ++ drop (length b) buffer in
            elim (process_packet buffer' (length b)) [
              | none ↦ fault
              | some report ↦ do rest ← receive_packets rounds buffer' s'; done (report ∷ rest)
            ]
      ]

  -- The arguments behind the name of the program: `strlen` follows argv[1] before anything is tested.
  -- `none` is the return of -1, and otherwise the program ends at an error of `recvfrom`. `memory` is
  -- what the block from malloc holds.
  unfoldable pub capture : ℕ → Bytes → List Bytes → Option D.State → Run (Option (List Report))
  capture rounds memory [] socket = fault
  capture rounds memory (interface ∷ args) none = done none
  capture rounds memory (interface ∷ args) (some s) = do
    reports ← receive_packets rounds memory s
    done (some reports)
