-- ===== src/UdpFileTransfer/Memory.antt =====
-- A socket for datagrams in memory, on which the witnesses run.
use iteso_codigos.Common.{refl, Option, none, some, List, [], ◌∷◌, ◌++◌, length}
use iteso_codigos.Common.Text.{Bytes}
use iteso_codigos.Device.{Device}
use iteso_codigos.UdpFileTransfer.Copy.{IsUdp}

pub record Mailbox : Type 0 where
  pub arriving : List Bytes
  pub departed : List Bytes

abbrev next_datagram : List Bytes → Option Bytes
next_datagram [] = none
next_datagram (m ∷ ms) = some m

abbrev later_datagrams : List Bytes → List Bytes
later_datagrams [] = []
later_datagrams (m ∷ ms) = ms

abbrev pub datagrams : Device
datagrams = record {
  State = Mailbox;
  read = λ s n. (next_datagram s.arriving, record s { arriving = later_datagrams s.arriving });
  write = λ s b. (some (length b), record s { departed = s.departed ++ b ∷ [] });
}

abbrev pub datagrams-IsUdp : IsUdp datagrams
datagrams-IsUdp = record {
  incoming = λ s. s.arriving;
  outgoing = λ s. s.departed;
  read-datagram = λ s n m ms e fits. rw e (refl, refl);
  read_keeps-outgoing = λ s n. refl;
  write-datagram = λ s b some_byte. (refl, refl);
  write_keeps-incoming = λ s b. refl;
}
