-- ===== src/SimpleSocket/Memory.antt =====
-- A peer and a system in memory, on which the witnesses run.
use iteso_codigos.Common.{
  ℕ, suc, refl, true, false, Option, none, some, List, [], ◌∷◌, ◌++◌, if◌then◌else◌, ltb, length,
}
use iteso_codigos.Common.Text.{Bytes}
use iteso_codigos.Device.{Device}
use iteso_codigos.Netlib.{Network}
use iteso_codigos.SimpleSocket.EchoServer.Session.{IsLockstep}

pub record Talker : Type 0 where
  pub to_say : List Bytes
  pub heard : Bytes

abbrev next_message : List Bytes → Option Bytes
next_message [] = some []
next_message (m ∷ ms) = some m

abbrev later_messages : List Bytes → List Bytes
later_messages [] = []
later_messages (m ∷ ms) = ms

abbrev pub talking : Device
talking = record {
  State = Talker;
  read = λ s n. (next_message s.to_say, record s { to_say = later_messages s.to_say });
  write = λ s b. (some (length b), record s { heard = s.heard ++ b });
}

abbrev pub talking-IsLockstep : IsLockstep talking
talking-IsLockstep = record {
  messages = λ s. s.to_say;
  sent = λ s. s.heard;
  read-message = λ s m ms e fits. rw e (refl, refl);
  read_keeps-sent = λ s. refl;
  write-whole = λ s b. refl;
  write_keeps-messages = λ s b. refl;
}

-- The state counts the clients, and two come.
abbrev pub two_clients : Network
two_clients = record {
  State = ℕ;
  inet_pton = λ ip. none;
  inet_ntop = λ a. [];
  socket = λ s. (some 3, s);
  bind = λ s fd addr. (true, s);
  listen = λ s fd q. (true, s);
  connect = λ s fd addr. (false, s);
  accept = λ s fd. (if ltb s 2 then some (4, record { ip = []; port = 0 }) else none, suc s);
}
