-- ===== src/Netlib/Memory.antt =====
-- A system in memory, on which the witnesses run.
use iteso_codigos.Common.{ℕ, suc, true, some, [], ◌∷◌}
use iteso_codigos.Common.Text.{codes}
use iteso_codigos.Netlib.{Network}

-- The system whose calls all succeed. Its state is the next descriptor.
abbrev pub loopback : Network
loopback = record {
  State = ℕ;
  inet_pton = λ ip. some (127 ∷ 0 ∷ 0 ∷ 1 ∷ []);
  inet_ntop = λ a. codes "127.0.0.1";
  socket = λ s. (some s, suc s);
  bind = λ s fd addr. (true, s);
  listen = λ s fd q. (true, s);
  connect = λ s fd addr. (true, s);
  accept = λ s fd. (some (s, record { ip = 127 ∷ 0 ∷ 0 ∷ 1 ∷ []; port = 0 }), suc s);
}
