-- ===== src/Netlib/Tests.antt =====
-- A network of one host, whose sockets are numbered.
use iteso_codigos.Common.{
  ℕ, arith, suc, ◌≡◌, refl, Bool, true, false, Option, none, some, [], ◌∷◌, if◌then◌else◌,
}
use iteso_codigos.Common.Text.{codes, same}
use iteso_codigos.Packet.Word.{htons}
use iteso_codigos.Netlib.{
  wait_connection, Address, Network, build_address, listen_on, bind_to, new_server_socket,
}
use iteso_codigos.Netlib.Results.{
  IsListening, new_server_socket-IsListening, wait_connection-build_address,
}

abbrev is_open : Option ℕ → Bool
is_open none = false
is_open (some fd) = true

-- The state is the next descriptor.
abbrev one_host : Network
one_host = record {
  State = ℕ;
  inet_pton = λ ip. if same ip (codes "127.0.0.1") then some (127 ∷ 0 ∷ 0 ∷ 1 ∷ []) else none;
  inet_ntop = λ a. codes "127.0.0.1";
  accept = λ s fd. (some (s, record { ip = 127 ∷ 0 ∷ 0 ∷ 1 ∷ []; port = htons 40000 }), suc s);
  socket = λ s. (some s, suc s);
  bind = λ s fd addr. (is_open fd, s);
  listen = λ s fd q. (is_open fd, s);
  connect = λ s fd addr. (is_open fd, s);
}

new_server_socket-IsListening_example :
    (addr : Address) × (build_address one_host (codes "127.0.0.1") 5001 ≡ some addr)
    × IsListening one_host 3 addr 5 (some 3) 4
unfolding new_server_socket build_address bind_to listen_on same
new_server_socket-IsListening_example =
    new_server_socket-IsListening one_host (codes "127.0.0.1") 5001 5 3 3 refl

wait_connection-build_address_example :
    (wait_connection one_host true true 3 4).0
    ≡ some (record { client = 4; client_ip = some (codes "127.0.0.1"); client_port = some 40000 })
unfolding build_address same
wait_connection-build_address_example =
    wait_connection-build_address one_host (codes "127.0.0.1") 40000 4 3
      (record { ip = 127 ∷ 0 ∷ 0 ∷ 1 ∷ []; port = htons 40000 }) 4 (omega arith) refl refl refl
