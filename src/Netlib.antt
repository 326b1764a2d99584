-- ===== src/Netlib.antt =====
-- The sockets of FileTransfer_Proyecto/netlib/tcp.c, over the calls of the system.
pub mod Results
pub mod Memory
mod Tests
use iteso_codigos.Common.{ℕ, Bool, Option, none, some, if◌then◌else◌}
use iteso_codigos.Common.Text.{Bytes}
use iteso_codigos.Packet.Word.{htons}

-- A `sockaddr_in`: the address and the port as they stand in memory.
pub record Address : Type 0 where
  pub ip : Bytes
  pub port : ℕ

-- The system: `inet_pton`, and the calls on an unknown state. A descriptor that is `none` is -1, and
-- the answer `true` of `bind`, `listen` and `connect` is 0.
pub record Network : Type 1 where
  pub State : Type 0
  pub inet_pton : Bytes → Option Bytes
  pub inet_ntop : Bytes → Bytes
  pub socket : State → Option ℕ × State
  pub bind : State → Option ℕ → Address → Bool × State
  pub listen : State → Option ℕ → ℕ → Bool × State
  pub connect : State → Option ℕ → Address → Bool × State
  pub accept : State → ℕ → Option (ℕ × Address) × State

-- What `waitConnection4` gives back: the descriptor, and what it stores through its two pointers,
-- `none` behind a null pointer.
pub record Peer : Type 0 where
  pub client : ℕ
  pub client_ip : Option Bytes
  pub client_port : Option ℕ

module _ (N : Network) where
  unfoldable pub build_address : Bytes → ℕ → Option Address
  build_address ip port = elim (N.inet_pton ip) [
    | none ↦ none
    | some a ↦ some (record { ip = a; port = htons port })
  ]

  unfoldable pub listen_on : Option ℕ → ℕ → N.State → Option ℕ × N.State
  listen_on fd q_size s =
      let (listens, s') = N.listen s fd q_size in if listens then (fd, s') else (none, s')

  unfoldable pub bind_to : Option ℕ → Address → ℕ → N.State → Option ℕ × N.State
  bind_to fd addr q_size s =
      let (bound, s') = N.bind s fd addr in
      let listening = listen_on fd q_size s' in if bound then listening else (none, s')

  -- getNewTCPSocket
  abbrev pub new_tcp_socket : N.State → Option ℕ × N.State
  new_tcp_socket s = N.socket s

  -- The test `!(socketFD = …)==-1` is never true, so the function goes on with any descriptor.
  unfoldable pub new_server_socket : Bytes → ℕ → ℕ → N.State → Option ℕ × N.State
  new_server_socket ip port q_size s = elim (build_address ip port) [
    | none ↦ (none, s)
    | some addr ↦ let (fd, s') = new_tcp_socket s in bind_to fd addr q_size s'
  ]

  unfoldable pub connect_to : Option ℕ → Address → N.State → Option ℕ × N.State
  connect_to none addr s = (none, s)
  connect_to (some fd) addr s =
      let (connected, s') = N.connect s (some fd) addr in
      if connected then (some fd, s') else (none, s')

  unfoldable pub new_client_socket : Bytes → ℕ → N.State → Option ℕ × N.State
  new_client_socket ip port s = elim (build_address ip port) [
    | none ↦ (none, s)
    | some addr ↦ let (fd, s') = new_tcp_socket s in connect_to fd addr s'
  ]

  -- The two tests say which of the pointers are not null.
  unfoldable pub wait_connection : Bool → Bool → ℕ → N.State → Option Peer × N.State
  wait_connection wants_ip wants_port fd s =
      let (accepted, s') = N.accept s fd in
      elim accepted [
        | none ↦ (none, s')
        | some (n, addr) ↦ (
          some (record {
            client = n;
            client_ip = if wants_ip then some (N.inet_ntop (addr.ip)) else none;
            client_port = if wants_port then some (htons (addr.port)) else none;
          }),
          s',
        )
      ]
