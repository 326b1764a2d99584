-- ===== src/Netlib/Results.antt =====
-- What a descriptor that these functions return has gone through.
use iteso_codigos.Common.{
  ℕ, ◌<◌, ◌≡◌, refl, sym, ap, ap₂, ◌∙◌, Bool, true, false, Option, none, some, if◌then◌else◌,
}
use iteso_codigos.Common.Text.{Bytes}
use iteso_codigos.Packet.Word.{htons, htons-htons}
use iteso_codigos.Netlib.{
  Address, Network, Peer, wait_connection, build_address, listen_on, bind_to, new_server_socket,
  connect_to, new_client_socket,
}

-- A result that is not -1 came out of the branch that does not give -1.
test_some :
    {S : Type 0} (b : Bool) (x y : Option ℕ × S) (n : ℕ)
    → y.0 ≡ none
    → (if◌then◌else◌ {A = Option ℕ × S} b x y).0 ≡ some n
    → (b ≡ true) × (x.0 ≡ some n)
test_some true x y n fails e = (refl, e)
test_some false x y n fails e = absurd (cc (fails, e))

abbrev port_of : Option Address → ℕ
port_of none = 0
port_of (some a) = a.port

module _ (N : Network) where
  listen_on-some :
      (fd : Option ℕ) (q n : ℕ) (s : N.State)
      → (listen_on N fd q s).0 ≡ some n
      → ((N.listen s fd q).0 ≡ true) × (fd ≡ some n)
  unfolding listen_on
  listen_on-some fd q n s e =
      test_some (N.listen s fd q).0 (fd, (N.listen s fd q).1) (none, (N.listen s fd q).1) n refl e

  -- The descriptor is the open socket of the call before, bound to the address and listening.
  unfoldable pub IsListening : ℕ → Address → ℕ → Option ℕ → N.State → Type 0
  IsListening n addr q fd s =
      (fd ≡ some n)
      × ((N.bind s fd addr).0 ≡ true)
      × ((N.listen (N.bind s fd addr).1 fd q).0 ≡ true)

  bind_to-some :
      (fd : Option ℕ) (addr : Address) (q n : ℕ) (s : N.State)
      → (bind_to N fd addr q s).0 ≡ some n
      → IsListening n addr q fd s
  unfolding bind_to IsListening
  bind_to-some fd addr q n s e =
      let (bound, rest) =
        test_some (N.bind s fd addr).0 (listen_on N fd q (N.bind s fd addr).1)
          (none, (N.bind s fd addr).1) n refl e in
      let (listens, opened) = listen_on-some fd q n (N.bind s fd addr).1 rest in
      (opened, bound, listens)

  address_some :
      (o : Option Address) (next : Address → Option ℕ × N.State) (s : N.State) (n : ℕ)
      → (elim o as (λ _. Option ℕ × N.State) [ none ↦ (none, s) | some addr ↦ next addr ]).0
        ≡ some n
      → (addr : Address) × (o ≡ some addr) × ((next addr).0 ≡ some n)
  address_some none next s n e = absurd (cc e)
  address_some (some addr) next s n e = (addr, refl, e)

  -- A descriptor that the server's function returns is a socket that was opened, bound to the given
  -- address and told to listen, each with success, although the result of `socket` is not tested.
  pub new_server_socket-IsListening :
      (ip : Bytes) (port q n : ℕ) (s : N.State)
      → (new_server_socket N ip port q s).0 ≡ some n
      → (addr : Address) × (build_address N ip port ≡ some addr)
        × IsListening n addr q (N.socket s).0 (N.socket s).1
  unfolding new_server_socket
  new_server_socket-IsListening ip port q n s e =
      let (addr, built, rest) =
        address_some (build_address N ip port) (λ a. bind_to N (N.socket s).0 a q (N.socket s).1) s
          n e in
      (addr, built, bind_to-some (N.socket s).0 addr q n (N.socket s).1 rest)

  connect_to-some :
      (fd : Option ℕ) (addr : Address) (n : ℕ) (s : N.State)
      → (connect_to N fd addr s).0 ≡ some n
      → (fd ≡ some n) × ((N.connect s fd addr).0 ≡ true)
  unfolding connect_to
  connect_to-some none addr n s e = absurd (cc e)
  connect_to-some (some fd) addr n s e =
      let (connected, same_fd) =
        test_some (N.connect s (some fd) addr).0 (some fd, (N.connect s (some fd) addr).1)
          (none, (N.connect s (some fd) addr).1) n refl e in
      (same_fd, connected)

  -- A descriptor that the client's function returns is a socket that was opened and connected to the
  -- given address.
  pub new_client_socket-some :
      (ip : Bytes) (port n : ℕ) (s : N.State)
      → (new_client_socket N ip port s).0 ≡ some n
      → (addr : Address) × (build_address N ip port ≡ some addr)
        × ((N.socket s).0 ≡ some n)
        × ((N.connect (N.socket s).1 (N.socket s).0 addr).0 ≡ true)
  unfolding new_client_socket
  new_client_socket-some ip port n s e =
      let (addr, built, rest) =
        address_some (build_address N ip port) (λ a. connect_to N (N.socket s).0 a (N.socket s).1) s
          n e in
      let (opened, connected) = connect_to-some (N.socket s).0 addr n (N.socket s).1 rest in
      (addr, built, opened, connected)

  accepted_peer :
      (o : Option (ℕ × Address)) (n : ℕ) (addr : Address) (s : N.State) (wants_ip wants_port : Bool)
      → o ≡ some (n, addr)
      → (elim o as (λ _. Option Peer × N.State) [
        | none ↦ (none, s)
        | some (m, a) ↦ (
          some (record {
            client = m;
            client_ip = if wants_ip then some (N.inet_ntop (a.ip)) else none;
            client_port = if wants_port then some (htons (a.port)) else none;
          }),
          s,
        )
      ])
        ≡ (
          some (record {
            client = n;
            client_ip = if wants_ip then some (N.inet_ntop (addr.ip)) else none;
            client_port = if wants_port then some (htons (addr.port)) else none;
          }),
          s,
        )
  accepted_peer o n addr s wants_ip wants_port e = rw e refl

  built_port :
      (o : Option Bytes) (port : ℕ) (addr : Address)
      → port < 65536
      → (elim o as (λ _. Option Address) [
        | none ↦ none
        | some a ↦ some (record { ip = a; port = htons port })
      ])
        ≡ some addr
      → htons (addr.port) ≡ port
  built_port none port addr small e = absurd (cc e)
  built_port (some a) port addr small e =
      let same_port : htons port ≡ addr.port = ap port_of e in
      sym (ap htons same_port) ∙ htons-htons port small

  -- If the connection that is accepted comes from an address that is built from a text and a port,
  -- and the text is the one that `inet_ntop` writes for it, then exactly these are given back.
  pub wait_connection-build_address :
      (ip : Bytes) (port n fd : ℕ) (addr : Address) (s : N.State)
      → port < 65536
      → build_address N ip port ≡ some addr
      → N.inet_ntop (addr.ip) ≡ ip
      → (N.accept s fd).0 ≡ some (n, addr)
      → (wait_connection N true true fd s).0
        ≡ some (record { client = n; client_ip = some ip; client_port = some port })
  unfolding wait_connection build_address
  wait_connection-build_address ip port n fd addr s small built text accepted =
      ap (λ r. r.0) (accepted_peer (N.accept s fd).0 n addr (N.accept s fd).1 true true accepted)
      ∙ ap₂
          (λ (t : Bytes) (p : Option ℕ).
            some (record { client = n; client_ip = some t; client_port = p }))
          text (ap some (built_port (N.inet_pton ip) port addr small built))
