-- ===== src/SimpleSocket/EchoServer/Clients.antt =====
-- The clients of the echo server, one after the other.
use iteso_codigos.Common.{
  ℕ, zero, suc, ◌+◌, ◌%◌, ◌^◌, ◌≤◌, ◌<◌, ◌≡◌, refl, ap, ◌∙◌, true, false, ◌||◌, none, some, List,
  [], ◌∷◌, ◌++◌, ltb, All, arith, length,
}
use iteso_codigos.Common.Text.{concat, Bytes}
use iteso_codigos.Common.Run.{Run, done}
use iteso_codigos.Device.{Device}
use iteso_codigos.Libc.Number.{strtol}
use iteso_codigos.Netlib.{Network, Address}
use iteso_codigos.SimpleSocket.EchoServer.{
  quit_text, echo_session, Exit, cannot_accept, any_address, accept_loop, listen_loop, bind_port,
  main,
}
use iteso_codigos.SimpleSocket.EchoServer.Session.{IsLockstep, IsOther, echo_session-Ends}

-- The system accepts that number of clients, and then fails.
abbrev pub Accepts : (N : Network) → ℕ → ℕ → N.State → Type 0
Accepts N fd zero n = (N.accept n fd).0 ≡ none
Accepts N fd (suc k) n =
    ((client : ℕ) × (addr : Address) × ((N.accept n fd).0 ≡ some (client, addr)))
    × Accepts N fd k (N.accept n fd).1

-- The i-th client, and each after it, got back what it said and its QUIT.
abbrev pub Served : (D : Device) → IsLockstep D → (ℕ → List Bytes) → ℕ → List D.State → Type 0
Served D L talk i [] = Unit
Served D L talk i (s ∷ ss) = (L.sent s ≡ concat (talk i) ++ quit_text) × Served D L talk (i + 1) ss

pub port_in_range : (port : ℕ) → 1 ≤ port → port ≤ 65535 → (ltb port 1 || ltb 65535 port) ≡ false
port_in_range port low high = ground arith

module _ (N : Network) (D : Device) (L : IsLockstep D) (connection : ℕ → ℕ → D.State)
    (fuel : ℕ) where
  -- What the i-th client says before its QUIT.
  pub record Talks (ms : List Bytes) (i : ℕ) : Type 0 where
    pub goes_on : All IsOther ms
    pub enough : length ms < fuel
    pub comes : (fd : ℕ) → L.messages (connection i fd) ≡ ms ++ quit_text ∷ []
    pub fresh : (fd : ℕ) → L.sent (connection i fd) ≡ []

  accept_last :
      (rounds i fd : ℕ) (n : N.State)
      → (N.accept n fd).0 ≡ none
      → accept_loop N D connection fuel (suc rounds) i (some fd) n ≡ done []
  unfolding accept_loop
  accept_last rounds i fd n e = rw (e, accept_loop) refl

  accept_step :
      (rounds i fd client : ℕ) (addr : Address) (n : N.State) (s : D.State) (ss : List D.State)
      → (N.accept n fd).0 ≡ some (client, addr)
      → echo_session D fuel (connection i client) ≡ done s
      → accept_loop N D connection fuel rounds (i + 1) (some fd) (N.accept n fd).1 ≡ done ss
      → accept_loop N D connection fuel (suc rounds) i (some fd) n ≡ done (s ∷ ss)
  unfolding accept_loop
  accept_step rounds i fd client addr n s ss accepted echoed rest =
      rw (accepted, accept_loop) (rw (echoed, rest) refl)

  accept_loop-Served :
      (talk : ℕ → List Bytes) (rounds k i fd : ℕ) (n : N.State)
      → ((j : ℕ) → Talks (talk j) j)
      → Accepts N fd k n
      → k < rounds
      → (ss : List D.State) × (accept_loop N D connection fuel rounds i (some fd) n ≡ done ss)
        × (length ss ≡ k)
        × Served D L talk i ss
  accept_loop-Served talk zero k i fd n talks accepts enough = absurd (omega arith)
  accept_loop-Served talk (suc rounds) zero i fd n talks fails enough =
      ([], accept_last rounds i fd n fails, refl, tt)
  accept_loop-Served talk (suc rounds) (suc k) i fd n talks ((client, addr, accepted), later)
        enough =
      let t = talks i in
      let session =
        echo_session-Ends D L fuel (connection i client) (talk i) [] (t.comes client) t.goes_on
          t.enough in
      let (ss, rest, number, served) =
        accept_loop-Served talk rounds k (i + 1) fd (N.accept n fd).1 talks later (omega arith) in
      (
        session.final ∷ ss,
        accept_step rounds i fd client addr n session.final ss accepted session.returns rest,
        ap suc number,
        (
          session.echoes ∙ ap (λ (b : Bytes). b ++ (concat (talk i) ++ quit_text)) (t.fresh client),
          served,
        ),
      )

  listen_steps :
      (fd : ℕ) (n : N.State) (ss : List D.State)
      → (N.listen n (some fd) 5).0 ≡ true
      → accept_loop N D connection fuel fuel 0 (some fd) (N.listen n (some fd) 5).1 ≡ done ss
      → listen_loop N D connection fuel (some fd) n ≡ done (cannot_accept ss)
  unfolding listen_loop
  listen_steps fd n ss listens served = rw (listens, served) refl

  bind_steps :
      (port fd : ℕ) (n : N.State) (r : Run (Exit D.State))
      → (N.socket n).0 ≡ some fd
      → (N.bind (N.socket n).1 (some fd) (any_address port)).0 ≡ true
      → listen_loop N D connection fuel
          (some fd)
          (N.bind (N.socket n).1 (some fd) (any_address port)).1
        ≡ r
      → bind_port N D connection fuel port n ≡ r
  unfolding bind_port
  bind_steps port fd n r opened bound listening = rw opened (rw (bound, listening) refl)

  -- Over connections on which each read gives one whole message of at most 255 bytes and every write
  -- is taken whole (the law IsLockstep), with a port from 1 to 65535 and a system that opens, binds and
  -- listens, then accepts k clients and then fails, and with fuel above k: if each client sends
  -- messages that are not QUIT, fewer than the fuel, and then QUIT, and nothing was sent to it before,
  -- the program ends because `accept` failed, and every client, in order, got back exactly what it
  -- sent.
  pub main-Served :
      (talk : ℕ → List Bytes) (a : Bytes) (port fd k : ℕ) (n : N.State)
      → strtol a % 2 ^ 32 ≡ port
      → 1 ≤ port
      → port ≤ 65535
      → (N.socket n).0 ≡ some fd
      → (N.bind (N.socket n).1 (some fd) (any_address port)).0 ≡ true
      → (N.listen (N.bind (N.socket n).1 (some fd) (any_address port)).1 (some fd) 5).0 ≡ true
      → Accepts N fd k
          (N.listen (N.bind (N.socket n).1 (some fd) (any_address port)).1 (some fd) 5).1
      → k < fuel
      → ((j : ℕ) → Talks (talk j) j)
      → (ss : List D.State) × (main N D connection fuel (a ∷ []) n ≡ done (cannot_accept ss))
        × (length ss ≡ k)
        × Served D L talk 0 ss
  unfolding main
  main-Served talk a port fd k n number low high opened bound listens accepts enough talks =
      let n2 = (N.bind (N.socket n).1 (some fd) (any_address port)).1 in
      let (ss, served, count, echoed) =
        accept_loop-Served talk fuel k 0 fd (N.listen n2 (some fd) 5).1 talks accepts enough in
      (
        ss,
        rw number (
            rw
              (
                port_in_range port low high,
                bind_steps port fd n (done (cannot_accept ss)) opened bound
                    (listen_steps fd n2 ss listens served),
              )
              refl),
        count,
        echoed,
      )
